-- ===== src/Tests/Interop.antt =====
-- The client and the server of the program against each other, at concrete inputs.
use simple_forwarder.Prelude.{◌≡◌, refl, true, some, List, [], ◌∷◌, ◌++◌, drop, arith}
use simple_forwarder.Text.{Bytes, codes}
use simple_forwarder.Text.Decimal.{show_dec}
use simple_forwarder.Net.Addr.{parse_ip}
use simple_forwarder.Net.Stream.{unread}
use simple_forwarder.Client.Socks5.{connect_request, socks5_connect}
use simple_forwarder.Server.Replies.{success_reply}
use simple_forwarder.Server.Socks5.Defs.{handle_socks5, serve}
use simple_forwarder.Server.Socks5.Reads.{Takes, name, request_for}
use simple_forwarder.Server.Interop.{socks5_connect-success_reply, handle_socks5-connect_request}
use simple_forwarder.Client.HttpConnect.{format_host, connect_text}
use simple_forwarder.Server.Http.Defs.{handle_http}
use simple_forwarder.Server.Http.Tunnel.{tunnel, handle_http-connect_text}
use simple_forwarder.Tests.Samples.{local, peer, plain_crates, open_network}

abbrev asked : Bytes
asked = 5 ∷ 1 ∷ 0 ∷ 3 ∷ 3 ∷ codes "a.b" ++ (0 ∷ 80 ∷ [])

success_example :
    Takes
      (peer ((5 ∷ 0 ∷ []) ∷ (success_reply (some local) ++ codes "hi") ∷ []))
      (codes "hi")
      ((5 ∷ 1 ∷ 0 ∷ []) ++ asked)
      tt
      (socks5_connect
        (codes "a.b")
        80
        true
        (peer ((5 ∷ 0 ∷ []) ∷ (success_reply (some local) ++ codes "hi") ∷ [])))
unfolding connect_request parse_ip unread
success_example =
    socks5_connect-success_reply (codes "a.b") 80 true asked (some local) (codes "hi")
      (peer ((5 ∷ 0 ∷ []) ∷ (success_reply (some local) ++ codes "hi") ∷ [])) refl refl refl refl

request_example :
    (segs : List Bytes) × (handle_socks5 plain_crates open_network []
        (peer (((1 ∷ 0 ∷ []) ++ asked) ∷ codes "hi" ∷ []))
      ≡ serve plain_crates open_network []
          (request_for (name (codes "a.b")) 80)
          (record (peer []) { incoming = segs; sent = 5 ∷ 0 ∷ [] }))
    × (unread segs ≡ codes "hi")
unfolding connect_request parse_ip unread
request_example =
    handle_socks5-connect_request plain_crates open_network [] (codes "a.b") 80 asked (codes "hi")
      (peer (((1 ∷ 0 ∷ []) ++ asked) ∷ codes "hi" ∷ [])) refl (omega arith) (omega arith) refl refl
      refl

abbrev tunnel_text : Bytes
tunnel_text = connect_text (codes "::1") 80

tunnel_example :
    (left : Bytes) × (segs : List Bytes) × (handle_http b'C' plain_crates open_network []
        (peer (drop 1 tunnel_text ∷ codes "hi" ∷ []))
      ≡ tunnel plain_crates open_network []
          (record { host = codes "::1"; port = 80 })
          left
          (peer segs))
    × (left ++ unread segs ≡ codes "hi")
unfolding connect_text format_host show_dec unread
tunnel_example =
    handle_http-connect_text plain_crates open_network [] (codes "::1") 80 (codes "hi")
      (peer (drop 1 tunnel_text ∷ codes "hi" ∷ []))
      (record { no_bracket = refl; no_front_bracket = refl; not_empty = omega arith })
      (ground arith) (omega arith) (omega arith) refl
