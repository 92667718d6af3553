-- ===== src/Server/Interop.antt =====
-- The program's SOCKS5 client (src/proxy_client.rs) and its SOCKS5 server (src/proxy_server.rs), one
-- as the upstream proxy of the other.
use simple_forwarder.Prelude.{
  ℕ, ◌≤◌, ◌<◌, ◌≡◌, refl, sym, ap, ◌∙◌, Bool, true, Option, none, some, List, [], ◌∷◌, ◌++◌, arith,
  append_assoc, append-nil, length, length-append,
}
use simple_forwarder.Text.{Bytes}
use simple_forwarder.Net.Addr.{SocketAddr, IpAddr, v4, v6, parse_ip}
use simple_forwarder.Net.Stream.{Stream, ok, read_exact, write_all, unread}
use simple_forwarder.Net.Stream.Laws.{read_exact_lem}
use simple_forwarder.Crates.{Crates}
use simple_forwarder.Outside.{Outside}
use simple_forwarder.Outcome.{done}
use simple_forwarder.Client.Socks5.{
  be16, request_address, connect_request, skip_bound_address, negotiate, read_connect_reply,
  socks5_connect,
}
use simple_forwarder.Server.Replies.{success_reply}
use simple_forwarder.Server.Target.{Rules}
use simple_forwarder.Server.Socks5.Defs.{handle_socks5, serve}
use simple_forwarder.Server.Socks5.Reads.{Takes, name, request_for}
use simple_forwarder.Server.Socks5.Serves.{handle_socks5_lem}

-- The server selects method 0: the client goes on.
negotiate-selected :
    (rest : Bytes) (s : Stream)
    → unread s.incoming ≡ (0x05 ∷ 0x00 ∷ []) ++ rest
    → s.writable ≡ true
    → Takes s rest (0x05 ∷ 0x01 ∷ 0x00 ∷ []) tt (negotiate s)
unfolding negotiate write_all
negotiate-selected rest s e open_ =
    let (r1, e1, u1) =
      read_exact_lem (0x05 ∷ 0x00 ∷ []) rest
        (record s { sent = s.sent ++ (0x05 ∷ 0x01 ∷ 0x00 ∷ []) }) e in
    (r1, ground (arith, e1), u1)

-- The width of the address of a local socket.
abbrev pub IsAddr : Option SocketAddr → Type 0
IsAddr none = Unit
IsAddr (some a) = elim a.ip [ v4 o ↦ length o ≡ 4 | v6 o ↦ length o ≡ 16 ]

skip_exactly :
    (n : ℕ) (b rest : Bytes) (s : Stream)
    → unread s.incoming ≡ b ++ rest
    → length b ≡ n
    → (segs : List Bytes) × (read_exact n s ≡ ok b (record s { incoming = segs }))
      × (unread segs ≡ rest)
skip_exactly n b rest s e h = let (r, e1, u) = read_exact_lem b rest s e in (r, rw (sym h) e1, u)

skip_v4 :
    (b rest : Bytes) (s : Stream)
    → unread s.incoming ≡ b ++ rest
    → length b ≡ 6
    → Takes s rest [] tt (skip_bound_address 0x01 s)
unfolding skip_bound_address
skip_v4 b rest s e h =
    let (r, e1, u) = skip_exactly 6 b rest s e h in (r, ground (arith, e1, append-nil s.sent), u)

skip_v6 :
    (b rest : Bytes) (s : Stream)
    → unread s.incoming ≡ b ++ rest
    → length b ≡ 18
    → Takes s rest [] tt (skip_bound_address 0x04 s)
unfolding skip_bound_address
skip_v6 b rest s e h =
    let (r, e1, u) = skip_exactly 18 b rest s e h in (r, ground (arith, e1, append-nil s.sent), u)

-- The head of a reply of success, and then its address.
read_reply :
    (atyp : ℕ) (b rest : Bytes) (s : Stream)
    → unread s.incoming ≡ (0x05 ∷ 0x00 ∷ 0x00 ∷ atyp ∷ []) ++ (b ++ rest)
    → ((t : Stream)
        → unread t.incoming ≡ b ++ rest
        → Takes t rest [] tt (skip_bound_address atyp t))
    → Takes s rest [] tt (read_connect_reply s)
unfolding read_connect_reply
read_reply atyp b rest s e skip =
    let (r1, e1, u1) = read_exact_lem (0x05 ∷ 0x00 ∷ 0x00 ∷ atyp ∷ []) (b ++ rest) s e in
    let (r2, e2, u2) = skip (record s { incoming = r1 }) u1 in (r2, ground (arith, e1, e2), u2)

read_success_reply :
    (a : Option SocketAddr) (rest : Bytes) (s : Stream)
    → unread s.incoming ≡ success_reply a ++ rest
    → IsAddr a
    → Takes s rest [] tt (read_connect_reply s)
read_success_reply none rest s e h =
    read_reply 0x01 (0 ∷ 0 ∷ 0 ∷ 0 ∷ 0 ∷ 0 ∷ []) rest s e
      (λ t u. skip_v4 (0 ∷ 0 ∷ 0 ∷ 0 ∷ 0 ∷ 0 ∷ []) rest t u refl)
read_success_reply (some a) rest s e h = go a.ip a.port e h
  where
    go :
        (ip : IpAddr) (port : ℕ)
        → unread s.incoming ≡ success_reply (some (record { ip = ip; port = port })) ++ rest
        → IsAddr (some (record { ip = ip; port = port }))
        → Takes s rest [] tt (read_connect_reply s)
    go (v4 o) port e h =
        read_reply 0x01 (o ++ be16 port) rest s e
          (λ t u. skip_v4 (o ++ be16 port) rest t u (omega (arith, h, length-append o (be16 port))))
    go (v6 o) port e h =
        read_reply 0x04 (o ++ be16 port) rest s e
          (λ t u. skip_v6 (o ++ be16 port) rest t u (omega (arith, h, length-append o (be16 port))))

-- The client takes the replies of the program's own server for a success, whatever its local address
-- is: it has sent the greeting and one request, and every byte behind the reply is left to the relay.
pub socks5_connect-success_reply :
    (host : Bytes) (port : ℕ) (is_socks5h : Bool) (request : Bytes) (a : Option SocketAddr)
    (rest : Bytes) (s : Stream)
    → connect_request host port is_socks5h ≡ done request
    → unread s.incoming ≡ (0x05 ∷ 0x00 ∷ []) ++ (success_reply a ++ rest)
    → IsAddr a
    → s.writable ≡ true
    → Takes s rest ((0x05 ∷ 0x01 ∷ 0x00 ∷ []) ++ request) tt (socks5_connect host port is_socks5h s)
unfolding socks5_connect write_all
socks5_connect-success_reply host port is_socks5h request a rest s f e h open_ =
    let (r1, e1, u1) = negotiate-selected (success_reply a ++ rest) s e open_ in
    let s2 : Stream = record s {
      incoming = r1;
      sent = (s.sent ++ (0x05 ∷ 0x01 ∷ 0x00 ∷ [])) ++ request;
    } in
    let (r2, e2, u2) = read_success_reply a rest s2 u1 h in
    (
      r2,
      ground (
        arith,
        e1,
        e2,
        f,
        append-nil s2.sent,
        append_assoc s.sent (0x05 ∷ 0x01 ∷ 0x00 ∷ []) request,
      ),
      u2,
    )

connect_request-name :
    (host : Bytes) (port : ℕ)
    → parse_ip host ≡ none
    → length host ≤ 255
    → connect_request host port true
      ≡ done (0x05 ∷ 0x01 ∷ 0x00 ∷ 0x03 ∷ length host ∷ host ++ be16 port)
unfolding connect_request request_address
connect_request-name host port e h = ground (arith, e)

-- The server serves the host name, read as lossy UTF-8, and port that the socks5h client of the program
-- asks for, if the host is no IP address and has 1 to 253 bytes, and the bytes behind the client's request
-- stay on the stream. (The client asks for hosts of 254 and 255 bytes too, which the server refuses.)
pub handle_socks5-connect_request :
    (c : Crates) (o : Outside) (rules : Rules) (host : Bytes) (port : ℕ) (request rest : Bytes)
    (s : Stream)
    → parse_ip host ≡ none
    → 0 < length host
    → length host ≤ 253
    → connect_request host port true ≡ done request
    → unread s.incoming ≡ ((0x01 ∷ 0x00 ∷ []) ++ request) ++ rest
    → s.writable ≡ true
    → (segs : List Bytes) × (handle_socks5 c o rules s
        ≡ serve c o rules
            (request_for (name host) port)
            (record s { incoming = segs; sent = s.sent ++ (0x05 ∷ 0x00 ∷ []) }))
      × (unread segs ≡ rest)
handle_socks5-connect_request c o rules host port request rest s named pos small f e open_ =
    handle_socks5_lem c o rules (0x00 ∷ []) (name host) port rest s
      (e ∙ ap (λ (x : Bytes). ((0x01 ∷ 0x00 ∷ []) ++ x) ++ rest) same) (omega arith) refl
      (pos, small) open_
  where
    same : request ≡ 0x05 ∷ 0x01 ∷ 0x00 ∷ 0x03 ∷ length host ∷ host ++ be16 port
    same = cc (f, connect_request-name host port named (omega arith))
