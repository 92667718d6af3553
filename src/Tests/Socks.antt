-- ===== src/Tests/Socks.antt =====
-- The SOCKS handlers at concrete inputs.
use simple_forwarder.Prelude.{◌≡◌, refl, List, [], ◌∷◌, ◌++◌, arith}
use simple_forwarder.Text.{Bytes, codes}
use simple_forwarder.Net.Stream.{Stream, unread}
use simple_forwarder.Server.Socks4.Defs as Four
use simple_forwarder.Server.Socks4.Reads as FourReads
use simple_forwarder.Server.Socks4.Serves as FourServes
use simple_forwarder.Server.Socks5.Defs as Five
use simple_forwarder.Server.Socks5.Reads as FiveReads
use simple_forwarder.Server.Socks5.Serves as FiveServes
use simple_forwarder.Tests.Samples.{peer, plain_crates, open_network}

abbrev zeros_one : Bytes
zeros_one = 0 ∷ 0 ∷ 0 ∷ 1 ∷ []

abbrev four_client : Stream
four_client =
    peer (FourReads.client_bytes 443 zeros_one (codes "me") (codes "a.b") ∷ codes "hi" ∷ [])

four_fields : FourReads.AreFields (codes "me") (codes "a.b")
four_fields = record {
  user_no_zero = refl;
  domain_no_zero = refl;
  user_small = omega arith;
  domain_small = omega arith;
}

handle_socks4_example :
    (past : Bytes) × (segs : List Bytes) × (Four.handle_socks4 plain_crates open_network []
        four_client
      ≡ Four.serve plain_crates open_network []
          (Four.socks4_request zeros_one 443 (FourReads.host_of zeros_one (codes "a.b"), past))
          (record four_client { incoming = segs }))
    × (past ++ unread segs ≡ codes "hi")
unfolding unread
handle_socks4_example =
    FourServes.handle_socks4_lem plain_crates open_network [] 443 zeros_one (codes "me")
      (codes "a.b") (codes "hi") four_client refl (omega arith) refl four_fields

abbrev five_client : Stream
five_client =
    peer (FiveServes.client_bytes (2 ∷ 0 ∷ []) (FiveReads.name (codes "a.b")) 80 ∷ codes "hi" ∷ [])

handle_socks5_example :
    (segs : List Bytes) × (Five.handle_socks5 plain_crates open_network [] five_client
      ≡ Five.serve plain_crates open_network []
          (FiveReads.request_for (FiveReads.name (codes "a.b")) 80)
          (record five_client { incoming = segs; sent = 0x05 ∷ 0x00 ∷ [] }))
    × (unread segs ≡ codes "hi")
unfolding unread
handle_socks5_example =
    FiveServes.handle_socks5_lem plain_crates open_network [] (2 ∷ 0 ∷ [])
      (FiveReads.name (codes "a.b")) 80 (codes "hi") five_client refl (omega arith) refl
      (omega arith, omega arith) refl
