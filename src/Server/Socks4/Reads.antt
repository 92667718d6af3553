-- ===== src/Server/Socks4/Reads.antt =====
-- What a SOCKS4 client sends and what the handler makes of it, in whatever segments it arrives.
use simple_forwarder.Prelude.{
  ℕ, ◌+◌, ◌-◌, ◌*◌, ◌/◌, ◌%◌, ◌≤◌, ◌<◌, ◌≡◌, ◌∙◌, Bool, true, false, none, List, [], ◌∷◌, ◌++◌,
  arith, append_assoc, if◌then◌else◌, length, length-append, position, take-length-append,
}
use simple_forwarder.Text.{Bytes}
use simple_forwarder.Text.Utf8.{from_utf8_lossy}
use simple_forwarder.Net.Addr.{v4, show_ip}
use simple_forwarder.Net.Stream.{Stream, Res, ok, unread}
use simple_forwarder.Net.Stream.Laws.{read_exact_lem}
use simple_forwarder.Server.Socks4.Defs.{
  split_fields, names_host, socks4_request, read_host, read_target, read_socks4_request,
}
use simple_forwarder.Client.Socks5.{be16}
use simple_forwarder.Server.Socks4.Scan.{fields, ends, drop_user}
use simple_forwarder.Server.Socks4.Fields.{read_fields_lem}

-- The host that the handler makes of the fields.
abbrev pub host_of : Bytes → Bytes → Bytes
host_of ip_bytes domain =
    if names_host ip_bytes then from_utf8_lossy domain else show_ip (v4 ip_bytes)

split_fields_lem :
    (is_socks4a : Bool) (ip_bytes user domain past : Bytes) (s : Stream)
    → length user ≤ 255
    → length domain ≤ 253
    → split_fields is_socks4a ip_bytes
        (ends is_socks4a user domain)
        (fields is_socks4a user domain ++ past)
        s
      ≡ ok (if is_socks4a then from_utf8_lossy domain else show_ip (v4 ip_bytes), past) s
unfolding split_fields
split_fields_lem false ip_bytes user domain past s h k =
    rw (append_assoc user (0 ∷ []) past, drop_user user past) (ground arith)
split_fields_lem true ip_bytes user domain past s h k =
    let len : length user + 1 + length domain - (length user + 1) ≡ length domain = omega arith in
    rw
      (
        append_assoc user (0 ∷ (domain ++ 0 ∷ [])) past,
        drop_user user ((domain ++ 0 ∷ []) ++ past),
        append_assoc domain (0 ∷ []) past,
        len,
        drop_user domain past,
        take-length-append domain (0 ∷ past),
      )
      (ground arith)

-- The host is read, and the bytes behind the fields are kept in order.
abbrev Hosts : Bytes → Bytes → Bytes → Stream → Res (Bytes × Bytes) → Type 0
Hosts ip_bytes domain rest s r =
    (past : Bytes) × (segs : List Bytes) × (r
      ≡ ok (host_of ip_bytes domain, past) (record s { incoming = segs }))
    × (past ++ unread segs ≡ rest)

fields_small :
    (is_socks4a : Bool) (user domain : Bytes)
    → length user ≤ 255
    → length domain ≤ 253
    → length (fields is_socks4a user domain) ≤ 1024
fields_small false user domain h k = omega (arith, length-append user (0 ∷ []))
fields_small true user domain h k =
    omega (arith, length-append user (0 ∷ (domain ++ 0 ∷ [])), length-append domain (0 ∷ []))

-- A user id and a host, as a SOCKS4 client may send them.
pub record AreFields (user domain : Bytes) : Type 0 where
  pub user_no_zero : position 0 user ≡ none
  pub domain_no_zero : position 0 domain ≡ none
  pub user_small : length user ≤ 255
  pub domain_small : length domain ≤ 253

read_host_lem :
    (ip_bytes user domain rest : Bytes) (s : Stream)
    → unread s.incoming ≡ fields (names_host ip_bytes) user domain ++ rest
    → AreFields user domain
    → Hosts ip_bytes domain rest s (read_host ip_bytes s)
unfolding read_host
read_host_lem ip_bytes user domain rest s e f =
    let is_socks4a : Bool = names_host ip_bytes in
    let (past, segs, e1, u1) =
      read_fields_lem is_socks4a user domain rest f.user_no_zero f.domain_no_zero
        (fields_small is_socks4a user domain f.user_small f.domain_small) s e in
    (
      past,
      segs,
      rw e1 (
          split_fields_lem is_socks4a ip_bytes user domain past (record s { incoming = segs })
            f.user_small f.domain_small),
      u1,
    )

-- The bytes of a SOCKS4 client: the command, the port and the address, and the fields.
abbrev pub client_bytes : ℕ → Bytes → Bytes → Bytes → Bytes
client_bytes port ip_bytes user domain =
    (0x01 ∷ be16 port ++ ip_bytes) ++ fields (names_host ip_bytes) user domain

pub read_socks4_request_lem :
    (port : ℕ) (ip_bytes user domain rest : Bytes) (s : Stream)
    → unread s.incoming ≡ client_bytes port ip_bytes user domain ++ rest
    → port < 65536
    → length ip_bytes ≡ 4
    → AreFields user domain
    → (past : Bytes) × (segs : List Bytes) × (read_socks4_request s
        ≡ ok
            (socks4_request ip_bytes port (host_of ip_bytes domain, past))
            (record s { incoming = segs }))
      × (past ++ unread segs ≡ rest)
unfolding read_socks4_request read_target
read_socks4_request_lem port ip_bytes user domain rest s e small four f =
    let header : Bytes = 0x01 ∷ be16 port ++ ip_bytes in
    let wanted : Bytes = fields (names_host ip_bytes) user domain in
    let (r1, e1, u1) =
      read_exact_lem header (wanted ++ rest) s (e ∙ append_assoc header wanted rest) in
    let (past, segs, e2, u2) =
      read_host_lem ip_bytes user domain rest (record s { incoming = r1 }) u1 f in
    let seven : length header ≡ 7 = omega (arith, four) in
    let port_back : port / 256 % 256 * 256 + port % 256 ≡ port = omega arith in
    (past, segs, rw (rw seven at e1) (rw (e2, port_back)), u2)
