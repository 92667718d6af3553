-- ===== src/Server/Socks5/Reads.antt =====
-- What a SOCKS5 client sends and what the handler makes of it, in whatever segments it arrives.
use simple_forwarder.Prelude.{
  ℕ, ◌≤◌, ◌<◌, ◌≡◌, refl, ◌∙◌, true, List, [], ◌∷◌, ◌++◌, arith, ◌==◌, if◌then◌else◌, length,
  append-nil, ◌⊎◌, inl, inr, ◌≢◌,
}
use simple_forwarder.Text.{Bytes, codes, contains}
use simple_forwarder.Text.Decimal.{show_dec}
use simple_forwarder.Net.Error.{Error, message}
use simple_forwarder.Server.Replies.{error_reply}
use simple_forwarder.Net.Addr.{v4, v6}
use simple_forwarder.Net.Stream.{Stream, Res, ok, err, write_all, unread}
use simple_forwarder.Net.Stream.Laws.{read_exact_lem}
use simple_forwarder.Client.Socks5.{be16}
use simple_forwarder.Server.Target.{Request}
use simple_forwarder.Server.Socks5.Defs.{
  negotiate, from_be16, ip_request, domain_request, read_domain, read_name, read_address,
  read_request,
}

-- The handler takes `b` off the stream with this result, and answers with `out`.
abbrev pub Takes {ℓ} : {A : Type ℓ} → Stream → Bytes → Bytes → A → Res A → Type ℓ
Takes s rest out a r =
    (segs : List Bytes) × (r ≡ ok a (record s { incoming = segs; sent = s.sent ++ out }))
    × (unread segs ≡ rest)

pub negotiate_lem :
    (methods rest : Bytes) (s : Stream)
    → unread s.incoming ≡ (length methods ∷ methods) ++ rest
    → 0 < length methods
    → length methods ≤ 255
    → contains methods 0x00 ≡ true
    → s.writable ≡ true
    → Takes s rest (0x05 ∷ 0x00 ∷ []) tt (negotiate s)
unfolding negotiate write_all
negotiate_lem methods rest s e pos small offers open_ =
    let (r1, e1, u1) = read_exact_lem (length methods ∷ []) (methods ++ rest) s e in
    let (r2, e2, u2) = read_exact_lem methods rest (record s { incoming = r1 }) u1 in
    (r2, ground (arith, e1, e2), u2)

-- The two bytes of a port give the port back.
pub from_be16-be16 : (port : ℕ) → port < 65536 → from_be16 (be16 port) ≡ port
from_be16-be16 port h = omega arith

read_name_lem :
    (host : Bytes) (port : ℕ) (rest : Bytes) (s : Stream)
    → unread s.incoming ≡ host ++ (be16 port ++ rest)
    → Takes s rest [] (domain_request host (be16 port)) (read_name (length host) s)
unfolding read_name
read_name_lem host port rest s e =
    let (r1, e1, u1) = read_exact_lem host (be16 port ++ rest) s e in
    let (r2, e2, u2) = read_exact_lem (be16 port) rest (record s { incoming = r1 }) u1 in
    (r2, ground (arith, e1, e2, append-nil s.sent), u2)

read_ip_lem :
    (addr : Bytes) (port : ℕ) (rest : Bytes) (s : Stream)
    → unread s.incoming ≡ addr ++ (be16 port ++ rest)
    → (length addr ≡ 4) ⊎ (length addr ≡ 16)
    → Takes s rest []
        (ip_request (if length addr == 4 then v4 addr else v6 addr) (be16 port))
        (read_address (if length addr == 4 then 0x01 else 0x04) s)
unfolding read_address
read_ip_lem addr port rest s e width =
    let (r1, e1, u1) = read_exact_lem addr (be16 port ++ rest) s e in
    let (r2, e2, u2) = read_exact_lem (be16 port) rest (record s { incoming = r1 }) u1 in
    (r2, ground (arith, e1, e2, append-nil s.sent), u2)

read_domain_lem :
    (host : Bytes) (port : ℕ) (rest : Bytes) (s : Stream)
    → unread s.incoming ≡ (length host ∷ []) ++ (host ++ (be16 port ++ rest))
    → 0 < length host
    → length host ≤ 253
    → Takes s rest [] (domain_request host (be16 port)) (read_domain s)
unfolding read_domain
read_domain_lem host port rest s e pos small =
    let (r1, e1, u1) = read_exact_lem (length host ∷ []) (host ++ (be16 port ++ rest)) s e in
    let (r2, e2, u2) = read_name_lem host port rest (record s { incoming = r1 }) u1 in
    (r2, ground (arith, e1, e2), u2)

-- A target as a client writes it: a host name, four octets or sixteen.
pub data Destination : Type 0 where
  name ipv4 ipv6 : Bytes → Destination

abbrev pub wire : Destination → Bytes
wire (name host) = 0x03 ∷ length host ∷ host
wire (ipv4 addr) = 0x01 ∷ addr
wire (ipv6 addr) = 0x04 ∷ addr

abbrev pub IsWritable : Destination → Type 0
IsWritable (name host) = (0 < length host) × (length host ≤ 253)
IsWritable (ipv4 addr) = length addr ≡ 4
IsWritable (ipv6 addr) = length addr ≡ 16

-- The request that the handler makes of it.
abbrev pub request_for : Destination → ℕ → Request
request_for (name host) port = domain_request host (be16 port)
request_for (ipv4 addr) port = ip_request (v4 addr) (be16 port)
request_for (ipv6 addr) port = ip_request (v6 addr) (be16 port)

-- The type byte of a destination, and what follows it.
abbrev type_byte : Destination → ℕ
type_byte (name host) = 0x03
type_byte (ipv4 addr) = 0x01
type_byte (ipv6 addr) = 0x04

abbrev body : Destination → Bytes
body (name host) = length host ∷ host
body (ipv4 addr) = addr
body (ipv6 addr) = addr

read_address_lem :
    (d : Destination) (port : ℕ) (rest : Bytes) (s : Stream)
    → unread s.incoming ≡ body d ++ (be16 port ++ rest)
    → IsWritable d
    → Takes s rest [] (request_for d port) (read_address (type_byte d) s)
read_address_lem (name host) port rest s e w =
    unfold read_address in read_domain_lem host port rest s e w.0 w.1
read_address_lem (ipv4 addr) port rest s e w = rw w at (read_ip_lem addr port rest s e (inl w))
read_address_lem (ipv6 addr) port rest s e w = rw w at (read_ip_lem addr port rest s e (inr w))

pub read_request_lem :
    (d : Destination) (port reserved : ℕ) (rest : Bytes) (s : Stream)
    → unread s.incoming ≡ 0x05 ∷ 0x01 ∷ reserved ∷ wire d ++ (be16 port ++ rest)
    → IsWritable d
    → Takes s rest [] (request_for d port) (read_request s)
unfolding read_request
read_request_lem d port reserved rest s e w =
    let (r1, e1, u1) =
      read_exact_lem (0x05 ∷ 0x01 ∷ reserved ∷ type_byte d ∷ []) (body d ++ (be16 port ++ rest)) s
        (e ∙ split d) in
    let (r2, e2, u2) = read_address_lem d port rest (record s { incoming = r1 }) u1 w in
    (r2, ground (arith, e1, e2), u2)
  where
    split :
        (d : Destination)
        → 0x05 ∷ 0x01 ∷ reserved ∷ wire d ++ (be16 port ++ rest)
          ≡ 0x05 ∷ 0x01 ∷ reserved ∷ type_byte d ∷ body d ++ (be16 port ++ rest)
    split (name host) = refl
    split (ipv4 addr) = refl
    split (ipv6 addr) = refl

-- A command other than CONNECT is answered by code 7, and ends the connection.
pub read_request_unsupported :
    (cmd reserved atyp : ℕ) (rest : Bytes) (s : Stream)
    → unread s.incoming ≡ (0x05 ∷ cmd ∷ reserved ∷ atyp ∷ []) ++ rest
    → cmd ≢ 0x01
    → s.writable ≡ true
    → (e : Error) × (segs : List Bytes) × (read_request s
        ≡ err e (record s { incoming = segs; sent = s.sent ++ error_reply 0x07 }))
unfolding read_request write_all
read_request_unsupported cmd reserved atyp rest s e other open_ =
    let (r1, e1, u1) = read_exact_lem (0x05 ∷ cmd ∷ reserved ∷ atyp ∷ []) rest s e in
    (message (codes "Unsupported SOCKS5 command: " ++ show_dec cmd), r1, ground (arith, e1))
