-- ===== src/Server/Socks4/Defs.antt =====
-- The request of a SOCKS4 client, and what is done with it.
use mathlib.Core.Option
use simple_forwarder.Prelude.{
  ℕ, zero, suc, ◌+◌, ◌-◌, ◌*◌, Bool, true, false, not, ◌&&◌, ◌||◌, Option, none, some, [], ◌++◌,
  ◌==◌, ltb, if◌then◌else◌, is_nil, length, take, drop, get_or, position,
}
use simple_forwarder.Text.{Bytes, codes}
use simple_forwarder.Text.Decimal.{show_dec}
use simple_forwarder.Text.Utf8.{from_utf8_lossy}
use simple_forwarder.Net.Addr.{v4, show_ip}
use simple_forwarder.Net.Error.{message}
use simple_forwarder.Net.Stream.{
  Res, ok, err, hang, M, bind, ◌>>=◌, ◌>>◌, pure, fail, ignore, read, read_exact, unread,
}
use simple_forwarder.Crates.{Crates}
use simple_forwarder.Outside.{Outside}
use simple_forwarder.Tracker.Defs.{socks4, socks4a}
use simple_forwarder.Server.Replies.{send_socks4_reply}
use simple_forwarder.Server.Target.{Rules, Target, Request, connect_to_target}
use simple_forwarder.Server.Handshake.{HandshakeResult, handshake_result}

-- `user_id_end` and `domain_end`: where the terminators stand, once they have come.
pub record Ends : Type 0 where
  pub user_id_end : Option ℕ
  pub domain_end : Option ℕ

unfoldable pub scan_user_id : Option ℕ → Bytes → Option ℕ
scan_user_id none buf = position 0 buf
scan_user_id (some p) buf = some p

unfoldable pub scan_domain : Bool → Option ℕ → Option ℕ → Bytes → Option ℕ
scan_domain true (some u_end) none buf =
    Option.map (λ pos. u_end + 1 + pos) (position 0 (drop (u_end + 1) buf))
scan_domain true (some u_end) (some d) buf = some d
scan_domain true none d buf = d
scan_domain false u d buf = d

unfoldable pub scan : Bool → Ends → Bytes → Ends
unfolding scan_user_id scan_domain
scan is_socks4a e buf =
    let u = scan_user_id e.user_id_end buf in
    record { user_id_end = u; domain_end = scan_domain is_socks4a u e.domain_end buf }

abbrev pub is_some : Option ℕ → Bool
is_some none = false
is_some (some n) = true

abbrev pub is_complete : Bool → Ends → Bool
is_complete is_socks4a e = is_some e.user_id_end && (not is_socks4a || is_some e.domain_end)

-- The loop that reads the user id and the domain, on fuel: each round but the last reads a byte.
unfoldable pub field_loop : Bool → ℕ → Ends → Bytes → M (Ends × Bytes)
field_loop is_socks4a zero e buf s = hang s
field_loop is_socks4a (suc fuel) e buf s =
    let e' = scan is_socks4a e buf in
    elim (is_complete is_socks4a e') [
      | true ↦ ok (e', buf) s
      | false ↦ elim (ltb 1024 (length buf)) [
        | true ↦ err (message (codes "SOCKS4 handshake data too long")) s
        | false ↦ bind (read 256 s) λ b s'. elim (is_nil b) [
          | true ↦ err (message (codes "Connection closed during SOCKS4 handshake")) s'
          | false ↦ field_loop is_socks4a fuel e' (buf ++ b) s'
        ]
      ]
    ]

abbrev pub no_ends : Ends
no_ends = record { user_id_end = none; domain_end = none }

abbrev pub read_fields : Bool → M (Ends × Bytes)
read_fields is_socks4a s = field_loop is_socks4a (suc (length (unread s.incoming))) no_ends [] s

-- The host and the bytes that follow it, from the text behind the user id.
unfoldable pub split_host : Bool → Bytes → Option ℕ → ℕ → Bytes → M (Bytes × Bytes)
split_host false ip_bytes d u_end buf = pure (show_ip (v4 ip_bytes), buf)
split_host true ip_bytes none u_end buf =
    fail (message (codes "SOCKS4a: missing domain name terminator"))
split_host true ip_bytes (some d_end) u_end buf =
    let domain_len = d_end - (u_end + 1) in
    if ltb 253 domain_len
    then fail (
        message
          (codes "SOCKS4a: domain name too long (" ++ (show_dec domain_len ++ codes " bytes)")))
    else pure (from_utf8_lossy (take domain_len buf), drop (domain_len + 1) buf)

unfoldable pub split_fields : Bool → Bytes → Ends → Bytes → M (Bytes × Bytes)
unfolding split_host
split_fields is_socks4a ip_bytes e buf = elim e.user_id_end [
  | none ↦ fail (message (codes "SOCKS4: missing User ID terminator"))
  | some u_end ↦
      if ltb 255 u_end
      then fail
          (message (codes "SOCKS4: User ID too long (" ++ (show_dec u_end ++ codes " bytes)")))
      else split_host is_socks4a ip_bytes e.domain_end u_end (drop (u_end + 1) buf)
]

-- 0.0.0.x with x not 0
abbrev pub names_host : Bytes → Bool
names_host ip_bytes =
    get_or ip_bytes 0 0 == 0
    && (get_or ip_bytes 1 0 == 0 && (get_or ip_bytes 2 0 == 0 && not (get_or ip_bytes 3 0 == 0)))

-- A request, and the bytes that were read past it.
pub record Socks4Request : Type 0 where
  pub request : Request
  pub is_socks4a : Bool
  pub leftover : Bytes

abbrev pub socks4_request : Bytes → ℕ → Bytes × Bytes → Socks4Request
socks4_request ip_bytes port (host, leftover) = record {
  request = record {
    host = host;
    port = port;
    resolve_hostname = names_host ip_bytes;
    ip = if names_host ip_bytes then none else some (v4 ip_bytes);
  };
  is_socks4a = names_host ip_bytes;
  leftover = leftover;
}

unfoldable pub read_host : Bytes → M (Bytes × Bytes)
unfolding split_fields
read_host ip_bytes = do
  (e, buf) ← read_fields (names_host ip_bytes)
  split_fields (names_host ip_bytes) ip_bytes e buf

abbrev pub unsupported : ℕ → M Socks4Request
unsupported cmd =
    send_socks4_reply 0x5B >> fail (message (codes "Unsupported SOCKS4 command: " ++ show_dec cmd))

-- Behind the command: the port, the address, the user id and the host.
unfoldable pub read_target : Bytes → M Socks4Request
unfolding read_host
read_target header = do
  let ip_bytes = drop 3 header
  host ← read_host ip_bytes
  pure (socks4_request ip_bytes (get_or header 1 0 * 256 + get_or header 2 0) host)

unfoldable pub read_socks4_request : M Socks4Request
unfolding read_target
read_socks4_request = do
  header ← read_exact 7
  let cmd = get_or header 0 0
  if cmd == 0x01 then read_target header else unsupported cmd

-- A failure to connect is told to the client, whatever becomes of the reply.
unfoldable pub or_reject : Res Target → Res Target
or_reject (ok t s) = ok t s
or_reject (err e s) = bind (ignore (send_socks4_reply 0x5B s)) (λ u s'. err e s')
or_reject (hang s) = hang s

-- Behind the request: the connection and the reply.
unfoldable pub serve : Crates → Outside → Rules → Socks4Request → M HandshakeResult
unfolding or_reject
serve c o rules r = do
  target ← λ s. or_reject (connect_to_target c o rules r.request false s)
  send_socks4_reply 0x5A
  pure (handshake_result r.request (if r.is_socks4a then socks4a else socks4) r.leftover target)

unfoldable pub handle_socks4 : Crates → Outside → Rules → M HandshakeResult
unfolding read_socks4_request serve
handle_socks4 c o rules = do r ← read_socks4_request; serve c o rules r
