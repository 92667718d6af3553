-- ===== src/Server/Socks5/Serves.antt =====
-- The whole SOCKS5 handler on a client that speaks the protocol, and on one that offers no method.
use simple_forwarder.Prelude.{
  ℕ, ◌≤◌, ◌<◌, ◌≡◌, refl, ap, ◌∙◌, true, false, List, [], ◌∷◌, ◌++◌, arith, append-nil,
  append_assoc, length,
}
use simple_forwarder.Text.{Bytes, codes, contains}
use simple_forwarder.Net.Error.{Error, message}
use simple_forwarder.Net.Stream.{Stream, Res, ok, err, hang, write_all, unread}
use simple_forwarder.Net.Stream.Laws.{read_exact_lem, write_all_lem}
use simple_forwarder.Crates.{Crates}
use simple_forwarder.Outside.{Outside}
use simple_forwarder.Client.Socks5.{be16}
use simple_forwarder.Server.Replies.{error_reply, success_reply}
use simple_forwarder.Server.Target.{Rules, Target, Request, connect_to_target}
use simple_forwarder.Server.Target.Laws.{IsFailureCode, Reported, connect_to_target-Reported}
use simple_forwarder.Server.Handshake.{HandshakeResult}
use simple_forwarder.Server.Socks5.Defs.{negotiate, serve, handle_socks5}
use simple_forwarder.Server.Socks5.Reads.{
  Destination, wire, IsWritable, request_for, negotiate_lem, read_request_lem,
}

-- The bytes of a client that offers these methods and asks for this destination.
abbrev pub client_bytes : Bytes → Destination → ℕ → Bytes
client_bytes methods d port =
    (length methods ∷ methods) ++ (0x05 ∷ 0x01 ∷ 0x00 ∷ wire d ++ be16 port)

-- A client that offers no authentication and asks for a destination is served that destination:
-- the method 0 is selected, the connection is made for just that host and port, and every byte
-- behind the request is left on the stream.
pub handle_socks5_lem :
    (c : Crates) (o : Outside) (rules : Rules) (methods : Bytes) (d : Destination) (port : ℕ)
    (rest : Bytes) (s : Stream)
    → unread s.incoming ≡ client_bytes methods d port ++ rest
    → length methods ≤ 255
    → contains methods 0x00 ≡ true
    → IsWritable d
    → s.writable ≡ true
    → (segs : List Bytes) × (handle_socks5 c o rules s
        ≡ serve c o rules
            (request_for d port)
            (record s { incoming = segs; sent = s.sent ++ (0x05 ∷ 0x00 ∷ []) }))
      × (unread segs ≡ rest)
unfolding handle_socks5
handle_socks5_lem c o rules methods d port rest s e small offers w open_ =
    let (r1, e1, u1) =
      negotiate_lem methods (0x05 ∷ 0x01 ∷ 0x00 ∷ wire d ++ (be16 port ++ rest)) s (e ∙ regroup)
        (pos methods offers) small offers open_ in
    let (r2, e2, u2) =
      read_request_lem d port 0x00 rest
        (record s { incoming = r1; sent = s.sent ++ (0x05 ∷ 0x00 ∷ []) }) u1 w in
    (r2, ground (arith, e1, e2, append-nil (s.sent ++ (0x05 ∷ 0x00 ∷ []))), u2)
  where
    regroup :
        client_bytes methods d port ++ rest
        ≡ (length methods ∷ methods) ++ (0x05 ∷ 0x01 ∷ 0x00 ∷ wire d ++ (be16 port ++ rest))
    regroup = simp append_assoc

    pos : (m : Bytes) → contains m 0x00 ≡ true → 0 < length m
    pos [] h = cc
    pos (x ∷ m) h = omega arith

-- A connection that is made is confirmed by one success reply; one that fails is reported by one
-- error reply. Nothing else is sent, and no byte is read.
abbrev pub Served : Stream → Res HandshakeResult → Type 0
Served s (ok h s') = s' ≡ record s { sent = s.sent ++ success_reply s.local_addr }
Served s (err e s') =
    (code : ℕ) × (s' ≡ record s { sent = s.sent ++ error_reply code }) × IsFailureCode code
Served s (hang s') = ⊥

-- A client whose stream takes what is written gets just one reply: the success reply if the connection
-- was made, and otherwise an error reply of code 1, 4, 5 or 6. No byte of its stream is read.
pub serve_socks5-Served :
    (c : Crates) (o : Outside) (rules : Rules) (r : Request) (s : Stream)
    → s.writable ≡ true
    → Served s (serve c o rules r s)
unfolding serve
serve_socks5-Served c o rules r s open_ =
    go (connect_to_target c o rules r true s) refl (connect_to_target-Reported c o rules r true s)
  where
    go :
        (x : Res Target)
        → connect_to_target c o rules r true s ≡ x
        → Reported true s x
        → Served s (serve c o rules r s)
    go (ok t s') e same =
        let open' : s'.writable ≡ true = ap (λ (x : Stream). x.writable) same ∙ open_ in
        rw e (
          rw (write_all_lem (success_reply s'.local_addr) s' open')
            (ap (λ (x : Stream). record x { sent = x.sent ++ success_reply x.local_addr }) same))
    go (err x s') e (code, told, known) = rw e (code, told ∙ simp open_, known)
    go (hang s') e h = absurd h

-- A client that does not offer method 0 is told so by the reply 5, 255, and refused.
pub handle_socks5_no_method :
    (c : Crates) (o : Outside) (rules : Rules) (methods rest : Bytes) (s : Stream)
    → unread s.incoming ≡ (length methods ∷ methods) ++ rest
    → 0 < length methods
    → length methods ≤ 255
    → contains methods 0x00 ≡ false
    → s.writable ≡ true
    → (e : Error) × (segs : List Bytes) × (handle_socks5 c o rules s
        ≡ err e (record s { incoming = segs; sent = s.sent ++ (0x05 ∷ 0xFF ∷ []) }))
unfolding handle_socks5 negotiate write_all
handle_socks5_no_method c o rules methods rest s e pos small offers open_ =
    let (r1, e1, u1) = read_exact_lem (length methods ∷ []) (methods ++ rest) s e in
    let (r2, e2, u2) = read_exact_lem methods rest (record s { incoming = r1 }) u1 in
    (message (codes "No acceptable authentication method"), r2, ground (arith, e1, e2))
