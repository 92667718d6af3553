-- ===== src/Server/Socks4/Serves.antt =====
-- The whole SOCKS4 handler on a client that speaks the protocol, and its refusals.
use simple_forwarder.Prelude.{ℕ, ◌<◌, ◌≡◌, ◌≢◌, refl, true, false, List, ◌∷◌, ◌++◌, arith, length}
use simple_forwarder.Text.{Bytes, codes}
use simple_forwarder.Text.Decimal.{show_dec}
use simple_forwarder.Net.Error.{message}
use simple_forwarder.Net.Stream.{Stream, Res, ok, err, hang, write_all, unread}
use simple_forwarder.Net.Stream.Laws.{read_exact_lem, write_all_lem}
use simple_forwarder.Crates.{Crates}
use simple_forwarder.Outside.{Outside}
use simple_forwarder.Server.Replies.{socks4_reply}
use simple_forwarder.Server.Target.{Rules, Target, connect_to_target}
use simple_forwarder.Server.Target.Laws.{Reported, connect_to_target-Reported}
use simple_forwarder.Server.Handshake.{HandshakeResult}
use simple_forwarder.Server.Socks4.Defs.{
  Socks4Request, socks4_request, read_socks4_request, or_reject, serve, handle_socks4,
}
use simple_forwarder.Server.Socks4.Reads.{client_bytes, AreFields, host_of, read_socks4_request_lem}

-- A client that sends a CONNECT command is served the host and port that it named, with SOCKS4a
-- the host name of the second field and otherwise the address; the bytes behind the request, read
-- or not, are kept in order.
pub handle_socks4_lem :
    (c : Crates) (o : Outside) (rules : Rules) (port : ℕ) (ip_bytes user domain rest : Bytes)
    (s : Stream)
    → unread s.incoming ≡ client_bytes port ip_bytes user domain ++ rest
    → port < 65536
    → length ip_bytes ≡ 4
    → AreFields user domain
    → (past : Bytes) × (segs : List Bytes) × (handle_socks4 c o rules s
        ≡ serve c o rules
            (socks4_request ip_bytes port (host_of ip_bytes domain, past))
            (record s { incoming = segs }))
      × (past ++ unread segs ≡ rest)
unfolding handle_socks4
handle_socks4_lem c o rules port ip_bytes user domain rest s e small four f =
    let (past, segs, e1, u1) =
      read_socks4_request_lem port ip_bytes user domain rest s e small four f in
    (past, segs, rw e1, u1)

-- One reply, 0x5A for a connection that was made and 0x5B for one that was not.
abbrev pub Served : Stream → Res HandshakeResult → Type 0
Served s (ok h s') = s' ≡ record s { sent = s.sent ++ socks4_reply 0x5A }
Served s (err e s') = s' ≡ record s { sent = s.sent ++ socks4_reply 0x5B }
Served s (hang s') = ⊥

-- A client whose stream takes what is written gets just one reply, which tells whether the connection was made; no byte of
-- its stream is read.
pub serve_socks4-Served :
    (c : Crates) (o : Outside) (rules : Rules) (r : Socks4Request) (s : Stream)
    → s.writable ≡ true
    → Served s (serve c o rules r s)
unfolding serve or_reject
serve_socks4-Served c o rules r s open_ =
    go (connect_to_target c o rules r.request false s) refl
      (connect_to_target-Reported c o rules r.request false s)
  where
    writes :
        (code : ℕ) (x : Stream)
        → x ≡ s
        → write_all (socks4_reply code) x ≡ ok tt (record s { sent = s.sent ++ socks4_reply code })
    writes code x same = rw same (write_all_lem (socks4_reply code) s open_)

    go :
        (x : Res Target)
        → connect_to_target c o rules r.request false s ≡ x
        → Reported false s x
        → Served s (serve c o rules r s)
    go (ok t s') e same = rw e (rw (writes 0x5A s' same) refl)
    go (err x s') e same = rw e (rw (writes 0x5B s' same) refl)
    go (hang s') e h = absurd h

-- Another command than CONNECT is refused by the reply 0x5B, and nothing is connected.
pub handle_socks4_unsupported :
    (c : Crates) (o : Outside) (rules : Rules) (cmd : ℕ) (header rest : Bytes) (s : Stream)
    → unread s.incoming ≡ (cmd ∷ header) ++ rest
    → length header ≡ 6
    → cmd ≢ 0x01
    → s.writable ≡ true
    → (segs : List Bytes) × (handle_socks4 c o rules s
        ≡ err
            (message (codes "Unsupported SOCKS4 command: " ++ show_dec cmd))
            (record s { incoming = segs; sent = s.sent ++ socks4_reply 0x5B }))
unfolding handle_socks4 read_socks4_request write_all
handle_socks4_unsupported c o rules cmd header rest s e six other open_ =
    let (r1, e1, u1) = read_exact_lem (cmd ∷ header) rest s e in
    let seven : length (cmd ∷ header) ≡ 7 = omega (arith, six) in
    let e2 = rw seven at e1 in (r1, ground (arith, e2))
