-- ===== src/Server/Connection/Failures.antt =====
-- What is left of a client whose handshake fails.
use simple_forwarder.Prelude.{ℕ, ◌≡◌, refl, subst, Option, none, some, ==_refl}
use simple_forwarder.Text.{Bytes, codes}
use simple_forwarder.Net.Addr.{SocketAddr, show_socket_addr}
use simple_forwarder.Net.Error.{Error, message, error_text}
use simple_forwarder.Net.Stream.{Stream}
use simple_forwarder.Outcome.{Outcome, failed}
use simple_forwarder.Crates.{Crates}
use simple_forwarder.Outside.{Outside}
use simple_forwarder.Tracker.Defs.{ConnectionInfo, error}
use simple_forwarder.Tracker.State.{Tracker, modify, register, set_error, fresh_info}
use simple_forwarder.Tracker.Invariant.{IsTracker}
use simple_forwarder.Tracker.Register.{register-fresh}
use simple_forwarder.Resolver.Defs.{consult, unknown}
use simple_forwarder.Resolver.Lookup.{consult-remove}
use simple_forwarder.Server.Target.{Rules}
use simple_forwarder.Server.Connection.Defs.{
  Shared, Shaken, agreed, refused, expired, timed, shake_hands, give_up, Circumstances, conclude,
  late_handshake, handle_connection,
}

set_error-same :
    (now id : ℕ) (text : Bytes) (t : Tracker) (c : ConnectionInfo)
    → t.connections id ≡ some c
    → (set_error now id text t).connections id
      ≡ some (record c { status = error text; closed_at = some now })
unfolding set_error modify
set_error-same now id text t c e = rw (e, modify) (rw (==_refl id) refl)

-- The error that a handshake ends with, if it does.
abbrev pub failure : Shaken → Option Error
failure (agreed hr s) = none
failure (refused e) = some e
failure expired = some (message late_handshake)

-- If the handshake fails or is late, the handler returns that error, the client's entry in the table
-- shows the error and the instant, and its port is unknown to the resolver again.
pub handle_connection-failure :
    (c : Crates) (o : Outside) (rules : Rules) (k : Circumstances) (peer_addr : SocketAddr)
    (s : Stream) (w : Shared) (e : Error)
    → IsTracker w.tracker
    → failure (timed k.in_time (shake_hands c o rules s)) ≡ some e
    → ((handle_connection c o rules k peer_addr s w).0 ≡ some (failed e))
      × ((handle_connection c o rules k peer_addr s w).1.tracker.connections w.tracker.next_id
          ≡ some
              (record (fresh_info w.tracker.next_id
                (show_socket_addr peer_addr)
                (codes "resolving...")
                (codes "detecting...")
                k.local_time) { status = error (error_text e); closed_at = some k.now }))
      × (consult peer_addr.port (handle_connection c o rules k peer_addr s w).1.resolver ≡ unknown)
unfolding handle_connection conclude give_up
handle_connection-failure c o rules k peer_addr s w e h f =
    go (timed k.in_time (shake_hands c o rules s)) f
  where
    t' : Tracker
    t' =
        (register (show_socket_addr peer_addr) (codes "resolving...") (codes "detecting...")
          k.local_time w.tracker).1

    info : ConnectionInfo
    info =
        fresh_info w.tracker.next_id (show_socket_addr peer_addr) (codes "resolving...")
          (codes "detecting...") k.local_time

    there : t'.connections w.tracker.next_id ≡ some info
    there =
        (register-fresh (show_socket_addr peer_addr) (codes "resolving...") (codes "detecting...")
          k.local_time w.tracker h).2

    id_is :
        (register
          (show_socket_addr peer_addr)
          (codes "resolving...")
          (codes "detecting...")
          k.local_time
          w.tracker).0
        ≡ w.tracker.next_id
    id_is = unfold register in refl

    LeftBy : Error → Option (Outcome (Unit {0})) × Shared → Type 0
    LeftBy e r =
        (r.0 ≡ some (failed e))
        × (r.1.tracker.connections w.tracker.next_id
            ≡ some (record info { status = error (error_text e); closed_at = some k.now }))
        × (consult peer_addr.port r.1.resolver ≡ unknown)

    end : Shaken → Option (Outcome (Unit {0})) × Shared
    end x = conclude k w.tracker.next_id peer_addr.port x (record w { tracker = t' })

    marked :
        (e : Error)
        → (set_error k.now w.tracker.next_id (error_text e) t').connections w.tracker.next_id
          ≡ some (record info { status = error (error_text e); closed_at = some k.now })
    marked e = set_error-same k.now w.tracker.next_id (error_text e) t' info there

    go : (x : Shaken) → failure x ≡ some e → LeftBy e (end x)
    go (agreed hr s') g = absurd cc
    go (refused e') g =
        let same : e' ≡ e = cc in
        subst (λ (e : Error). LeftBy e (end (refused e'))) same
          (refl, marked e', consult-remove peer_addr.port w.resolver)
    go expired g =
        let same : message late_handshake ≡ e = cc in
        subst (λ (e : Error). LeftBy e (end expired)) same
          (refl, marked (message late_handshake), consult-remove peer_addr.port w.resolver)
