-- ===== src/Server/Connection/Defs.antt =====
-- The whole handler. The table of connections, the caches and the counters are those of all clients.
use simple_forwarder.Prelude.{
  ℕ, Bool, true, false, Option, none, some, List, ◌∷◌, ◌++◌, ◌==◌, if◌then◌else◌, get_or,
}
use simple_forwarder.Text.{Bytes, codes}
use simple_forwarder.Text.Decimal.{show_dec}
use simple_forwarder.Net.Addr.{SocketAddr, show_socket_addr}
use simple_forwarder.Net.Error.{Error, message, error_text}
use simple_forwarder.Net.Stream.{Stream, Res, ok, err, hang, M, ◌>>=◌, read_exact}
use simple_forwarder.Outcome.{Outcome, done, failed}
use simple_forwarder.Crates.{Crates}
use simple_forwarder.Outside.{Outside}
use simple_forwarder.Stats.{TrafficStats}
use simple_forwarder.Tracker.Defs.{show_protocol}
use simple_forwarder.Tracker.State.{
  Tracker, register, set_proxy_protocol, set_outbound_target, set_proxy, set_connected, set_error,
}
use simple_forwarder.Resolver.Defs.{ExeResolver, remove}
use simple_forwarder.Server.Target.{Rules}
use simple_forwarder.Server.Handshake.{HandshakeResult}
use simple_forwarder.Server.Socks4.Defs.{handle_socks4}
use simple_forwarder.Server.Socks5.Defs.{handle_socks5}
use simple_forwarder.Server.Http.Defs.{handle_http}
use simple_forwarder.Server.Relay.Defs as Relays

pub record Shared : Type 0 where
  pub tracker : Tracker
  pub resolver : ExeResolver
  pub stats : TrafficStats

-- The first byte tells the protocol.
unfoldable pub dispatch : ℕ → Crates → Outside → Rules → M HandshakeResult
unfolding handle_socks5 handle_socks4 handle_http
dispatch fb c o rules =
    if fb == 0x05
    then handle_socks5 c o rules
    else if fb == 0x04
    then handle_socks4 c o rules
    else handle_http fb c o rules

unfoldable pub shake_hands : Crates → Outside → Rules → M HandshakeResult
unfolding dispatch
shake_hands c o rules = read_exact 1 >>= λ first_byte. dispatch (get_or first_byte 0 0) c o rules

-- `timeout(HANDSHAKE_TIMEOUT, …)`: a handshake that waits for a byte that never comes runs into it, and
-- any other does if it takes too long.
pub data Shaken : Type 0 where
  agreed : HandshakeResult → Stream → Shaken
  refused : Error → Shaken
  expired : Shaken

unfoldable pub timed : Bool → Res HandshakeResult → Shaken
timed true (ok hr s) = agreed hr s
timed true (err e s) = refused e
timed true (hang s) = expired
timed false r = expired

-- A connection that was registered under the id is agreed on.
unfoldable pub confirm : ℕ → HandshakeResult → Tracker → Tracker
unfolding set_connected set_proxy set_outbound_target set_proxy_protocol
confirm conn_id hr t = set_connected conn_id (
    set_proxy conn_id hr.proxy_desc (
      set_outbound_target conn_id (hr.host ++ b':' ∷ show_dec hr.port)
        (set_proxy_protocol conn_id (show_protocol hr.protocol) t)))

abbrev pub late_handshake : Bytes
late_handshake = codes "Handshake timed out"

-- A handshake that fails.
unfoldable pub give_up : ℕ → ℕ → ℕ → Error → Shared → Shared
unfolding set_error remove
give_up now conn_id port e w = record w {
  tracker = set_error now conn_id (error_text e) w.tracker;
  resolver = remove port w.resolver;
}

-- The relay has ended, or is still running.
unfoldable pub after_relay : ℕ → Relays.Relay → Shared → Option (Outcome (Unit {0})) × Shared
unfolding remove
after_relay port r w = elim r.progress [
  | Relays.running ↦ (none, record w { tracker = r.tracker; stats = r.stats })
  | Relays.closed ↦ (
    some (done tt),
    record w { tracker = r.tracker; stats = r.stats; resolver = remove port w.resolver },
  )
  | Relays.failed e ↦ (
    some (failed e),
    record w { tracker = r.tracker; stats = r.stats; resolver = remove port w.resolver },
  )
]

-- What the handler gets: the instant and the local time, whether the handshake is in time, and the events
-- of the relay.
pub record Circumstances : Type 0 where
  pub now : ℕ
  pub local_time : Bytes
  pub in_time : Bool
  pub events : List (ℕ × Relays.Event)

unfoldable pub conclude :
    Circumstances → ℕ → ℕ → Shaken → Shared → Option (Outcome (Unit {0})) × Shared
unfolding confirm give_up after_relay Relays.run Relays.start
conclude k conn_id port (agreed hr s) w =
    after_relay port
      (Relays.run k.events (
        Relays.start hr.is_direct conn_id hr.leftover hr.target_leftover w.stats
          (confirm conn_id hr w.tracker)))
      w
conclude k conn_id port (refused e) w = (some (failed e), give_up k.now conn_id port e w)
conclude k conn_id port expired w =
    (some (failed (message late_handshake)), give_up k.now conn_id port (message late_handshake) w)

unfoldable pub handle_connection :
    Crates
    → Outside
    → Rules
    → Circumstances
    → SocketAddr
    → Stream
    → Shared
    → Option (Outcome (Unit {0})) × Shared
unfolding register timed shake_hands conclude
handle_connection c o rules k peer_addr s w =
    let (conn_id, tracker) =
      register (show_socket_addr peer_addr) (codes "resolving...") (codes "detecting...")
        k.local_time w.tracker in
    conclude k conn_id peer_addr.port (timed k.in_time (shake_hands c o rules s))
      (record w { tracker = tracker })
