-- ===== src/Server/Relay/Runs.antt =====
-- The delivery of a whole relay, over every sequence of events.
use simple_forwarder.Prelude.{ℕ, sym, Bool, List, [], ◌∷◌, append-nil}
use simple_forwarder.Text.{Bytes}
use simple_forwarder.Stats.{TrafficStats}
use simple_forwarder.Tracker.State.{Tracker}
use simple_forwarder.Server.Relay.Defs.{
  Direction, to_target, to_client, Event, Relay, step, run, start,
}
use simple_forwarder.Server.Relay.Delivery.{Delivers}
use simple_forwarder.Server.Relay.Steps.{step-Delivers}

run-Delivers :
    (leftover : Direction → Bytes) (events : List (ℕ × Event)) (r : Relay)
    → Delivers leftover r
    → Delivers leftover (run events r)
unfolding run
run-Delivers leftover [] r k = k
run-Delivers leftover ((now, e) ∷ events) r k =
    run-Delivers leftover events (step now e r) (step-Delivers leftover now e r k)

abbrev pub both : Bytes → Bytes → Direction → Bytes
both leftover target_leftover to_target = leftover
both leftover target_leftover to_client = target_leftover

-- Whatever the order of reads, partial writes, failures, time-outs and the end of the linger time: in each
-- direction, what has gone out and then what is left of the write under way are the leftover of the
-- handshake and the bytes read since, nothing lost, repeated or moved. A direction that has ended by
-- itself has nothing left: only a failure, or the linger time that ends during a write, cuts bytes off.
pub run-start-Delivers :
    (is_direct : Bool) (conn_id : ℕ) (leftover target_leftover : Bytes) (stats : TrafficStats)
    (tracker : Tracker) (events : List (ℕ × Event))
    → Delivers
        (both leftover target_leftover)
        (run events (start is_direct conn_id leftover target_leftover stats tracker))
unfolding start
run-start-Delivers is_direct conn_id leftover target_leftover stats tracker events =
    run-Delivers (both leftover target_leftover) events
      (start is_direct conn_id leftover target_leftover stats tracker) begins
  where
    begins :
        Delivers
          (both leftover target_leftover)
          (start is_direct conn_id leftover target_leftover stats tracker)
    begins to_target = record { whole = sym (append-nil leftover); drained = λ x no. absurd cc }
    begins to_client = record {
      whole = sym (append-nil target_leftover);
      drained = λ x no. absurd cc;
    }
