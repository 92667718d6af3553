-- ===== src/Server/Relay/Sums.antt =====
-- The counters of a relay over every sequence of events.
use simple_forwarder.Prelude.{ℕ, ◌^◌, ◌<◌, refl, Bool, List, [], ◌∷◌, arith}
use simple_forwarder.Text.{Bytes}
use simple_forwarder.Stats.{TrafficStats}
use simple_forwarder.Tracker.State.{Tracker}
use simple_forwarder.Server.Relay.Defs.{
  Direction, to_target, to_client, Event, Relay, copy_of, step, run, start,
}
use simple_forwarder.Server.Relay.Accounts.{connection_count, total_count, Counts, Accounts}
use simple_forwarder.Server.Relay.Totals.{step-Accounts}
use simple_forwarder.Server.Relay.Settled.{Settled, run-Settled}

module _ (id : ℕ) (direct : Bool) (t0 : Tracker) (s0 : TrafficStats) where
  run-Accounts :
      (events : List (ℕ × Event)) (r : Relay)
      → Accounts id direct t0 s0 r
      → Accounts id direct t0 s0 (run events r)
  unfolding run
  run-Accounts [] r a = a
  run-Accounts ((now, e) ∷ events) r a =
      run-Accounts events (step now e r) (step-Accounts id direct t0 s0 now e r a)

-- The counters lie within 64 bits, as they do in the program.
abbrev pub Fits : ℕ → Bool → Tracker → TrafficStats → Type 0
Fits id direct t s =
    (d : Direction) → (connection_count d id t < 2 ^ 64) × (total_count d direct s < 2 ^ 64)

-- Whatever the order of events, in every state of the relay, failed or closed too: in each direction the
-- counter of the connection and the total of direct or of proxied traffic, as the connection is, have
-- grown by the number of bytes that have gone out, up to the wrap-around at 2 ^ 64, but for those of one
-- write that is under way or was cut off; with no bytes of a write left, every byte is counted.
pub run-start-Accounts :
    (is_direct : Bool) (conn_id : ℕ) (leftover target_leftover : Bytes) (stats : TrafficStats)
    (tracker : Tracker) (events : List (ℕ × Event))
    → Fits conn_id is_direct tracker stats
    → Accounts conn_id is_direct tracker stats
        (run events (start is_direct conn_id leftover target_leftover stats tracker))
      × Settled (run events (start is_direct conn_id leftover target_leftover stats tracker))
unfolding start
run-start-Accounts is_direct conn_id leftover target_leftover stats tracker events fits = (
  run-Accounts conn_id is_direct tracker stats events
      (start is_direct conn_id leftover target_leftover stats tracker)
      (record { same_id = refl; same_way = refl; counts = begins }),
  run-Settled events (start is_direct conn_id leftover target_leftover stats tracker) settled,
)
  where
    begins :
        (d : Direction)
        → Counts conn_id is_direct tracker stats d tracker stats
            (copy_of d (start is_direct conn_id leftover target_leftover stats tracker))
    begins to_target = record {
      counted = 0;
      all_out = refl;
      of_connection = omega (arith, (fits to_target).0);
      of_total = omega (arith, (fits to_target).1);
    }
    begins to_client = record {
      counted = 0;
      all_out = refl;
      of_connection = omega (arith, (fits to_client).0);
      of_total = omega (arith, (fits to_client).1);
    }

    settled : Settled (start is_direct conn_id leftover target_leftover stats tracker)
    settled to_target e = refl
    settled to_client e = refl
