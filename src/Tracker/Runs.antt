-- ===== src/Tracker/Runs.antt =====
-- A whole `register` on a table in the order of its ids (src/connection_tracker.rs).
use simple_forwarder.Prelude.{ℕ, ◌≡◌, ◌≢◌, none, some}
use simple_forwarder.Text.{Bytes}
use simple_forwarder.Tracker.State.{Tracker, register, fresh_info, max_connections}
use simple_forwarder.Tracker.Invariant.{IsTracker}
use simple_forwarder.Tracker.Register.{Spared, register-fresh, register-others}

-- A new connection gets an id that no entry of the tracker has, and its entry is in the tracker
-- afterwards, full or not. Every other connection is left as it was, but for the oldest of 5000.
pub register_lem :
    (source_ip outbound_target proxy_protocol start_time : Bytes) (t : Tracker) (j : ℕ)
    → IsTracker t
    → j ≢ t.next_id
    → Spared max_connections t.order j
    → (t.connections t.next_id ≡ none)
      × ((register source_ip outbound_target proxy_protocol start_time t).0 ≡ t.next_id)
      × ((register source_ip outbound_target proxy_protocol start_time t).1.connections t.next_id
          ≡ some (fresh_info t.next_id source_ip outbound_target proxy_protocol start_time))
      × ((register source_ip outbound_target proxy_protocol start_time t).1.connections j
          ≡ t.connections j)
register_lem source_ip outbound_target proxy_protocol start_time t j w other spared =
    let (gone, id_is, there) =
      register-fresh source_ip outbound_target proxy_protocol start_time t w in
    (
      gone,
      id_is,
      there,
      register-others source_ip outbound_target proxy_protocol start_time t w j other spared,
    )
