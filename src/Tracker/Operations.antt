-- ===== src/Tracker/Operations.antt =====
-- The operations of `ConnectionTracker` (src/connection_tracker.rs) on a table in the order of its ids.
use simple_forwarder.Prelude.{
  ℕ, suc, ◌+◌, ◌%◌, ◌^◌, ◌<◌, ◌≡◌, refl, subst, Bool, true, false, some, List, [], ◌∷◌, ◌++◌, arith,
  ◌==◌, length-keep-le, All, put, is_some, filter_map, map,
}
use simple_forwarder.Text.{Bytes}
use simple_forwarder.Tracker.Defs.{ConnectionInfo}
use simple_forwarder.Tracker.State.{
  Connections, Tracker, max_connections, add_u64, new, evict, fresh_info, register, retain, cleanup,
  snapshot, rows,
}
use simple_forwarder.Tracker.Invariant.{Held, Indexed, IsTracker, Indexed-evict, Indexed-insert}
use simple_forwarder.Tracker.Retained.{Indexed-retain}

-- The empty tracker is well formed: its order and its entries name the same connections.
pub new-IsTracker : IsTracker new
unfolding new
new-IsTracker = record {
  indexed = record { held = tt; listed = λ i h. refl; ascends = tt; under = tt };
  bounded = omega arith;
}

-- `register` keeps the tracker well formed, at most 5000 connections included, as long as the counter
-- of the ids does not wrap around.
pub register-IsTracker :
    (source_ip outbound_target proxy_protocol start_time : Bytes) (t : Tracker)
    → IsTracker t
    → t.next_id + 1 < 2 ^ 64
    → IsTracker (register source_ip outbound_target proxy_protocol start_time t).1
unfolding register fresh_info
register-IsTracker source_ip outbound_target proxy_protocol start_time t w small =
    let id = t.next_id in
    let c = fresh_info id source_ip outbound_target proxy_protocol start_time in
    let kept =
      Indexed-evict max_connections 0 (suc id) (t.order ++ id ∷ []) (put id (some c) t.connections)
        (Indexed-insert id c t.order t.connections w.indexed refl) in
    record {
      indexed =
          subst
            (λ (n : ℕ).
              Indexed 0 n
                (evict max_connections (t.order ++ id ∷ []) (put id (some c) t.connections)).0
                (evict max_connections (t.order ++ id ∷ []) (put id (some c) t.connections)).1)
            (next small) kept.0;
      bounded = kept.1;
    }
  where
    next : t.next_id + 1 < 2 ^ 64 → suc t.next_id ≡ add_u64 t.next_id 1
    next h = omega arith

cleanup-IsTracker : (now : ℕ) (t : Tracker) → IsTracker t → IsTracker (cleanup now t)
unfolding cleanup
cleanup-IsTracker now t w = record {
  indexed = Indexed-retain 0 t.next_id now t.order t.connections w.indexed;
  bounded =
      omega (arith, w.bounded, length-keep-le (λ i. is_some (retain now t.connections i)) t.order);
}

-- `snapshot` keeps the tracker well formed, whether or not the call cleans up.
pub snapshot-IsTracker : (now : ℕ) (t : Tracker) → IsTracker t → IsTracker (snapshot now t).1
unfolding snapshot cleanup
snapshot-IsTracker now t w = go (t.snapshot_count % 5 == 0)
  where
    counted : Tracker
    counted = record t { snapshot_count = add_u64 t.snapshot_count 1 }

    still : IsTracker counted
    still = record { indexed = w.indexed; bounded = w.bounded }

    go :
        (b : Bool)
        → IsTracker
            (elim b as (λ b. List ConnectionInfo × Tracker) [
              | true ↦ (rows (cleanup now t), cleanup now counted)
              | false ↦ (rows t, counted)
            ]).1
    go true = cleanup-IsTracker now counted still
    go false = still

pub rows-ids :
    (m : Connections) (order : List ℕ)
    → All (Held m) order
    → map (λ (c : ConnectionInfo). c.id) (filter_map m order) ≡ order
rows-ids m [] h = refl
rows-ids m (i ∷ is) h = rw (h.0.1, map) (ground (arith, h.0.2, rows-ids m is h.1))

-- `snapshot` returns each connection of the tracker that it leaves behind once, in the order in which
-- they were registered.
pub snapshot-rows :
    (now : ℕ) (t : Tracker)
    → IsTracker t
    → map (λ (c : ConnectionInfo). c.id) (snapshot now t).0 ≡ (snapshot now t).1.order
unfolding snapshot cleanup
snapshot-rows now t w = go (t.snapshot_count % 5 == 0)
  where
    counted : Tracker
    counted = record t { snapshot_count = add_u64 t.snapshot_count 1 }

    after : Bool → List ConnectionInfo × Tracker
    after b = elim b [
      | true ↦ (rows (cleanup now t), cleanup now counted)
      | false ↦ (rows t, counted)
    ]

    go : (b : Bool) → map (λ (c : ConnectionInfo). c.id) (after b).0 ≡ (after b).1.order
    go true =
        rows-ids (retain now t.connections) (cleanup now t).order
          (cleanup-IsTracker now t w).indexed.held
    go false = rows-ids t.connections t.order w.indexed.held
