-- ===== src/Tracker/Overlap.antt =====
-- The tracker under calls that overlap (src/connection_tracker.rs): `register` draws its id before it takes
-- the lock, so that other calls come between, and ids are inserted in any order.
use simple_forwarder.Prelude.{
  ℕ, suc, ◌+◌, ◌≤◌, ◌<◌, ◌^◌, ◌%◌, ◌==◌, ◌≡◌, refl, subst, some, true, false, Bool, List, [], ◌∷◌,
  ◌++◌, arith, length, length-keep-le, is_some, put, if◌then◌else◌, Option-cases, inl, inr,
}
use simple_forwarder.Text.{Bytes, contains}
use simple_forwarder.Tracker.Defs.{ConnectionInfo}
use simple_forwarder.Tracker.State.{
  Tracker, modify, evict, draw_id, insert_info, fresh_info, set_exe_name, set_proxy,
  set_outbound_target, set_proxy_protocol, set_connected, set_closed, set_error, snapshot, cleanup,
  retain, max_connections, add_u64, rows,
}
use simple_forwarder.Tracker.Distinct.{IsTable, IsTable-evict}
use simple_forwarder.Tracker.Tables.{
  without, IsTable-draw, IsTable-insert, IsTable-update, IsTable-retain,
}

-- The tracker, and the ids that calls of `register` have drawn and not inserted.
pub record Shared : Type 0 where
  pub tracker : Tracker
  pub drawn : List ℕ

-- The steps of the tracker's methods, with their arguments, and the instant where a method reads it.
pub data Operation : Type 0 where
  draws : Operation
  inserts : ℕ → Bytes → Bytes → Bytes → Bytes → Operation
  sets_exe_name sets_proxy sets_outbound_target sets_proxy_protocol : ℕ → Bytes → Operation
  sets_connected : ℕ → Operation
  sets_closed : ℕ → ℕ → Operation
  sets_error : ℕ → ℕ → Bytes → Operation
  takes_snapshot : ℕ → Operation

abbrev with_tracker : Shared → Tracker → Shared
with_tracker s t = record s { tracker = t }

unfoldable pub perform : Operation → Shared → Shared
unfolding set_exe_name set_proxy set_outbound_target set_proxy_protocol set_connected set_closed
    set_error snapshot evict fresh_info
perform draws s = let (id, t) = draw_id s.tracker in record { tracker = t; drawn = id ∷ s.drawn }
perform (inserts id a b c d) s =
    if contains s.drawn id
    then record { tracker = insert_info id a b c d s.tracker; drawn = without id s.drawn }
    else s
perform (sets_exe_name id v) s = with_tracker s (set_exe_name id v s.tracker)
perform (sets_proxy id v) s = with_tracker s (set_proxy id v s.tracker)
perform (sets_outbound_target id v) s = with_tracker s (set_outbound_target id v s.tracker)
perform (sets_proxy_protocol id v) s = with_tracker s (set_proxy_protocol id v s.tracker)
perform (sets_connected id) s = with_tracker s (set_connected id s.tracker)
perform (sets_closed now id) s = with_tracker s (set_closed now id s.tracker)
perform (sets_error now id v) s = with_tracker s (set_error now id v s.tracker)
perform (takes_snapshot now) s = with_tracker s (snapshot now s.tracker).1

unfoldable pub perform_all : List Operation → Shared → Shared
unfolding perform
perform_all [] s = s
perform_all (o ∷ os) s = perform_all os (perform o s)

-- The order and the entries name the same connections, each once, all of them and those that have been
-- drawn below the next id, and there are at most 5000.
pub record IsShared (s : Shared) : Type 0 where
  pub table : IsTable s.tracker.next_id s.drawn s.tracker.order s.tracker.connections
  pub bounded : length s.tracker.order ≤ max_connections

modify-IsShared :
    (id : ℕ) (f : ConnectionInfo → ConnectionInfo) (s : Shared)
    → ((c : ConnectionInfo) → (f c).id ≡ c.id)
    → IsShared s
    → IsShared (with_tracker s (modify id f s.tracker))
unfolding modify
modify-IsShared id f s same w = elim (Option-cases (s.tracker.connections id)) [
  | inl gone ↦ rw (gone, modify) w
  | inr (c, there) ↦
      rw (there, modify)
        (record {
          table =
              IsTable-update s.tracker.next_id id c (f c) s.drawn s.tracker.order
                s.tracker.connections w.table there (same c);
          bounded = w.bounded;
        })
]

snapshot-IsShared :
    (now : ℕ) (s : Shared) → IsShared s → IsShared (with_tracker s (snapshot now s.tracker).1)
unfolding snapshot cleanup
snapshot-IsShared now s w = go (s.tracker.snapshot_count % 5 == 0)
  where
    t : Tracker
    t = s.tracker

    counted : Tracker
    counted = record t { snapshot_count = add_u64 t.snapshot_count 1 }

    go :
        (b : Bool)
        → IsShared (
            with_tracker s
              (elim b as (λ b. List ConnectionInfo × Tracker) [
                | true ↦ (rows (cleanup now t), cleanup now counted)
                | false ↦ (rows t, counted)
              ]).1)
    go true = record {
      table = IsTable-retain t.next_id now s.drawn t.order t.connections w.table;
      bounded =
          omega
            (arith, w.bounded, length-keep-le (λ i. is_some (retain now t.connections i)) t.order);
    }
    go false = record { table = w.table; bounded = w.bounded }

draws-IsShared :
    (s : Shared) → s.tracker.next_id + 1 < 2 ^ 64 → IsShared s → IsShared (perform draws s)
unfolding perform
draws-IsShared s small w =
    let next : suc s.tracker.next_id ≡ add_u64 s.tracker.next_id 1 = omega arith in
    record {
      table =
          subst
            (λ (n : ℕ).
              IsTable n (s.tracker.next_id ∷ s.drawn) s.tracker.order s.tracker.connections)
            next
            (IsTable-draw s.tracker.next_id s.drawn s.tracker.order s.tracker.connections w.table);
      bounded = w.bounded;
    }

inserts-IsShared :
    (id : ℕ) (a b c d : Bytes) (s : Shared) → IsShared s → IsShared (perform (inserts id a b c d) s)
unfolding perform fresh_info
inserts-IsShared id a b c d s w = go (contains s.drawn id) refl
  where
    t : Tracker
    t = s.tracker

    go :
        (x : Bool)
        → contains s.drawn id ≡ x
        → IsShared (
            if x
            then record { tracker = insert_info id a b c d t; drawn = without id s.drawn }
            else s)
    go true e =
        let (table, fits) =
          IsTable-evict max_connections t.next_id (without id s.drawn) (t.order ++ id ∷ [])
            (put id (some (fresh_info id a b c d)) t.connections)
            (IsTable-insert t.next_id (fresh_info id a b c d) s.drawn t.order t.connections w.table
              e) in
        record { table = table; bounded = fits }
    go false e = w

perform-IsShared :
    (o : Operation) (s : Shared)
    → s.tracker.next_id + 1 < 2 ^ 64
    → IsShared s
    → IsShared (perform o s)
unfolding perform set_exe_name set_proxy set_outbound_target set_proxy_protocol set_connected
    set_closed set_error
perform-IsShared draws s small w = draws-IsShared s small w
perform-IsShared (inserts id a b c d) s small w = inserts-IsShared id a b c d s w
perform-IsShared (sets_exe_name id v) s small w = modify-IsShared id _ s (λ c. refl) w
perform-IsShared (sets_proxy id v) s small w = modify-IsShared id _ s (λ c. refl) w
perform-IsShared (sets_outbound_target id v) s small w = modify-IsShared id _ s (λ c. refl) w
perform-IsShared (sets_proxy_protocol id v) s small w = modify-IsShared id _ s (λ c. refl) w
perform-IsShared (sets_connected id) s small w = modify-IsShared id _ s (λ c. refl) w
perform-IsShared (sets_closed now id) s small w = modify-IsShared id _ s (λ c. refl) w
perform-IsShared (sets_error now id v) s small w = modify-IsShared id _ s (λ c. refl) w
perform-IsShared (takes_snapshot now) s small w = snapshot-IsShared now s w

modify-next_id :
    (id : ℕ) (f : ConnectionInfo → ConnectionInfo) (t : Tracker)
    → (modify id f t).next_id ≡ t.next_id
unfolding modify
modify-next_id id f t = ground arith

snapshot-next_id : (now : ℕ) (t : Tracker) → (snapshot now t).1.next_id ≡ t.next_id
unfolding snapshot cleanup
snapshot-next_id now t = ground arith

perform-next_id :
    (o : Operation) (s : Shared)
    → s.tracker.next_id + 1 < 2 ^ 64
    → (perform o s).tracker.next_id ≤ s.tracker.next_id + 1
unfolding perform set_exe_name set_proxy set_outbound_target set_proxy_protocol set_connected
    set_closed set_error
perform-next_id draws s h = omega arith
perform-next_id (inserts id a b c d) s h = ground arith
perform-next_id (sets_exe_name id v) s h = omega (arith, modify-next_id id _ s.tracker)
perform-next_id (sets_proxy id v) s h = omega (arith, modify-next_id id _ s.tracker)
perform-next_id (sets_outbound_target id v) s h = omega (arith, modify-next_id id _ s.tracker)
perform-next_id (sets_proxy_protocol id v) s h = omega (arith, modify-next_id id _ s.tracker)
perform-next_id (sets_connected id) s h = omega (arith, modify-next_id id _ s.tracker)
perform-next_id (sets_closed now id) s h = omega (arith, modify-next_id id _ s.tracker)
perform-next_id (sets_error now id v) s h = omega (arith, modify-next_id id _ s.tracker)
perform-next_id (takes_snapshot now) s h = omega (arith, snapshot-next_id now s.tracker)

-- However calls overlap, so that ids are drawn in one order and inserted in another: the tracker stays
-- well formed, as long as the counter of the ids does not wrap around. The order and the entries name the
-- same connections, each once and none of those not inserted yet, and there are at most 5000.
pub perform_all-IsShared :
    (os : List Operation) (s : Shared)
    → IsShared s
    → s.tracker.next_id + length os < 2 ^ 64
    → IsShared (perform_all os s)
unfolding perform_all
perform_all-IsShared [] s w h = w
perform_all-IsShared (o ∷ os) s w h =
    perform_all-IsShared os (perform o s) (perform-IsShared o s (omega arith) w)
      (omega (arith, perform-next_id o s (omega arith)))
