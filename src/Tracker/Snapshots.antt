-- ===== src/Tracker/Snapshots.antt =====
-- `snapshot` of src/connection_tracker.rs: its rows, and what it leaves in the table.
use simple_forwarder.Prelude.{
  ℕ, ◌+◌, ◌*◌, ◌^◌, ◌≡◌, Bool, ◌&&◌, Option, none, some, List, leb, map, filter_map, if◌then◌else◌,
}
use simple_forwarder.Tracker.Defs.{ConnectionInfo}
use simple_forwarder.Tracker.State.{Tracker}
use simple_forwarder.Tracker.Distinct.{Distinct}

-- An entry after a call that cleans up or not: five seconds after it was closed, it goes.
abbrev pub kept_for : ℕ → Bool → Option ConnectionInfo → Option ConnectionInfo
kept_for now clean none = none
kept_for now clean (some c) = elim c.closed_at [
  | none ↦ some c
  | some at ↦ if clean && leb (at + 5 * 10 ^ 9) now then none else some c
]

-- The rows, the order and the entries after a snapshot.
pub record Shows (now : ℕ) (clean : Bool) (t : Tracker) (r : List ConnectionInfo × Tracker)
    : Type 0 where
  pub of_order : map (λ (c : ConnectionInfo). c.id) r.0 ≡ r.1.order
  pub of_entries : r.0 ≡ filter_map r.1.connections r.1.order
  pub once : Distinct r.1.order
  pub kept : (id : ℕ) → r.1.connections id ≡ kept_for now clean (t.connections id)
