-- ===== src/Window/Tick.antt =====
-- The closure of `on_tick` in `run_traffic_window`: the rows it takes over, and what it tells the table.
use simple_forwarder.Prelude.{
  ℕ, Bool, true, false, not, ◌&&◌, ◌||◌, Option, none, some, List, [], ◌∷◌, ◌++◌, ◌==◌,
  if◌then◌else◌,
}
use simple_forwarder.Text.{contains}
use simple_forwarder.Tracker.Defs.{ConnectionInfo}
use simple_forwarder.Tracker.State.{Tracker, snapshot}
use simple_forwarder.Tracker.Equal.{eq_info}
use simple_forwarder.Window.Defs.{Notice, changes, row_notices, ids}
use simple_forwarder.Window.Highlights.{TrafficDataSource, recompute_highlights}

-- The rows that the table reads, and the size that the table had at the last tick.
pub record TrafficWindow : Type 0 where
  pub source : TrafficDataSource
  pub prev_width : ℕ
  pub prev_height : ℕ
  pub shown : Bool

-- At a tick: the instant, `want_visible`, and the size of the table, which only Windows gives.
pub record Moment : Type 0 where
  pub now : ℕ
  pub want_visible : Bool
  pub client_size : Option (ℕ × ℕ)

-- The entry of the id: `old_idx_by_id.get(&id)`, and the connection at that index.
unfoldable pub find_row : ℕ → List ConnectionInfo → Option ConnectionInfo
find_row id [] = none
find_row id (c ∷ cs) = if c.id == id then some c else find_row id cs

abbrev pub xor : Bool → Bool → Bool
xor a b = if a then not b else b

unfoldable pub rank_changed : TrafficDataSource → TrafficDataSource → ℕ → Bool
rank_changed old new id =
    xor (contains old.top_sent id) (contains new.top_sent id)
    || xor (contains old.top_recv id) (contains new.top_recv id)

-- The row was there, and its data or its rank has changed.
unfoldable pub is_changed : Tracker → TrafficDataSource → TrafficDataSource → ConnectionInfo → Bool
unfolding find_row rank_changed eq_info
is_changed t old new conn = elim (find_row conn.id old.connections) [
  | none ↦ false
  | some c ↦ not (eq_info t.bytes_sent t.bytes_received c conn) || rank_changed old new conn.id
]

-- The rows of the snapshot, with their highlights.
unfoldable pub take_over : ℕ → Tracker → TrafficDataSource → TrafficDataSource
unfolding snapshot recompute_highlights
take_over now t ds =
    recompute_highlights (snapshot now t).1.bytes_sent (snapshot now t).1.bytes_received
      (record ds { connections = (snapshot now t).0 })

unfoldable pub notices : Tracker → TrafficDataSource → TrafficDataSource → List Notice
unfolding row_notices changes is_changed
notices t old new =
    row_notices (ids old.connections) (ids new.connections)
    ++ changes (is_changed t old new) 0 new.connections

unfoldable pub resizing : Moment → TrafficWindow → Bool
resizing k w = elim k.client_size [
  | none ↦ false
  | some (width, height) ↦
      not (w.prev_width == 0) && (not (width == w.prev_width) || not (height == w.prev_height))
]

unfoldable pub remember_size : Moment → TrafficWindow → TrafficWindow
remember_size k w = elim k.client_size [
  | none ↦ w
  | some (width, height) ↦ record w { prev_width = width; prev_height = height }
]

-- While the table is resized the rows are taken over and nothing is notified.
unfoldable pub visible_tick :
    Moment → Tracker → TrafficWindow → TrafficWindow × Tracker × List Notice
unfolding take_over notices resizing remember_size snapshot
visible_tick k t w =
    let new = take_over k.now t w.source in
    let t' = (snapshot k.now t).1 in
    let w' = record (remember_size k w) { source = new; shown = true } in
    if resizing k w then (w', t', []) else (w', t', notices t' w.source new)

-- A hidden window is left alone.
unfoldable pub tick : Moment → Tracker → TrafficWindow → TrafficWindow × Tracker × List Notice
unfolding visible_tick
tick k t w = if k.want_visible then visible_tick k t w else (record w { shown = false }, t, [])
