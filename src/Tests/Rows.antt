-- ===== src/Tests/Rows.antt =====
-- The rows of the window at concrete snapshots.
use simple_forwarder.Prelude.{
  ℕ, ◌≡◌, refl, [], ◌∷◌, arith, map, ◌*◌, true, false, some, ◌==◌, if◌then◌else◌,
}
use simple_forwarder.Text.{codes}
use simple_forwarder.Tracker.State as Trackers
use simple_forwarder.Tracker.State.{Tracker, snapshot, register, evict, fresh_info}
use simple_forwarder.Tracker.Invariant.{IsTracker}
use simple_forwarder.Tracker.Operations.{new-IsTracker, register-IsTracker}
use simple_forwarder.Window.Defs.{row_inserted, row_deleted}
use simple_forwarder.Window.Tick.{TrafficWindow, Moment, resizing, take_over, tick}
use simple_forwarder.Window.Steady.{shown_rows}
use simple_forwarder.Window.Ticks.{Ticks, view_after, after_ticks, view_after-calm}
use simple_forwarder.Window.Stale.{tick_quiet}
use simple_forwarder.Tracker.Defs.{ConnectionInfo}
use simple_forwarder.Window.Highlights.{TrafficDataSource, recompute_highlights}
use simple_forwarder.Window.Top.{AreTop, recompute_highlights-AreTop}
use simple_forwarder.Tests.Samples.{one_client}

one_client-IsTracker : IsTracker one_client
unfolding Trackers.new
one_client-IsTracker =
    register-IsTracker (codes "a") (codes "b") (codes "c") (codes "d") Trackers.new new-IsTracker
      (omega arith)

-- Six mebibytes for each id, so that the rows 2 and 3 are highlighted and 1 is not.
abbrev six_each : ℕ → ℕ
six_each id = id * 6291456

abbrev no_rows : TrafficWindow
no_rows = record {
  source = record { connections = []; top_sent = []; top_recv = [] };
  prev_width = 0;
  prev_height = 0;
  shown = false;
}

abbrev first_tick : Moment
first_tick = record { now = 9; want_visible = true; client_size = some (800, 600) }

abbrev later_tick : Moment
later_tick = record { now = 10; want_visible = true; client_size = some (800, 600) }

abbrev two_ticks : Ticks
two_ticks = (first_tick, one_client) ∷ (later_tick, Trackers.new) ∷ []

-- The first tick inserts the row of the client, the second deletes it.
two_ticks_notices :
    ((tick first_tick one_client no_rows).2 ≡ row_inserted 0 ∷ [])
    × ((tick later_tick Trackers.new (tick first_tick one_client no_rows).0).2 ≡ row_deleted 0 ∷ [])
unfolding tick register evict fresh_info Trackers.new
two_ticks_notices = (refl, refl)

ticks_example :
    view_after six_each six_each two_ticks no_rows (shown_rows six_each six_each no_rows.source)
    ≡ shown_rows six_each six_each (after_ticks two_ticks no_rows).source
unfolding resizing tick
ticks_example =
    view_after-calm six_each six_each two_ticks no_rows
      (one_client-IsTracker, refl, (new-IsTracker, refl, tt)) tt

-- Rows of the tracker as it was, with a hundred bytes sent since.
abbrev busy_client : Tracker
busy_client = record one_client { bytes_sent = λ id. if id == 1 then 100 else 0 }

abbrev one_row : TrafficWindow
one_row = record {
  source = record { connections = (snapshot 9 one_client).0; top_sent = []; top_recv = [] };
  prev_width = 800;
  prev_height = 600;
  shown = true;
}

stale_example : (tick later_tick busy_client one_row).2 ≡ []
unfolding take_over register evict fresh_info Trackers.new snapshot
stale_example = tick_quiet later_tick busy_client one_row (omega arith, tt) refl

abbrev three_rows : TrafficDataSource
three_rows = record {
  connections = fresh_info 1 [] [] [] [] ∷ fresh_info 2 [] [] [] [] ∷ fresh_info 3 [] [] [] [] ∷ [];
  top_sent = [];
  top_recv = [];
}

highlighted : (recompute_highlights six_each six_each three_rows).top_sent ≡ 3 ∷ 2 ∷ []
unfolding recompute_highlights fresh_info
highlighted = refl

highlights_example :
    AreTop six_each
      (map (λ (c : ConnectionInfo). c.id) three_rows.connections)
      (recompute_highlights six_each six_each three_rows).top_sent
    × AreTop six_each
        (map (λ (c : ConnectionInfo). c.id) three_rows.connections)
        (recompute_highlights six_each six_each three_rows).top_recv
highlights_example = recompute_highlights-AreTop six_each six_each three_rows
