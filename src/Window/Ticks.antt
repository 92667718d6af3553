-- ===== src/Window/Ticks.antt =====
-- A table over any number of ticks.
use simple_forwarder.Prelude.{ℕ, ◌≡◌, refl, ap, ◌∙◌, false, List, [], ◌∷◌}
use simple_forwarder.Tracker.Ascending.{Ascends}
use simple_forwarder.Tracker.State.{Tracker}
use simple_forwarder.Tracker.Invariant.{IsTracker}
use simple_forwarder.Window.Defs.{show, ids}
use simple_forwarder.Window.Tick.{TrafficWindow, Moment, resizing, tick}
use simple_forwarder.Window.Steady.{Row, shown_rows}
use simple_forwarder.Window.Shows.{tick-Shown}

-- The instants of the ticks, each with the table of connections that it finds.
abbrev pub Ticks : Type 0
Ticks = List (Moment × Tracker)

unfoldable pub after_ticks : Ticks → TrafficWindow → TrafficWindow
unfolding tick
after_ticks [] w = w
after_ticks ((k, t) ∷ ks) w = after_ticks ks (tick k t w).0

-- What a table shows that was given the notifications of every tick.
unfoldable pub view_after : (ℕ → ℕ) → (ℕ → ℕ) → Ticks → TrafficWindow → List Row → List Row
unfolding tick show
view_after bs br [] w view = view
view_after bs br ((k, t) ∷ ks) w view =
    view_after bs br ks (tick k t w).0
      (show [] (shown_rows bs br (tick k t w).0.source) (tick k t w).2 view)

-- The tracker is well formed at every tick, and no tick finds the table of another size.
abbrev pub AreCalm : Ticks → TrafficWindow → Type 0
AreCalm [] w = Unit {0}
AreCalm ((k, t) ∷ ks) w = IsTracker t × (resizing k w ≡ false) × AreCalm ks (tick k t w).0

-- A table that shows the rows of its data source shows them after any number of ticks, whatever
-- connections have come, gone or changed in between and whether the window was hidden: in every column
-- but those of the byte counts, as long as every tick finds the tracker with its connections in the order of
-- their ids, and no tick finds the table of another size than the tick before.
pub view_after-calm :
    (bs br : ℕ → ℕ) (ks : Ticks) (w : TrafficWindow)
    → AreCalm ks w
    → Ascends 0 (ids w.source.connections)
    → view_after bs br ks w (shown_rows bs br w.source) ≡ shown_rows bs br (after_ticks ks w).source
unfolding view_after after_ticks
view_after-calm bs br [] w c a = refl
view_after-calm bs br ((k, t) ∷ ks) w c a =
    let (shows, a') = tick-Shown bs br k t w c.0 a c.1 in
    ap (view_after bs br ks (tick k t w).0) shows ∙ view_after-calm bs br ks (tick k t w).0 c.2 a'
