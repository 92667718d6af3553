-- ===== src/Window/Shows.antt =====
-- What the table shows after a tick (`run_traffic_window` of src/traffic_window.rs).
use simple_forwarder.Prelude.{
  ℕ, ◌≡◌, refl, sym, ap, ◌∙◌, Bool, true, false, List, [], ◌++◌, if◌then◌else◌,
}
use simple_forwarder.Text.{contains}
use simple_forwarder.Tracker.Defs.{ConnectionInfo}
use simple_forwarder.Tracker.Ascending.{Ascends}
use simple_forwarder.Tracker.State.{Tracker, snapshot}
use simple_forwarder.Tracker.Invariant.{IsTracker}
use simple_forwarder.Tracker.Operations.{snapshot-IsTracker, snapshot-rows}
use simple_forwarder.Window.Highlights.{TrafficDataSource, recompute_highlights}
use simple_forwarder.Window.Defs.{
  Notice, changes, row_notices, deletions, insertions, show, each, ids,
}
use simple_forwarder.Window.Tick.{
  TrafficWindow, Moment, is_changed, take_over, notices, resizing, visible_tick, tick,
}
use simple_forwarder.Window.Rows.{keep-shared}
use simple_forwarder.Window.Diff.{show-append, show-deletions, show-insertions, show-changes}
use simple_forwarder.Window.Steady.{
  each-agree, ids_lem, look, each-look, settled, Row, shown_row, shown_rows,
}

-- The notifications turn the rows of one ascending data source into those of another.
show-notices :
    (bs br : ℕ → ℕ) (t : Tracker) (old new : TrafficDataSource)
    → Ascends 0 (ids old.connections)
    → Ascends 0 (ids new.connections)
    → show [] (shown_rows bs br new) (notices t old new) (shown_rows bs br old)
      ≡ shown_rows bs br new
unfolding notices row_notices
show-notices bs br t old new p q =
    ap (show [] (shown_rows bs br new) (row_notices os ns ++ last))
      (sym (each-look (shown_row bs br old) 0 old.connections p))
    ∙ show-append [] (shown_rows bs br new) (row_notices os ns) last (each before os)
    ∙ ap (show [] (shown_rows bs br new) last) (
        show-append [] (shown_rows bs br new) (deletions ns 0 os) (insertions os 0 ns)
          (each before os)
        ∙ ap (show [] (shown_rows bs br new) (insertions os 0 ns)) (
            show-deletions [] before (shown_rows bs br new) ns [] os
            ∙ ap (each before) (keep-shared 0 os ns p q))
        ∙ show-insertions [] before (shown_row bs br new) os [] [] new.connections refl)
    ∙ show-changes [] (is_changed t old new) mixed (shown_row bs br new) [] [] new.connections refl
    ∙ each-agree _ (shown_row bs br new) new.connections (settled bs br t old new)
  where
    os : List ℕ
    os = ids old.connections

    ns : List ℕ
    ns = ids new.connections

    before : ℕ → Row
    before = look (shown_row bs br old) old.connections

    mixed : ConnectionInfo → Row
    mixed c = if contains os c.id then before c.id else shown_row bs br new c

    last : List Notice
    last = changes (is_changed t old new) 0 new.connections

take_over-Ascends :
    (now : ℕ) (t : Tracker) (ds : TrafficDataSource)
    → IsTracker t
    → Ascends 0 (ids (take_over now t ds).connections)
unfolding take_over recompute_highlights
take_over-Ascends now t ds w =
    rw (sym (ids_lem (snapshot now t).0))
      (rw (snapshot-rows now t w) (snapshot-IsTracker now t w).indexed.ascends)

-- What a tick leaves: the table with the rows of the data source, which ascend.
abbrev pub Shown :
    (ℕ → ℕ) → (ℕ → ℕ) → TrafficWindow → TrafficWindow × Tracker × List Notice → Type 0
Shown bs br w r =
    (show [] (shown_rows bs br r.0.source) r.2 (shown_rows bs br w.source)
      ≡ shown_rows bs br r.0.source)
    × Ascends 0 (ids r.0.source.connections)

visible_tick-Shown :
    (bs br : ℕ → ℕ) (k : Moment) (t : Tracker) (w : TrafficWindow)
    → IsTracker t
    → Ascends 0 (ids w.source.connections)
    → resizing k w ≡ false
    → Shown bs br w (visible_tick k t w)
unfolding visible_tick
visible_tick-Shown bs br k t w good p still = rw still (
  show-notices bs br (snapshot k.now t).1 w.source (take_over k.now t w.source) p
      (take_over-Ascends k.now t w.source good),
  take_over-Ascends k.now t w.source good,
)

-- A tick that does not resize the table leaves the table with the rows of the data source, whether the
-- window is hidden or not.
pub tick-Shown :
    (bs br : ℕ → ℕ) (k : Moment) (t : Tracker) (w : TrafficWindow)
    → IsTracker t
    → Ascends 0 (ids w.source.connections)
    → resizing k w ≡ false
    → Shown bs br w (tick k t w)
unfolding tick show
tick-Shown bs br k t w good p still = go k.want_visible
  where
    go :
        (b : Bool)
        → Shown bs br w (if b then visible_tick k t w else (record w { shown = false }, t, []))
    go true = visible_tick-Shown bs br k t w good p still
    go false = (refl, p)
