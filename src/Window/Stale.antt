-- ===== src/Window/Stale.antt =====
-- What the notifications of a tick leave out: byte counts.
use simple_forwarder.Prelude.{
  ℕ, suc, ◌+◌, ◌<◌, ◌≡◌, refl, ap, ◌∙◌, Bool, true, false, some, List, [], ◌∷◌, arith, ◌==◌,
  ==_refl, if◌then◌else◌, All,
}
use simple_forwarder.Text.{contains}
use simple_forwarder.Tracker.Defs.{ConnectionInfo}
use simple_forwarder.Tracker.Ascending.{Ascends}
use simple_forwarder.Tracker.State.{Tracker, snapshot}
use simple_forwarder.Tracker.Equal.{eq_info_refl}
use simple_forwarder.Window.Highlights.{TrafficDataSource}
use simple_forwarder.Window.Defs.{Notice, changes, row_notices, deletions, insertions, ids}
use simple_forwarder.Window.Tick.{
  TrafficWindow, Moment, find_row, xor, rank_changed, is_changed, take_over, notices, resizing,
  remember_size, visible_tick, tick,
}

abbrev Found : List ConnectionInfo → ConnectionInfo → Type 0
Found cs c = (find_row c.id cs ≡ some c) × (contains (ids cs) c.id ≡ true)

still_there :
    (lo : ℕ) (c : ConnectionInfo) (cs ds : List ConnectionInfo)
    → c.id < lo
    → Ascends lo (ids ds)
    → All (Found cs) ds
    → All (Found (c ∷ cs)) ds
unfolding find_row
still_there lo c cs [] h a f = tt
still_there lo c cs (d ∷ ds) h a f =
    let other : (c.id == d.id) ≡ false = ground (arith, a.0) in
    (rw other f.0, still_there (suc d.id) c cs ds (omega (arith, a.0)) a.1 f.1)

each_there : (lo : ℕ) (cs : List ConnectionInfo) → Ascends lo (ids cs) → All (Found cs) cs
unfolding find_row
each_there lo [] a = tt
each_there lo (c ∷ cs) a = (
  rw (==_refl c.id) (refl, refl),
  still_there (suc c.id) c cs cs (omega arith) a.1 (each_there (suc c.id) cs a.1),
)

deletions_none :
    (cs : List ConnectionInfo) (i : ℕ) (ds : List ConnectionInfo)
    → All (Found cs) ds
    → deletions (ids cs) i (ids ds) ≡ []
unfolding deletions
deletions_none cs i [] f = refl
deletions_none cs i (d ∷ ds) f = rw (f.0.1, deletions_none cs (i + 1) ds f.1) refl

insertions_none :
    (cs : List ConnectionInfo) (i : ℕ) (ds : List ConnectionInfo)
    → All (Found cs) ds
    → insertions (ids cs) i (ids ds) ≡ []
unfolding insertions
insertions_none cs i [] f = refl
insertions_none cs i (d ∷ ds) f = rw (f.0.1, insertions_none cs (i + 1) ds f.1) refl

xor_same : (b : Bool) → xor b b ≡ false
xor_same true = refl
xor_same false = refl

abbrev pub recolored : List ℕ → List ℕ → List ConnectionInfo → TrafficDataSource
recolored top_sent top_recv cs = record {
  connections = cs;
  top_sent = top_sent;
  top_recv = top_recv;
}

unchanged :
    (t : Tracker) (top_sent top_recv : List ℕ) (cs : List ConnectionInfo) (c : ConnectionInfo)
    → Found cs c
    → is_changed t (recolored top_sent top_recv cs) (recolored top_sent top_recv cs) c ≡ false
unfolding is_changed rank_changed
unchanged t top_sent top_recv cs c f =
    rw (f.0, is_changed)
      (rw
        (
          eq_info_refl t.bytes_sent t.bytes_received c,
          xor_same (contains top_sent c.id),
          xor_same (contains top_recv c.id),
        )
        refl)

changes_none :
    (t : Tracker) (top_sent top_recv : List ℕ) (cs : List ConnectionInfo) (i : ℕ)
    (ds : List ConnectionInfo)
    → All (Found cs) ds
    → changes (is_changed t (recolored top_sent top_recv cs) (recolored top_sent top_recv cs)) i ds
      ≡ []
unfolding changes
changes_none t top_sent top_recv cs i [] f = refl
changes_none t top_sent top_recv cs i (d ∷ ds) f =
    rw (unchanged t top_sent top_recv cs d f.0, changes_none t top_sent top_recv cs (i + 1) ds f.1)
      refl

notices_same :
    (t : Tracker) (ds : TrafficDataSource) → Ascends 0 (ids ds.connections) → notices t ds ds ≡ []
unfolding notices row_notices
notices_same t ds a =
    let found = each_there 0 ds.connections a in
    rw
      (
        deletions_none ds.connections 0 ds.connections found,
        insertions_none ds.connections 0 ds.connections found,
        changes_none t ds.top_sent ds.top_recv ds.connections 0 ds.connections found,
      )
      refl

-- A tick whose snapshot has the connections and the highlights of the last one notifies no row, whatever
-- the byte counts have become: the comparison reads the counters of the old row and of the new from
-- the same place.
pub tick_quiet :
    (k : Moment) (t : Tracker) (w : TrafficWindow)
    → Ascends 0 (ids w.source.connections)
    → take_over k.now t w.source ≡ w.source
    → (tick k t w).2 ≡ []
unfolding tick visible_tick
tick_quiet k t w a same = go k.want_visible (resizing k w)
  where
    quiet : notices (snapshot k.now t).1 w.source (take_over k.now t w.source) ≡ []
    quiet =
        ap (notices (snapshot k.now t).1 w.source) same
        ∙ notices_same (snapshot k.now t).1 w.source a

    after : TrafficWindow
    after = record (remember_size k w) { source = take_over k.now t w.source; shown = true }

    visible : Bool → TrafficWindow × Tracker × List Notice
    visible b = if b then (after, (snapshot k.now t).1, []) else (
      after,
      (snapshot k.now t).1,
      notices (snapshot k.now t).1 w.source (take_over k.now t w.source),
    )

    go : (b r : Bool) → (if b then visible r else (record w { shown = false }, t, [])).2 ≡ []
    go true true = refl
    go true false = quiet
    go false r = refl
