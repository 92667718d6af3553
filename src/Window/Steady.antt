-- ===== src/Window/Steady.antt =====
-- The rows that the table shows of a data source (`run_traffic_window` of src/traffic_window.rs).
use simple_forwarder.Prelude.{
  ℕ, suc, ◌<◌, ◌≡◌, refl, sym, ap, ◌∙◌, Bool, true, false, not, ◌||◌, none, some, List, [], ◌∷◌,
  arith, map, ◌==◌, ==_refl, ==→eq, if◌then◌else◌, Option-cases, inl, inr,
}
use simple_forwarder.Text.{contains}
use simple_forwarder.Tracker.Defs.{ConnectionInfo}
use simple_forwarder.Tracker.Ascending.{Ascends}
use simple_forwarder.Tracker.State.{Tracker}
use simple_forwarder.Tracker.Equal.{eq_info, eq_info-Alike}
use simple_forwarder.Window.Highlights.{TrafficDataSource}
use simple_forwarder.Window.Defs.{each, ids}
use simple_forwarder.Window.Cells.{TableValue, row_cell, row_color, col_color_sent, col_color_recv}
use simple_forwarder.Window.Tick.{find_row, xor, rank_changed, is_changed}

abbrev pub Row : Type 0
Row = List TableValue

-- The columns of a row but those of the byte counts.
abbrev steady_columns : List ℕ
steady_columns = 0 ∷ 1 ∷ 2 ∷ 3 ∷ 4 ∷ 5 ∷ 6 ∷ col_color_sent ∷ col_color_recv ∷ []

abbrev pub shown_row : (ℕ → ℕ) → (ℕ → ℕ) → TrafficDataSource → ConnectionInfo → Row
shown_row bytes_sent bytes_received ds conn =
    each (row_cell bytes_sent bytes_received ds conn) steady_columns

-- The rows of the data source, each by its cells.
abbrev pub shown_rows : (ℕ → ℕ) → (ℕ → ℕ) → TrafficDataSource → List Row
shown_rows bytes_sent bytes_received ds =
    each (shown_row bytes_sent bytes_received ds) ds.connections

pub each-agree {ℓ κ} :
    {A : Type ℓ} {B : Type κ} (f g : A → B) (xs : List A)
    → ((x : A) → f x ≡ g x)
    → each f xs ≡ each g xs
each-agree f g [] h = refl
each-agree f g (x ∷ xs) h = rw (h x) (ap (◌∷◌ (g x)) (each-agree f g xs h))

pub ids_lem : (cs : List ConnectionInfo) → map (λ (c : ConnectionInfo). c.id) cs ≡ ids cs
ids_lem [] = refl
ids_lem (c ∷ cs) = ap (◌∷◌ c.id) (ids_lem cs)

-- The row of an id.
abbrev pub look : (ConnectionInfo → Row) → List ConnectionInfo → ℕ → Row
look f cs id = elim (find_row id cs) [ none ↦ [] | some c ↦ f c ]

look-behind :
    (f : ConnectionInfo → Row) (lo : ℕ) (c : ConnectionInfo) (cs ds : List ConnectionInfo)
    → c.id < lo
    → Ascends lo (ids ds)
    → each (look f (c ∷ cs)) (ids ds) ≡ each (look f cs) (ids ds)
unfolding find_row
look-behind f lo c cs [] h a = refl
look-behind f lo c cs (d ∷ ds) h a =
    let other : (c.id == d.id) ≡ false = ground (arith, a.0) in
    rw (other, look)
      (ap (◌∷◌ (look f cs d.id)) (look-behind f (suc d.id) c cs ds (omega (arith, a.0)) a.1))

-- The rows of ascending connections, looked up by their ids.
pub each-look :
    (f : ConnectionInfo → Row) (lo : ℕ) (cs : List ConnectionInfo)
    → Ascends lo (ids cs)
    → each (look f cs) (ids cs) ≡ each f cs
unfolding find_row
each-look f lo [] a = refl
each-look f lo (c ∷ cs) a =
    rw (==_refl c.id, look)
      (ap (◌∷◌ (f c))
        (look-behind f (suc c.id) c cs cs (omega arith) a.1 ∙ each-look f (suc c.id) cs a.1))

find_row-none :
    (id : ℕ) (cs : List ConnectionInfo) → find_row id cs ≡ none → contains (ids cs) id ≡ false
unfolding find_row
find_row-none id [] h = refl
find_row-none id (c ∷ cs) h = ground (arith, find_row-none id cs)

find_row-some :
    (id : ℕ) (cs : List ConnectionInfo) (c : ConnectionInfo)
    → find_row id cs ≡ some c
    → (contains (ids cs) id ≡ true) × (c.id ≡ id)
unfolding find_row
find_row-some id [] c h = absurd cc
find_row-some id (d ∷ cs) c h = go (d.id == id) refl h (find_row-some id cs c)
  where
    go :
        (b : Bool)
        → (d.id == id) ≡ b
        → (if b then some d else find_row id cs) ≡ some c
        → (find_row id cs ≡ some c → (contains (ids cs) id ≡ true) × (c.id ≡ id))
        → ((if b then true else contains (ids cs) id) ≡ true) × (c.id ≡ id)
    go true e k rest = (
      refl,
      let same : d ≡ c = cc in ap (λ (x : ConnectionInfo). x.id) (sym same) ∙ ==→eq d.id id e,
    )
    go false e k rest = rest k

same_color :
    (top top' : List ℕ) (id : ℕ)
    → xor (contains top id) (contains top' id) ≡ false
    → row_color top id ≡ row_color top' id
unfolding row_color
same_color top top' id h = ground arith

-- A row that is neither changed nor of another rank looks as before.
steady :
    (bs br : ℕ → ℕ) (t : Tracker) (old new : TrafficDataSource) (c c' : ConnectionInfo)
    → c.id ≡ c'.id
    → (not (eq_info t.bytes_sent t.bytes_received c c') || rank_changed old new c'.id) ≡ false
    → shown_row bs br old c ≡ shown_row bs br new c'
unfolding row_cell rank_changed
steady bs br t old new c c' e h =
    let same = eq_info-Alike t.bytes_sent t.bytes_received c c' (ground arith) in
    let sent : row_color old.top_sent c'.id ≡ row_color new.top_sent c'.id =
      same_color old.top_sent new.top_sent c'.id (ground arith) in
    let recv : row_color old.top_recv c'.id ≡ row_color new.top_recv c'.id =
      same_color old.top_recv new.top_recv c'.id (ground arith) in
    cc (
      same.source_ip, same.outbound_target, same.exe_name, same.proxy_protocol, same.proxy,
      same.start_time, same.status,
    )

pub settled :
    (bs br : ℕ → ℕ) (t : Tracker) (old new : TrafficDataSource) (c : ConnectionInfo)
    → (if is_changed t old new c
        then shown_row bs br new c
        else if contains (ids old.connections) c.id
        then look (shown_row bs br old) old.connections c.id
        else shown_row bs br new c)
      ≡ shown_row bs br new c
unfolding is_changed
settled bs br t old new c = elim (Option-cases (find_row c.id old.connections)) [
  | inl gone ↦ rw (gone, is_changed) (rw (find_row-none c.id old.connections gone) refl)
  | inr (c0, there) ↦
      let (here, same) = find_row-some c.id old.connections c0 there in
      rw (there, is_changed, look)
        (rw here (
          go (shown_row bs br old c0)
            (not (eq_info t.bytes_sent t.bytes_received c0 c) || rank_changed old new c.id)
            (steady bs br t old new c0 c same)))
]
  where
    go :
        (r : Row) (b : Bool)
        → (b ≡ false → r ≡ shown_row bs br new c)
        → (if b then shown_row bs br new c else r) ≡ shown_row bs br new c
    go r true h = refl
    go r false h = h refl
