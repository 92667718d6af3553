-- ===== src/Window/Highlights.antt =====
-- `TrafficDataSource` and `recompute_highlights`: the rows whose byte counts are shown in colour.
use simple_forwarder.Prelude.{ℕ, ◌*◌, List, [], ◌∷◌, ltb, if◌then◌else◌, take, keep, map}
use simple_forwarder.Tracker.Defs.{ConnectionInfo}

pub record TrafficDataSource : Type 0 where
  pub connections : List ConnectionInfo
  pub top_sent : List ℕ
  pub top_recv : List ℕ

abbrev pub top_n : ℕ
top_n = 5

abbrev pub highlight_min_bytes : ℕ
highlight_min_bytes = 10 * 1024 * 1024

-- `sort_unstable_by_key` with `Reverse`: the greatest count first. The order of equal counts, which the
-- program leaves to the sort, is here that of the rows.
unfoldable pub insert_row : (ℕ → ℕ) → ℕ → List ℕ → List ℕ
insert_row count id [] = id ∷ []
insert_row count id (x ∷ xs) =
    let rest = insert_row count id xs in if ltb (count id) (count x) then x ∷ rest else id ∷ x ∷ xs

unfoldable pub sort_rows : (ℕ → ℕ) → List ℕ → List ℕ
unfolding insert_row
sort_rows count [] = []
sort_rows count (id ∷ ids) = insert_row count id (sort_rows count ids)

-- The ids of the rows with the most bytes, of those with more than the minimum.
unfoldable pub top_rows : (ℕ → ℕ) → List ℕ → List ℕ
unfolding sort_rows
top_rows count ids =
    take top_n (sort_rows count (keep (λ id. ltb highlight_min_bytes (count id)) ids))

-- The first two arguments are the counters at the time of the call.
unfoldable pub recompute_highlights : (ℕ → ℕ) → (ℕ → ℕ) → TrafficDataSource → TrafficDataSource
unfolding top_rows
recompute_highlights bytes_sent bytes_received ds =
    let ids = map (λ (c : ConnectionInfo). c.id) ds.connections in
    record ds { top_sent = top_rows bytes_sent ids; top_recv = top_rows bytes_received ids }
