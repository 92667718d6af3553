-- ===== src/Window/Defs.antt =====
-- The notifications of a tick of `run_traffic_window`, and what the table makes of them. A row is known
-- by its connection's id.
use simple_forwarder.Prelude.{
  ℕ, zero, suc, ◌+◌, Bool, List, [], ◌∷◌, ◌++◌, if◌then◌else◌, get_or, remove_at,
}
use simple_forwarder.Text.{contains}
use simple_forwarder.Tracker.Defs.{ConnectionInfo}

-- `notify_row_deleted`, `notify_row_inserted` and `notify_row_changed`
pub data Notice : Type 0 where
  row_deleted row_inserted row_changed : ℕ → Notice

-- The old rows that are not among the new, the last one first. The first argument is the index of the
-- first row.
unfoldable pub deletions : List ℕ → ℕ → List ℕ → List Notice
deletions new i [] = []
deletions new i (id ∷ ids) =
    deletions new (i + 1) ids ++ (if contains new id then [] else row_deleted i ∷ [])

-- The new rows that are not among the old, the first one first.
unfoldable pub insertions : List ℕ → ℕ → List ℕ → List Notice
insertions old i [] = []
insertions old i (id ∷ ids) =
    let rest = insertions old (i + 1) ids in if contains old id then rest else row_inserted i ∷ rest

-- The rows for which the test holds.
unfoldable pub changes : (ConnectionInfo → Bool) → ℕ → List ConnectionInfo → List Notice
changes is_changed i [] = []
changes is_changed i (conn ∷ conns) =
    let rest = changes is_changed (i + 1) conns in
    if is_changed conn then row_changed i ∷ rest else rest

unfoldable pub row_notices : List ℕ → List ℕ → List Notice
unfolding deletions insertions
row_notices old new = deletions new 0 old ++ insertions old 0 new

module _ {ℓ} {A : Type ℓ} where
  abbrev pub insert_at : ℕ → A → List A → List A
  insert_at zero y xs = y ∷ xs
  insert_at (suc i) y [] = y ∷ []
  insert_at (suc i) y (x ∷ xs) = x ∷ insert_at i y xs

  abbrev pub set : List A → ℕ → A → List A
  set [] i y = []
  set (x ∷ xs) zero y = y ∷ xs
  set (x ∷ xs) (suc i) y = x ∷ set xs i y

  -- What the notifications ask of a table, as the window library documents them: a deleted row goes,
  -- and a row that is inserted or changed is read from the data source, which holds the new rows. The
  -- first argument stands for a row that the source does not have.
  unfoldable pub show : A → List A → List Notice → List A → List A
  show blank source [] view = view
  show blank source (row_deleted i ∷ notices) view = show blank source notices (remove_at i view)
  show blank source (row_inserted i ∷ notices) view =
      show blank source notices (insert_at i (get_or source i blank) view)
  show blank source (row_changed i ∷ notices) view =
      show blank source notices (set view i (get_or source i blank))

abbrev pub each {ℓ κ} : {A : Type ℓ} {B : Type κ} → (A → B) → List A → List B
each f [] = []
each f (x ∷ xs) = f x ∷ each f xs

abbrev pub ids : List ConnectionInfo → List ℕ
ids = each (λ (c : ConnectionInfo). c.id)
