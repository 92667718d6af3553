-- ===== src/Tracker/Distinct.antt =====
-- A table whose order has no id twice, while other ids have been drawn and not been inserted yet
-- (src/connection_tracker.rs).
use simple_forwarder.Prelude.{
  ℕ, ◌≤◌, ◌≡◌, refl, Bool, true, false, none, List, [], ◌∷◌, ◌++◌, arith, ◌==◌, ltb, length, All,
  put, keep, if◌then◌else◌, Bool-cases, ltb→le, inl, inr,
}
use simple_forwarder.Text.{contains}
use simple_forwarder.Tracker.State.{Connections, evict}
use simple_forwarder.Tracker.Ascending.{Under}
use simple_forwarder.Tracker.Invariant.{Held, Held-put}

-- No id stands twice.
abbrev pub Distinct : List ℕ → Type 0
Distinct [] = Unit {0}
Distinct (i ∷ is) = (contains is i ≡ false) × Distinct is

-- The order lists just the entries, each once, and none of the ids that have been drawn for others.
pub record IsTable (hi : ℕ) (drawn order : List ℕ) (m : Connections) : Type 0 where
  pub held : All (Held m) order
  pub listed : (i : ℕ) → contains order i ≡ false → m i ≡ none
  pub distinct : Distinct order
  pub under : Under hi order
  pub waiting : Under hi drawn
  pub away : (i : ℕ) → contains drawn i ≡ true → contains order i ≡ false

not_later : (is : List ℕ) (i j : ℕ) → contains (i ∷ is) j ≡ false → contains is j ≡ false
not_later is i j h = ground arith

pub Distinct-append :
    (is : List ℕ) (k : ℕ) → Distinct is → contains is k ≡ false → Distinct (is ++ k ∷ [])
Distinct-append [] k d h = (refl, tt)
Distinct-append (i ∷ is) k d h =
    (absent is k i d.0 (ground arith), Distinct-append is k d.1 (ground arith))
  where
    absent :
        (is : List ℕ) (k i : ℕ)
        → contains is i ≡ false
        → (i == k) ≡ false
        → contains (is ++ k ∷ []) i ≡ false
    absent [] k i h g = ground arith
    absent (j ∷ is) k i h g = ground (arith, absent is k i)

pub absent-keep :
    (p : ℕ → Bool) (is : List ℕ) (i : ℕ) → contains is i ≡ false → contains (keep p is) i ≡ false
absent-keep p [] i h = refl
absent-keep p (j ∷ is) i h = go (p j) (absent-keep p is i (ground arith))
  where
    go :
        (b : Bool)
        → contains (keep p is) i ≡ false
        → contains (if b then j ∷ keep p is else keep p is) i ≡ false
    go true rec = ground arith
    go false rec = rec

pub Distinct-keep : (p : ℕ → Bool) (is : List ℕ) → Distinct is → Distinct (keep p is)
Distinct-keep p [] d = tt
Distinct-keep p (i ∷ is) d = go (p i) (Distinct-keep p is d.1)
  where
    go : (b : Bool) → Distinct (keep p is) → Distinct (if b then i ∷ keep p is else keep p is)
    go true rec = (absent-keep p is i d.0, rec)
    go false rec = rec

IsTable-tail :
    (hi i : ℕ) (drawn is : List ℕ) (m : Connections)
    → IsTable hi drawn (i ∷ is) m
    → IsTable hi drawn is (put i none m)
IsTable-tail hi i drawn is m x = record {
  held = Held-put i none m is x.distinct.0 x.held.1;
  listed = gone;
  distinct = x.distinct.1;
  under = x.under.1;
  waiting = x.waiting;
  away = λ j h. not_later is i j (x.away j h);
}
  where
    gone : (j : ℕ) → contains is j ≡ false → put i none m j ≡ none
    gone j h = elim (Bool-cases (j == i)) [
      | inl same ↦ rw same
      | inr other ↦ rw other (x.listed j (ground arith))
    ]

pub IsTable-evict :
    (limit hi : ℕ) (drawn order : List ℕ) (m : Connections)
    → IsTable hi drawn order m
    → IsTable hi drawn (evict limit order m).0 (evict limit order m).1
      × (length (evict limit order m).0 ≤ limit)
unfolding evict
IsTable-evict limit hi drawn [] m x = (x, omega arith)
IsTable-evict limit hi drawn (i ∷ is) m x =
    go (ltb limit (length (i ∷ is))) refl
      (IsTable-evict limit hi drawn is (put i none m) (IsTable-tail hi i drawn is m x))
  where
    After : List ℕ × Connections → Type 0
    After r = IsTable hi drawn r.0 r.1 × (length r.0 ≤ limit)

    go :
        (b : Bool)
        → ltb limit (length (i ∷ is)) ≡ b
        → After (evict limit is (put i none m))
        → After (elim b [ true ↦ evict limit is (put i none m) | false ↦ (i ∷ is, m) ])
    go true e rest = rest
    go false e rest = (x, omega (arith, ltb→le limit (length (i ∷ is)) e))
