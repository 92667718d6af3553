-- ===== src/Tracker/Ascending.antt =====
-- The order of the table: ascending ids, from a lower bound.
use simple_forwarder.Prelude.{
  ℕ, suc, ◌≤◌, ◌<◌, ◌≡◌, refl, ap, Bool, true, false, List, [], ◌∷◌, ◌++◌, arith, ◌==◌,
  if◌then◌else◌, keep, ==→eq, Bool-cases, inl, inr,
}
use simple_forwarder.Text.{contains}

abbrev pub Ascends : ℕ → List ℕ → Type 0
Ascends lo [] = Unit
Ascends lo (i ∷ is) = (lo ≤ i) × Ascends (suc i) is

-- Every entry lies under the bound.
abbrev pub Under : ℕ → List ℕ → Type 0
Under hi [] = Unit
Under hi (i ∷ is) = (i < hi) × Under hi is

pub Ascends-le : (lo lo' : ℕ) (is : List ℕ) → lo' ≤ lo → Ascends lo is → Ascends lo' is
Ascends-le lo lo' [] h a = tt
Ascends-le lo lo' (i ∷ is) h a = (omega (arith, a.0), a.1)

pub Under-le : (hi hi' : ℕ) (is : List ℕ) → hi ≤ hi' → Under hi is → Under hi' is
Under-le hi hi' [] h u = tt
Under-le hi hi' (i ∷ is) h u = (omega (arith, u.0), Under-le hi hi' is h u.1)

pub below-absent : (lo i : ℕ) (is : List ℕ) → Ascends lo is → i < lo → contains is i ≡ false
below-absent lo i [] a h = refl
below-absent lo i (j ∷ is) a h =
    ground (arith, a.0, below-absent (suc j) i is a.1 (omega (arith, a.0)))

pub above-absent : (hi i : ℕ) (is : List ℕ) → Under hi is → hi ≤ i → contains is i ≡ false
above-absent hi i [] u h = refl
above-absent hi i (j ∷ is) u h = ground (arith, u.0, above-absent hi i is u.1 h)

pub Ascends-append :
    (lo id : ℕ) (is : List ℕ) → Ascends lo is → Under id is → lo ≤ id → Ascends lo (is ++ id ∷ [])
Ascends-append lo id [] a u h = (h, tt)
Ascends-append lo id (i ∷ is) a u h =
    (a.0, Ascends-append (suc i) id is a.1 u.1 (omega (arith, u.0)))

pub Under-append : (hi id : ℕ) (is : List ℕ) → Under hi is → id < hi → Under hi (is ++ id ∷ [])
Under-append hi id [] u h = (h, tt)
Under-append hi id (i ∷ is) u h = (u.0, Under-append hi id is u.1 h)

pub Ascends-keep : (p : ℕ → Bool) (lo : ℕ) (is : List ℕ) → Ascends lo is → Ascends lo (keep p is)
Ascends-keep p lo [] a = tt
Ascends-keep p lo (i ∷ is) a = go (p i) (Ascends-keep p (suc i) is a.1)
  where
    go :
        (b : Bool)
        → Ascends (suc i) (keep p is)
        → Ascends lo (if b then i ∷ keep p is else keep p is)
    go true kept = (a.0, kept)
    go false kept = Ascends-le (suc i) lo (keep p is) (omega (arith, a.0)) kept

pub Under-keep : (p : ℕ → Bool) (hi : ℕ) (is : List ℕ) → Under hi is → Under hi (keep p is)
Under-keep p hi [] u = tt
Under-keep p hi (i ∷ is) u = go (p i) (Under-keep p hi is u.1)
  where
    go : (b : Bool) → Under hi (keep p is) → Under hi (if b then i ∷ keep p is else keep p is)
    go true kept = (u.0, kept)
    go false kept = kept

pub contains-keep :
    (p : ℕ → Bool) (is : List ℕ) (i : ℕ) → p i ≡ true → contains (keep p is) i ≡ contains is i
contains-keep p [] i h = refl
contains-keep p (j ∷ is) i h = elim (Bool-cases (p j)) [
  | inl kept ↦ rw kept (ground (arith, contains-keep p is i h))
  | inr gone ↦ rw gone (rw (contains-keep p is i h) (other (j == i) refl gone))
]
  where
    other :
        (b : Bool)
        → (j == i) ≡ b
        → p j ≡ false
        → contains is i ≡ (if b then true else contains is i)
    other true e g = let same : j ≡ i = ==→eq j i e in absurd (cc (ap p same, h, g))
    other false e g = refl
