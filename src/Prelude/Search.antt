-- ===== src/Prelude/Search.antt =====
-- `position`, and how two ways to cut a text in two compare.
use Prim.Native.Nat.{ℕ, zero, suc, ◌<◌}
use mathlib.Core.Path.{◌≡◌, refl}
use mathlib.Core.Logic.{◌⊎◌, inl, inr}
use mathlib.Core.List.{List, [], ◌∷◌, ◌++◌}
use mathlib.Core.Option
use mathlib.Core.Option.{Option, none, some}
use native.Mathlib.Omega.{arith}
use simple_forwarder.Prelude.Tests.{◌==◌, if◌then◌else◌}
use simple_forwarder.Prelude.Lists.{length}

-- The index of the first `b`: `iter().position(|&x| x == b)`.
abbrev pub position : ℕ → List ℕ → Option ℕ
position b [] = none
position b (x ∷ xs) = if x == b then some 0 else Option.map (λ i. suc i) (position b xs)

-- A text without the byte, in front of the byte.
pub position_found :
    (b : ℕ) (s t : List ℕ) → position b s ≡ none → position b (s ++ b ∷ t) ≡ some (length s)
position_found b [] t h = ground arith
position_found b (x ∷ s) t h = ground (arith, position_found b s t)

pub position-append_some :
    (b : ℕ) (s t : List ℕ) {p : ℕ} → position b s ≡ some p → position b (s ++ t) ≡ some p
position-append_some b [] t h = cc
position-append_some b (x ∷ s) t {p} h =
    elim p as (λ p. position b (x ∷ s) ≡ some p → position b (x ∷ s ++ t) ≡ some p) [
      | zero ↦ λ k. ground arith
      | suc q ↦ λ k. ground (arith, position-append_some b s t {p = q})
    ]
      h

pub position-append_none : (b : ℕ) (s t : List ℕ) → position b (s ++ t) ≡ none → position b s ≡ none
position-append_none b [] t h = refl
position-append_none b (x ∷ s) t h = ground (arith, position-append_none b s t)

-- Where a text is cut at `b` and also behind `h`, one cut is in the other's part.
abbrev pub Overlap : List ℕ → List ℕ → List ℕ → List ℕ → Type 0
Overlap b t h r =
    ((more : List ℕ) × (b ≡ h ++ more) × (more ++ t ≡ r))
    ⊎ ((c : ℕ) × (left : List ℕ) × (h ≡ b ++ c ∷ left))

pub overlap : (b t h r : List ℕ) → b ++ t ≡ h ++ r → Overlap b t h r
overlap b t [] r e = inl (b, refl, e)
overlap [] t (c ∷ h) r e = inr (c, h, refl)
overlap (x ∷ b) t (c ∷ h) r e = elim (overlap b t h r (ground arith)) [
  | inl (more, p, q) ↦ inl (more, ground arith, q)
  | inr (d, left, p) ↦ inr (d, left, ground arith)
]

pub position-lt : (b : ℕ) (s : List ℕ) {p : ℕ} → position b s ≡ some p → p < length s
position-lt b [] h = cc
position-lt b (x ∷ s) {p} h =
    elim p as (λ p. position b (x ∷ s) ≡ some p → p < length (x ∷ s)) [
      | zero ↦ λ k. omega arith
      | suc q ↦ λ k. ground (arith, position-lt b s {p = q})
    ]
      h
