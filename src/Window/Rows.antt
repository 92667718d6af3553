-- ===== src/Window/Rows.antt =====
-- The rows that two snapshots share.
use simple_forwarder.Prelude.{
  ℕ, suc, ◌≤◌, ◌<◌, ◌≡◌, refl, sym, ap, ◌∙◌, ◌⊎◌, inl, inr, Bool, true, false, List, [], ◌∷◌, arith,
  ◌==◌, ltb, ltb→lt, ltb→le, if◌then◌else◌, keep, Bool-cases,
}
use simple_forwarder.Text.{contains}
use simple_forwarder.Tracker.Ascending.{Ascends, Ascends-le, below-absent}

pub keep-agree :
    (p q : ℕ → Bool) (is : List ℕ)
    → ((i : ℕ) → contains is i ≡ true → p i ≡ q i)
    → keep p is ≡ keep q is
keep-agree p q [] h = refl
keep-agree p q (i ∷ is) h = rw (h i (ground arith)) (
    ap (λ (r : List ℕ). if q i then i ∷ r else r)
      (keep-agree p q is (λ j here. h j (ground (arith, here)))))

-- An entry under the bound of the list is not in it.
differs :
    (lo i j : ℕ) (is : List ℕ) → Ascends lo is → contains is i ≡ true → j < lo → (j == i) ≡ false
differs lo i j is a here small = elim (Bool-cases (ltb i lo)) [
  | inl low ↦ absurd (cc (here, below-absent lo i is a (ltb→lt i lo low)))
  | inr high ↦ let far : lo ≤ i = ltb→le i lo high in ground arith
]

-- A key under all entries can be left out of the other list.
keep-cons :
    (lo k : ℕ) (ks is : List ℕ)
    → Ascends lo is
    → k < lo
    → keep (contains (k ∷ ks)) is ≡ keep (contains ks) is
keep-cons lo k ks is a small =
    keep-agree (contains (k ∷ ks)) (contains ks) is
      (λ i here. rw (differs lo i k is a here small) refl)

keep-none : (is : List ℕ) → keep (contains []) is ≡ []
keep-none [] = refl
keep-none (i ∷ is) = keep-none is

split : (a b : ℕ) → (a < b) ⊎ (a ≡ b) ⊎ (b < a)
split a b = elim (Bool-cases (ltb a b)) [
  | inl less ↦ inl (ltb→lt a b less)
  | inr most ↦ elim (Bool-cases (ltb b a)) [
    | inl more ↦ inr (inr (ltb→lt b a more))
    | inr still ↦ inr (inl (omega (arith, ltb→le a b most, ltb→le b a still)))
  ]
]

-- Two ascending lists share the same entries in the same order.
pub keep-shared :
    (lo : ℕ) (xs ys : List ℕ)
    → Ascends lo xs
    → Ascends lo ys
    → keep (contains ys) xs ≡ keep (contains xs) ys
keep-shared lo [] ys p q = sym (keep-none ys)
keep-shared lo (a ∷ xs) [] p q = keep-none xs
keep-shared lo (a ∷ xs) (b ∷ ys) p q = elim (split a b) [
  | inl less ↦
      let gone = below-absent b a (b ∷ ys) (omega arith, q.1) less in
      rw gone (
        keep-shared lo xs (b ∷ ys) (Ascends-le (suc a) lo xs (omega (arith, p.0)) p.1) q
        ∙ sym (keep-cons b a xs (b ∷ ys) (omega arith, q.1) less))
  | inr (inl same) ↦
      let hit : (b == a) ≡ true = ground arith in
      let hit' : (a == b) ≡ true = ground arith in
      rw (hit, hit')
        (ap (λ (r : List ℕ). a ∷ r)
            (keep-cons (suc a) b ys xs p.1 (omega arith)
              ∙ keep-shared (suc a) xs ys p.1 (Ascends-le (suc b) (suc a) ys (omega arith) q.1)
              ∙ sym (keep-cons (suc b) a xs ys q.1 (omega arith)))
          ∙ ap (λ (x : ℕ). x ∷ keep (contains (a ∷ xs)) ys) same)
  | inr (inr more) ↦
      let gone = below-absent a b (a ∷ xs) (omega arith, p.1) more in
      rw gone (
        keep-cons a b ys (a ∷ xs) (omega arith, p.1) more
        ∙ keep-shared lo (a ∷ xs) ys p (Ascends-le (suc b) lo ys (omega (arith, q.0)) q.1))
]
