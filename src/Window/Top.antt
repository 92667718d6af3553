-- ===== src/Window/Top.antt =====
-- What the highlighted rows are.
use simple_forwarder.Prelude.{
  ℕ, zero, suc, ◌≤◌, ◌<◌, ◌≡◌, refl, sym, ap, ◌∙◌, Bool, true, false, List, [], ◌∷◌, arith, ◌==◌,
  ==→eq, ltb, ltb→lt, ltb→le, ◌⊎◌, if◌then◌else◌, length, length-take, take, keep, map, Bool-cases,
  inl, inr,
}
use simple_forwarder.Text.{contains}
use simple_forwarder.Tracker.Defs.{ConnectionInfo}
use simple_forwarder.Window.Highlights.{
  TrafficDataSource, insert_row, sort_rows, top_rows, recompute_highlights,
}

contains-keep_both :
    (p : ℕ → Bool) (is : List ℕ) (i : ℕ)
    → contains (keep p is) i ≡ true
    → (contains is i ≡ true) × (p i ≡ true)
contains-keep_both p [] i h = absurd cc
contains-keep_both p (j ∷ is) i h = go (p j) refl (j == i) refl h (contains-keep_both p is i)
  where
    go :
        (b : Bool)
        → p j ≡ b
        → (e : Bool) → (j == i) ≡ e
        → contains (if b then j ∷ keep p is else keep p is) i ≡ true
        → (contains (keep p is) i ≡ true → (contains is i ≡ true) × (p i ≡ true))
        → ((if e then true else contains is i) ≡ true) × (p i ≡ true)
    go true b true e h rec = (refl, ap p (sym (==→eq j i e)) ∙ b)
    go true b false e h rec = rec (rw e at h)
    go false b true e h rec = (refl, (rec h).1)
    go false b false e h rec = rec h

contains-keep_kept :
    (p : ℕ → Bool) (is : List ℕ) (i : ℕ)
    → contains is i ≡ true
    → p i ≡ true
    → contains (keep p is) i ≡ true
contains-keep_kept p [] i h k = absurd cc
contains-keep_kept p (j ∷ is) i h k = elim (Bool-cases (p j)) [
  | inl kept ↦ rw kept (ground (arith, contains-keep_kept p is i, h, k))
  | inr gone ↦ rw gone (elim (Bool-cases (j == i)) [
    | inl same ↦ absurd (cc (ap p (==→eq j i same), k, gone))
    | inr other ↦ contains-keep_kept p is i (rw other at h) k
  ])
]

module _ (count : ℕ → ℕ) where
  contains-insert_row :
      (id : ℕ) (s : List ℕ) (i : ℕ) → contains (insert_row count id s) i ≡ contains (id ∷ s) i
  unfolding insert_row
  contains-insert_row id [] i = refl
  contains-insert_row id (x ∷ xs) i = elim (Bool-cases (ltb (count id) (count x))) [
    | inl less ↦ rw less (ground (arith, contains-insert_row id xs i))
    | inr more ↦ rw more refl
  ]

  contains-sort_rows : (s : List ℕ) (i : ℕ) → contains (sort_rows count s) i ≡ contains s i
  unfolding sort_rows
  contains-sort_rows [] i = refl
  contains-sort_rows (id ∷ ids) i =
      contains-insert_row id (sort_rows count ids) i
      ∙ ap (λ (b : Bool). if id == i then true else b) (contains-sort_rows ids i)

  -- Every row has at least as many bytes as those behind it.
  abbrev Falls : List ℕ → Type 0
  Falls [] = Unit
  Falls (x ∷ xs) = ((i : ℕ) → contains xs i ≡ true → count i ≤ count x) × Falls xs

  Falls-insert_row : (id : ℕ) (s : List ℕ) → Falls s → Falls (insert_row count id s)
  unfolding insert_row
  Falls-insert_row id [] f = (λ i h. absurd cc, tt)
  Falls-insert_row id (x ∷ xs) f = elim (Bool-cases (ltb (count id) (count x))) [
    | inl less ↦ rw less (
      λ i h. below i (sym (contains-insert_row id xs i) ∙ h) (ltb→lt _ _ less),
      Falls-insert_row id xs f.1,
    )
    | inr more ↦ rw more (above (ltb→le _ _ more), f)
  ]
    where
      below : (i : ℕ) → contains (id ∷ xs) i ≡ true → count id < count x → count i ≤ count x
      below i h less = elim (Bool-cases (id == i)) [
        | inl same ↦ let e : count id ≡ count i = ap count (==→eq id i same) in omega arith
        | inr other ↦ f.0 i (rw other at h)
      ]

      above : count x ≤ count id → (i : ℕ) → contains (x ∷ xs) i ≡ true → count i ≤ count id
      above le i h = elim (Bool-cases (x == i)) [
        | inl same ↦ let e : count x ≡ count i = ap count (==→eq x i same) in omega arith
        | inr other ↦ let under = f.0 i (rw other at h) in omega arith
      ]

  Falls-sort_rows : (s : List ℕ) → Falls (sort_rows count s)
  unfolding sort_rows
  Falls-sort_rows [] = tt
  Falls-sort_rows (id ∷ ids) = Falls-insert_row id (sort_rows count ids) (Falls-sort_rows ids)

  contains-take : (n : ℕ) (s : List ℕ) (i : ℕ) → contains (take n s) i ≡ true → contains s i ≡ true
  contains-take zero s i h = absurd cc
  contains-take (suc n) [] i h = absurd cc
  contains-take (suc n) (x ∷ xs) i h = ground (arith, contains-take n xs i, h)

  -- A row that is left out has no more bytes than one that is taken.
  take-Falls :
      (n : ℕ) (s : List ℕ) (i j : ℕ)
      → Falls s
      → contains (take n s) j ≡ true
      → contains s i ≡ true
      → contains (take n s) i ≡ false
      → count i ≤ count j
  take-Falls zero s i j f hj hi out = absurd cc
  take-Falls (suc n) [] i j f hj hi out = absurd cc
  take-Falls (suc n) (x ∷ xs) i j f hj hi out = elim (Bool-cases (x == i)) [
    | inl same ↦ absurd (ground arith)
    | inr other ↦ elim (Bool-cases (x == j)) [
      | inl first ↦
          let e : count x ≡ count j = ap count (==→eq x j first) in
          let under = f.0 i (rw other at hi) in omega arith
      | inr later ↦ take-Falls n xs i j f.1 (rw later at hj) (rw other at hi) (rw other at out)
    ]
  ]

  take-all_or_full :
      (n : ℕ) (s : List ℕ) (i : ℕ)
      → contains s i ≡ true
      → (contains (take n s) i ≡ true) ⊎ (length (take n s) ≡ n)
  take-all_or_full zero s i h = inr refl
  take-all_or_full (suc n) [] i h = absurd cc
  take-all_or_full (suc n) (x ∷ xs) i h = elim (Bool-cases (x == i)) [
    | inl same ↦ inl (rw same refl)
    | inr other ↦ elim (take-all_or_full n xs i (rw other at h)) [
      | inl taken ↦ inl (rw other taken)
      | inr full ↦ inr (omega arith)
    ]
  ]

  -- The highlighted rows are at most five; each has more than ten mebibytes; every row with more than that
  -- is highlighted, unless five are; and one that is not has no more bytes than any that is.
  pub record AreTop (ids top : List ℕ) : Type 0 where
    pub few : length top ≤ 5
    pub big : (i : ℕ) → contains top i ≡ true → (contains ids i ≡ true) × (10485760 < count i)
    pub all_or_five :
        (i : ℕ)
        → contains ids i ≡ true
        → 10485760 < count i
        → (contains top i ≡ true) ⊎ (length top ≡ 5)
    pub most :
        (i j : ℕ)
        → contains ids i ≡ true
        → 10485760 < count i
        → contains top i ≡ false
        → contains top j ≡ true
        → count i ≤ count j

  pub top_rows-AreTop : (ids : List ℕ) → AreTop ids (top_rows count ids)
  unfolding top_rows
  top_rows-AreTop ids = record {
    few = omega (arith, length-take 5 sorted);
    big = λ i h.
        let (there, more) =
          contains-keep_both is_big ids i
            (sym (contains-sort_rows (keep is_big ids) i) ∙ contains-take 5 sorted i h) in
        (there, ltb→lt 10485760 (count i) more);
    all_or_five = λ i there more. take-all_or_full 5 sorted i (is_there i there more);
    most = λ i j there more out in_.
        take-Falls 5 sorted i j (Falls-sort_rows (keep is_big ids)) in_ (is_there i there more) out;
  }
    where
      is_big : ℕ → Bool
      is_big id = ltb 10485760 (count id)

      sorted : List ℕ
      sorted = sort_rows count (keep is_big ids)

      is_there : (i : ℕ) → contains ids i ≡ true → 10485760 < count i → contains sorted i ≡ true
      is_there i there more =
          contains-sort_rows (keep is_big ids) i
          ∙ contains-keep_kept is_big ids i there (ground arith)

-- After the highlights are recomputed, the rows that are coloured for the bytes sent, and those for the
-- bytes received, are the top ones: at most five, each with more than ten mebibytes; every row with more than
-- that is one of them, unless there are five, and no other row has more bytes than one of them.
pub recompute_highlights-AreTop :
    (bytes_sent bytes_received : ℕ → ℕ) (ds : TrafficDataSource)
    → AreTop bytes_sent
        (map (λ (c : ConnectionInfo). c.id) ds.connections)
        (recompute_highlights bytes_sent bytes_received ds).top_sent
      × AreTop bytes_received
          (map (λ (c : ConnectionInfo). c.id) ds.connections)
          (recompute_highlights bytes_sent bytes_received ds).top_recv
unfolding recompute_highlights
recompute_highlights-AreTop bytes_sent bytes_received ds = (
  top_rows-AreTop bytes_sent (map (λ (c : ConnectionInfo). c.id) ds.connections),
  top_rows-AreTop bytes_received (map (λ (c : ConnectionInfo). c.id) ds.connections),
)
