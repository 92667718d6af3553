-- ===== src/Tracker/Tables.antt =====
-- The steps of src/connection_tracker.rs on a table with drawn ids (`IsTable`).
use simple_forwarder.Prelude.{
  ℕ, suc, ◌<◌, ◌≡◌, refl, sym, ap, ◌∙◌, true, false, not, none, some, List, [], ◌∷◌, ◌++◌, arith,
  ◌==◌, put, keep, is_some, Bool-cases, Option-cases, ==→eq, inl, inr,
}
use simple_forwarder.Text.{contains}
use simple_forwarder.Tracker.Defs.{ConnectionInfo}
use simple_forwarder.Tracker.State.{Connections, retain}
use simple_forwarder.Tracker.Ascending.{
  Under, Under-le, above-absent, Under-append, Under-keep, contains-keep,
}
use simple_forwarder.Tracker.Invariant.{
  Held, All-map, put-other, put-same, Held-put, contains-append, All-append,
}
use simple_forwarder.Tracker.Retained.{retain-none, Held-retain}
use simple_forwarder.Tracker.Distinct.{IsTable, Distinct-append, absent-keep, Distinct-keep}

-- The ids but one.
abbrev pub without : ℕ → List ℕ → List ℕ
without id is = keep (λ j. not (j == id)) is

in_without :
    (id : ℕ) (is : List ℕ) (i : ℕ)
    → contains (without id is) i ≡ true
    → (contains is i ≡ true) × ((i == id) ≡ false)
in_without id [] i h = absurd cc
in_without id (j ∷ is) i h = ground (arith, in_without id is i)

contains-snoc :
    (is : List ℕ) (k i : ℕ)
    → contains is i ≡ false
    → (i == k) ≡ false
    → contains (is ++ k ∷ []) i ≡ false
contains-snoc [] k i h g = ground arith
contains-snoc (j ∷ is) k i h g = ground (arith, contains-snoc is k i)

-- An id is drawn.
pub IsTable-draw :
    (hi : ℕ) (drawn order : List ℕ) (m : Connections)
    → IsTable hi drawn order m
    → IsTable (suc hi) (hi ∷ drawn) order m
IsTable-draw hi drawn order m x = record {
  held = x.held;
  listed = x.listed;
  distinct = x.distinct;
  under = Under-le hi (suc hi) order (omega arith) x.under;
  waiting = (omega arith, Under-le hi (suc hi) drawn (omega arith) x.waiting);
  away = λ i h. elim (Bool-cases (hi == i)) [
    | inl here ↦ above-absent hi i order x.under (ground arith)
    | inr other ↦ x.away i (ground arith)
  ];
}

contained-lt : (hi : ℕ) (is : List ℕ) (i : ℕ) → Under hi is → contains is i ≡ true → i < hi
contained-lt hi [] i u h = absurd cc
contained-lt hi (j ∷ is) i u h = ground (arith, contained-lt hi is i u.1)

-- A drawn id is inserted, at the end of the order.
pub IsTable-insert :
    (hi : ℕ) (c : ConnectionInfo) (drawn order : List ℕ) (m : Connections)
    → IsTable hi drawn order m
    → contains drawn c.id ≡ true
    → IsTable hi (without c.id drawn) (order ++ c.id ∷ []) (put c.id (some c) m)
IsTable-insert hi c drawn order m x d =
    let absent : contains order c.id ≡ false = x.away c.id d in
    record {
      held =
          All-append (Held (put c.id (some c) m)) order c.id
            (Held-put c.id (some c) m order absent x.held) (c, put-same c.id (some c) m, refl);
      listed = λ i h.
          put-other c.id (some c) m i (contains-append order c.id i h).1
          ∙ x.listed i (contains-append order c.id i h).0;
      distinct = Distinct-append order c.id x.distinct absent;
      under = Under-append hi c.id order x.under (contained-lt hi drawn c.id x.waiting d);
      waiting = Under-keep (λ j. not (j == c.id)) hi drawn x.waiting;
      away = λ i h.
          let (there, other) = in_without c.id drawn i h in
          contains-snoc order c.id i (x.away i there) other;
    }

-- An entry is changed, but not its id.
pub IsTable-update :
    (hi id : ℕ) (c d : ConnectionInfo) (drawn order : List ℕ) (m : Connections)
    → IsTable hi drawn order m
    → m id ≡ some c
    → d.id ≡ c.id
    → IsTable hi drawn order (put id (some d) m)
IsTable-update hi id c d drawn order m x e same = record {
  held = All-map (Held m) (Held (put id (some d) m)) order held_still x.held;
  listed = listed_still;
  distinct = x.distinct;
  under = x.under;
  waiting = x.waiting;
  away = x.away;
}
  where
    held_still : (i : ℕ) → contains order i ≡ true → Held m i → Held (put id (some d) m) i
    held_still i here (b, f, named) = elim (Bool-cases (i == id)) [
      | inl hit ↦
          let at_id : i ≡ id = ==→eq i id hit in
          let same_entry : some b ≡ some c = sym f ∙ ap m at_id ∙ e in (d, rw hit, cc)
      | inr other ↦ (b, put-other id (some d) m i other ∙ f, named)
    ]

    listed_still : (i : ℕ) → contains order i ≡ false → put id (some d) m i ≡ none
    listed_still i absent = elim (Bool-cases (i == id)) [
      | inl hit ↦
          let at_id : i ≡ id = ==→eq i id hit in absurd (cc (x.listed i absent, ap m at_id, e))
      | inr other ↦ put-other id (some d) m i other ∙ x.listed i absent
    ]

-- Clean-up.
pub IsTable-retain :
    (hi now : ℕ) (drawn order : List ℕ) (m : Connections)
    → IsTable hi drawn order m
    → IsTable hi drawn (keep (λ i. is_some (retain now m i)) order) (retain now m)
IsTable-retain hi now drawn order m x = record {
  held = Held-retain now m order x.held;
  listed = listed_kept;
  distinct = Distinct-keep (λ i. is_some (retain now m i)) order x.distinct;
  under = Under-keep (λ i. is_some (retain now m i)) hi order x.under;
  waiting = x.waiting;
  away = λ i h. absent-keep (λ i. is_some (retain now m i)) order i (x.away i h);
}
  where
    listed_kept :
        (i : ℕ)
        → contains (keep (λ i. is_some (retain now m i)) order) i ≡ false
        → retain now m i ≡ none
    listed_kept i h = elim (Option-cases (retain now m i)) [
      | inl gone ↦ gone
      | inr (c, there) ↦ retain-none now m i (
          x.listed i
            (sym (contains-keep (λ i. is_some (retain now m i)) order i (ap is_some there)) ∙ h))
    ]
