-- ===== src/Tracker/Retained.antt =====
-- What clean-up keeps of the table (`cleanup` of src/connection_tracker.rs).
use simple_forwarder.Prelude.{
  ℕ, ◌≡◌, refl, sym, ap, ◌∙◌, Bool, true, false, Option, none, some, List, [], ◌∷◌, if◌then◌else◌,
  keep, All, is_some, Option-cases, Bool-cases, inl, inr,
}
use simple_forwarder.Text.{contains}
use simple_forwarder.Tracker.Defs.{ConnectionInfo}
use simple_forwarder.Tracker.State.{Connections, is_retained, retain}
use simple_forwarder.Tracker.Ascending.{Ascends-keep, Under-keep, contains-keep}
use simple_forwarder.Tracker.Invariant.{Held, Indexed}

abbrev kept_entry : Bool → ConnectionInfo → Option ConnectionInfo
kept_entry b c = if b then some c else none

pub retain-none : (now : ℕ) (m : Connections) (i : ℕ) → m i ≡ none → retain now m i ≡ none
unfolding retain
retain-none now m i e = rw (e, retain)

pub retain-some :
    (now : ℕ) (m : Connections) (i : ℕ) (c : ConnectionInfo)
    → m i ≡ some c
    → retain now m i ≡ kept_entry (is_retained now c) c
unfolding retain
retain-some now m i c e = rw (e, retain)

pub retain-Held :
    (now : ℕ) (m : Connections) (i : ℕ)
    → Held m i
    → is_some (retain now m i) ≡ true
    → Held (retain now m) i
retain-Held now m i (c, e, named) there = elim (Bool-cases (is_retained now c)) [
  | inl live ↦ (c, retain-some now m i c e ∙ ap (λ (b : Bool). kept_entry b c) live, named)
  | inr stale ↦
      let gone : retain now m i ≡ none =
        retain-some now m i c e ∙ ap (λ (b : Bool). kept_entry b c) stale in
      absurd (cc (ap is_some gone, there))
]

pub Held-retain :
    (now : ℕ) (m : Connections) (is : List ℕ)
    → All (Held m) is
    → All (Held (retain now m)) (keep (λ i. is_some (retain now m i)) is)
Held-retain now m [] a = tt
Held-retain now m (i ∷ is) a =
    go (is_some (retain now m i)) (retain-Held now m i a.0) (Held-retain now m is a.1)
  where
    rest : List ℕ
    rest = keep (λ j. is_some (retain now m j)) is

    go :
        (b : Bool)
        → (b ≡ true → Held (retain now m) i)
        → All (Held (retain now m)) rest
        → All (Held (retain now m)) (if b then i ∷ rest else rest)
    go true h kept = (h refl, kept)
    go false h kept = kept

-- Clean-up leaves a table.
pub Indexed-retain :
    (lo hi now : ℕ) (order : List ℕ) (m : Connections)
    → Indexed lo hi order m
    → Indexed lo hi (keep (λ i. is_some (retain now m i)) order) (retain now m)
Indexed-retain lo hi now order m x = record {
  held = Held-retain now m order x.held;
  listed = listed_kept;
  ascends = Ascends-keep (λ i. is_some (retain now m i)) lo order x.ascends;
  under = Under-keep (λ i. is_some (retain now m i)) hi order x.under;
}
  where
    listed_kept :
        (i : ℕ)
        → contains (keep (λ i. is_some (retain now m i)) order) i ≡ false
        → retain now m i ≡ none
    listed_kept i h = elim (Option-cases (retain now m i)) [
      | inl gone ↦ gone
      | inr (c, there) ↦ retain-none now m i (
          x.listed i
            (sym (contains-keep (λ i. is_some (retain now m i)) order i (ap is_some there)) ∙ h))
    ]
