-- ===== src/Tracker/Invariant.antt =====
-- What holds of the table while no calls of `register` overlap: the entries and the order name the same
-- connections, each once, oldest first, and there are never more than the limit.
use simple_forwarder.Prelude.{
  ℕ, suc, ◌≤◌, ◌≡◌, refl, sym, ap, ◌∙◌, Bool, true, false, Option, none, some, List, [], ◌∷◌, ◌++◌,
  arith, ◌==◌, ltb, length, All, put, Bool-cases, ltb→le, ==→eq, inl, inr,
}
use simple_forwarder.Text.{contains}
use simple_forwarder.Tracker.Defs.{ConnectionInfo}
use simple_forwarder.Tracker.State.{Connections, Tracker, max_connections, evict}
use simple_forwarder.Tracker.Ascending.{
  Ascends, Under, Ascends-le, Under-le, below-absent, above-absent, Ascends-append, Under-append,
}

-- The table has an entry for the id, and the entry carries it.
abbrev pub Held : Connections → ℕ → Type 0
Held m i = (c : ConnectionInfo) × (m i ≡ some c) × (c.id ≡ i)

-- The order lists just the entries.
pub record Indexed (lo hi : ℕ) (order : List ℕ) (m : Connections) : Type 0 where
  pub held : All (Held m) order
  pub listed : (i : ℕ) → contains order i ≡ false → m i ≡ none
  pub ascends : Ascends lo order
  pub under : Under hi order

pub record IsTracker (t : Tracker) : Type 0 where
  pub indexed : Indexed 0 t.next_id t.order t.connections
  pub bounded : length t.order ≤ max_connections

pub All-map :
    (P Q : ℕ → Type 0) (is : List ℕ)
    → ((i : ℕ) → contains is i ≡ true → P i → Q i)
    → All P is
    → All Q is
All-map P Q [] f a = tt
All-map P Q (i ∷ is) f a =
    (f i (ground arith) a.0, All-map P Q is (λ j h. f j (ground (arith, h))) a.1)

pub put-other :
    {A : Type 0} (k : ℕ) (v : Option A) (m : ℕ → Option A) (i : ℕ)
    → (i == k) ≡ false
    → put k v m i ≡ m i
put-other k v m i h = rw h

pub put-same : {A : Type 0} (k : ℕ) (v : Option A) (m : ℕ → Option A) → put k v m k ≡ v
put-same k v m = ground arith

-- Of two keys, one of which stands in the list and the other does not, neither is the other.
pub apart :
    (is : List ℕ) (i k : ℕ) → contains is i ≡ true → contains is k ≡ false → (i == k) ≡ false
apart [] i k h g = absurd cc
apart (j ∷ is) i k h g = ground (arith, apart is i k)

pub Held-put :
    (k : ℕ) (v : Option ConnectionInfo) (m : Connections) (is : List ℕ)
    → contains is k ≡ false
    → All (Held m) is
    → All (Held (put k v m)) is
Held-put k v m is absent =
    All-map (Held m) (Held (put k v m)) is
      (λ i here h. (h.0, put-other k v m i (apart is i k here absent) ∙ h.1, h.2))

-- Dropping the oldest leaves a table.
Indexed-tail :
    (lo hi i : ℕ) (is : List ℕ) (m : Connections)
    → Indexed lo hi (i ∷ is) m
    → Indexed lo hi is (put i none m)
Indexed-tail lo hi i is m x = record {
  held = Held-put i none m is (below-absent (suc i) i is x.ascends.1 (omega arith)) x.held.1;
  listed = gone;
  ascends = Ascends-le (suc i) lo is (omega (arith, x.ascends.0)) x.ascends.1;
  under = x.under.1;
}
  where
    gone : (j : ℕ) → contains is j ≡ false → put i none m j ≡ none
    gone j h = elim (Bool-cases (j == i)) [
      | inl same ↦ rw same
      | inr other ↦ rw other (x.listed j (ground arith))
    ]

pub Indexed-evict :
    (limit lo hi : ℕ) (order : List ℕ) (m : Connections)
    → Indexed lo hi order m
    → Indexed lo hi (evict limit order m).0 (evict limit order m).1
      × (length (evict limit order m).0 ≤ limit)
unfolding evict
Indexed-evict limit lo hi [] m x = (x, omega arith)
Indexed-evict limit lo hi (i ∷ is) m x =
    go (ltb limit (length (i ∷ is))) refl
      (Indexed-evict limit lo hi is (put i none m) (Indexed-tail lo hi i is m x))
  where
    After : List ℕ × Connections → Type 0
    After r = Indexed lo hi r.0 r.1 × (length r.0 ≤ limit)

    go :
        (b : Bool)
        → ltb limit (length (i ∷ is)) ≡ b
        → After (evict limit is (put i none m))
        → After (elim b [ true ↦ evict limit is (put i none m) | false ↦ (i ∷ is, m) ])
    go true e rest = rest
    go false e rest = (x, omega (arith, ltb→le limit (length (i ∷ is)) e))

-- The id that `next_id` gives is not in use.
pub fresh_absent :
    (lo hi : ℕ) (order : List ℕ) (m : Connections) → Indexed lo hi order m → m hi ≡ none
fresh_absent lo hi order m x = x.listed hi (above-absent hi hi order x.under (omega arith))

pub contains-append :
    (is : List ℕ) (k i : ℕ)
    → contains (is ++ k ∷ []) i ≡ false
    → (contains is i ≡ false) × ((i == k) ≡ false)
contains-append [] k i h = (refl, ground arith)
contains-append (j ∷ is) k i h = ground (arith, contains-append is k i)

pub All-append : (P : ℕ → Type 0) (is : List ℕ) (k : ℕ) → All P is → P k → All P (is ++ k ∷ [])
All-append P [] k a p = (p, tt)
All-append P (i ∷ is) k a p = (a.0, All-append P is k a.1 p)

-- A new connection goes to the end of the order.
pub Indexed-insert :
    (hi : ℕ) (c : ConnectionInfo) (order : List ℕ) (m : Connections)
    → Indexed 0 hi order m
    → c.id ≡ hi
    → Indexed 0 (suc hi) (order ++ hi ∷ []) (put hi (some c) m)
Indexed-insert hi c order m x named = record {
  held =
      All-append (Held (put hi (some c) m)) order hi
        (Held-put hi (some c) m order (above-absent hi hi order x.under (omega arith)) x.held)
        (c, put-same hi (some c) m, named);
  listed = λ i h.
      put-other hi (some c) m i (contains-append order hi i h).1
      ∙ x.listed i (contains-append order hi i h).0;
  ascends = Ascends-append 0 hi order x.ascends x.under (omega arith);
  under =
      Under-append (suc hi) hi order (Under-le hi (suc hi) order (omega arith) x.under)
        (omega arith);
}

-- An entry is changed, but not its id.
pub Indexed-update :
    (lo hi id : ℕ) (c d : ConnectionInfo) (order : List ℕ) (m : Connections)
    → Indexed lo hi order m
    → m id ≡ some c
    → d.id ≡ c.id
    → Indexed lo hi order (put id (some d) m)
Indexed-update lo hi id c d order m x e same = record {
  held = All-map (Held m) (Held (put id (some d) m)) order held_still x.held;
  listed = listed_still;
  ascends = x.ascends;
  under = x.under;
}
  where
    held_still : (i : ℕ) → contains order i ≡ true → Held m i → Held (put id (some d) m) i
    held_still i here (b, f, named) = elim (Bool-cases (i == id)) [
      | inl hit ↦
          let at_id : i ≡ id = ==→eq i id hit in
          let same_entry : some b ≡ some c = sym f ∙ ap m at_id ∙ e in (d, rw hit, cc)
      | inr other ↦ (b, put-other id (some d) m i other ∙ f, named)
    ]

    listed_still : (i : ℕ) → contains order i ≡ false → put id (some d) m i ≡ none
    listed_still i absent = elim (Bool-cases (i == id)) [
      | inl hit ↦
          let at_id : i ≡ id = ==→eq i id hit in absurd (cc (x.listed i absent, ap m at_id, e))
      | inr other ↦ put-other id (some d) m i other ∙ x.listed i absent
    ]
