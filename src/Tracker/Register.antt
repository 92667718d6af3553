-- ===== src/Tracker/Register.antt =====
-- What `register` changes: the new connection is there, and only the oldest may go.
use simple_forwarder.Prelude.{
  ℕ, ◌≤◌, ◌<◌, ◌≡◌, ◌≢◌, ◌⊎◌, refl, ap, ◌∙◌, Bool, true, false, none, some, List, [], ◌∷◌, ◌++◌,
  arith, ◌==◌, ltb, ltb→lt, ltb→le, if◌then◌else◌, length, length-append, take, put, Bool-cases,
  inl, inr,
}
use simple_forwarder.Text.{Bytes, contains}
use simple_forwarder.Tracker.State.{
  Connections, Tracker, max_connections, evict, fresh_info, register,
}
use simple_forwarder.Tracker.Ascending.{Under}
use simple_forwarder.Tracker.Invariant.{IsTracker, fresh_absent}

evict_fits :
    (limit : ℕ) (order : List ℕ) (m : Connections)
    → length order ≤ limit
    → evict limit order m ≡ (order, m)
unfolding evict
evict_fits limit [] m h = refl
evict_fits limit (i ∷ is) m h = rw (fits (ltb limit (length (i ∷ is))) refl, evict)
  where
    fits : (b : Bool) → ltb limit (length (i ∷ is)) ≡ b → ltb limit (length (i ∷ is)) ≡ false
    fits true e = absurd (omega (arith, ltb→lt limit (length (i ∷ is)) e))
    fits false e = e

evict_one :
    (limit i : ℕ) (is : List ℕ) (m : Connections)
    → length is ≡ limit
    → evict limit (i ∷ is) m ≡ (is, put i none m)
unfolding evict
evict_one limit i is m h =
    rw (over (ltb limit (length (i ∷ is))) refl, evict)
      (evict_fits limit is (put i none m) (omega arith))
  where
    over : (b : Bool) → ltb limit (length (i ∷ is)) ≡ b → ltb limit (length (i ∷ is)) ≡ true
    over true e = e
    over false e = absurd (omega (arith, ltb→le limit (length (i ∷ is)) e))

-- The connection that must go, if any does.
abbrev pub Spared : ℕ → List ℕ → ℕ → Type 0
Spared limit order j = (length order < limit) ⊎ (contains (take 1 order) j ≡ false)

insert_evict :
    (limit id : ℕ) (order : List ℕ) (m : Connections) (j : ℕ)
    → 0 < limit
    → length order ≤ limit
    → Spared limit order j
    → (evict limit (order ++ id ∷ []) m).1 j ≡ m j
insert_evict limit id [] m j pos h spared =
    ap (λ (r : List ℕ × Connections). r.1 j) (evict_fits limit (id ∷ []) m (omega arith))
insert_evict limit id (i ∷ is) m j pos h spared = elim (Bool-cases (ltb (length (i ∷ is)) limit)) [
  | inl room ↦
      ap (λ (r : List ℕ × Connections). r.1 j)
        (evict_fits limit (i ∷ is ++ id ∷ []) m
          (omega (arith, ltb→lt _ _ room, length-append (i ∷ is) (id ∷ []))))
  | inr full ↦
      ap (λ (r : List ℕ × Connections). r.1 j)
        (evict_one limit i (is ++ id ∷ []) m
          (omega (arith, ltb→le _ _ full, length-append is (id ∷ []))))
      ∙ other (j == i) refl spared (ltb→le _ _ full)
]
  where
    other :
        (b : Bool)
        → (j == i) ≡ b
        → Spared limit (i ∷ is) j
        → limit ≤ length (i ∷ is)
        → (if b then none else m j) ≡ m j
    other true e (inl room) full = absurd (omega arith)
    other true e (inr away) full = absurd (ground arith)
    other false e s full = refl

fresh_spared : (id : ℕ) (order : List ℕ) → Under id order → contains (take 1 order) id ≡ false
fresh_spared id [] u = refl
fresh_spared id (i ∷ is) u = ground (arith, u.0)

module _ (source_ip outbound_target proxy_protocol start_time : Bytes) (t : Tracker)
    (w : IsTracker t) where
  -- A new connection gets an id that no entry of the tracker has, and its entry is in the tracker
  -- afterwards, full or not.
  pub register-fresh :
      (t.connections t.next_id ≡ none)
      × ((register source_ip outbound_target proxy_protocol start_time t).0 ≡ t.next_id)
      × ((register source_ip outbound_target proxy_protocol start_time t).1.connections t.next_id
          ≡ some (fresh_info t.next_id source_ip outbound_target proxy_protocol start_time))
  unfolding register
  register-fresh =
      let gone = fresh_absent 0 t.next_id t.order t.connections w.indexed in
      (
        gone,
        refl,
        insert_evict max_connections t.next_id t.order
              (put t.next_id
                (some (fresh_info t.next_id source_ip outbound_target proxy_protocol start_time))
                t.connections)
              t.next_id (omega arith) w.bounded
              (inr (fresh_spared t.next_id t.order w.indexed.under))
            ∙ ground arith,
      )

  -- Every other connection is left as it was, but for the oldest of 5000.
  pub register-others :
      (j : ℕ)
      → j ≢ t.next_id
      → Spared max_connections t.order j
      → (register source_ip outbound_target proxy_protocol start_time t).1.connections j
        ≡ t.connections j
  unfolding register
  register-others j other spared =
      insert_evict max_connections t.next_id t.order
        (put t.next_id
          (some (fresh_info t.next_id source_ip outbound_target proxy_protocol start_time))
          t.connections)
        j (omega arith) w.bounded spared
      ∙ ground arith
