-- ===== src/Server/Naming/Once.antt =====
-- How often the background task of `handle_connection` looks for a name, and how often it writes one.
use simple_forwarder.Prelude.{
  ℕ, suc, ◌-◌, ◌≤◌, ◌≡◌, ◌≢◌, refl, ap, ◌⊎◌, inl, inr, arith, Option, none, some, List, [], ◌∷◌,
}
use simple_forwarder.Text.{Bytes}
use simple_forwarder.Tracker.State.{Tracker, set_exe_name}
use simple_forwarder.Resolver.Netstat.{Socket}
use simple_forwarder.Resolver.Defs.{ExeResolver}
use simple_forwarder.Resolver.Trace.{on_event}
use simple_forwarder.Server.Naming.{
  Attempt, first_lookup, retry_later, over, Naming, new_naming, Turn, looks, traced, found, look,
  take_turn, take_turns,
}

module _ (conn_id sport : ℕ) where
  abbrev WritesOnce : Tracker → Naming → Type 0
  WritesOnce t n =
      (n.tracker ≡ t)
      ⊎ ((exe : Bytes) × (n.tracker ≡ set_exe_name conn_id exe t) × (n.attempt ≡ over))

  found-WritesOnce :
      (next : Attempt) (x : Option Bytes × ExeResolver) (t : Tracker) (n : Naming)
      → n.tracker ≡ t
      → WritesOnce t (found conn_id sport next x n)
  unfolding found
  found-WritesOnce next (some exe, r) t n h = inr (exe, ap (set_exe_name conn_id exe) h, refl)
  found-WritesOnce next (none, r) t n h = inl h

  untouched : (t : Tracker) (n : Naming) → n.attempt ≢ over → WritesOnce t n → n.tracker ≡ t
  untouched t n runs (inl h) = h
  untouched t n runs (inr (exe, h, o)) = absurd (runs o)

  look-WritesOnce :
      (a : Attempt) (exe_of : ℕ → Option Bytes) (sockets : Option (List Socket)) (now : ℕ)
      (t : Tracker) (n : Naming)
      → n.attempt ≡ a
      → WritesOnce t n
      → WritesOnce t (look conn_id sport a exe_of sockets now n)
  unfolding look
  look-WritesOnce first_lookup exe_of sockets now t n e h =
      found-WritesOnce retry_later _ t n (untouched t n (λ o. absurd (cc (e, o))) h)
  look-WritesOnce retry_later exe_of sockets now t n e h =
      found-WritesOnce over _ t n (untouched t n (λ o. absurd (cc (e, o))) h)
  look-WritesOnce over exe_of sockets now t n e h = h

  -- How many lookups are left at most.
  abbrev left : Attempt → ℕ
  left first_lookup = 2
  left retry_later = 1
  left over = 0

  left-found :
      (next : Attempt) (x : Option Bytes × ExeResolver) (n : Naming)
      → left (found conn_id sport next x n).attempt ≤ left next
  unfolding found
  left-found next (some exe, r) n = omega arith
  left-found next (none, r) n = omega arith

  left-look :
      (a : Attempt) (exe_of : ℕ → Option Bytes) (sockets : Option (List Socket)) (now : ℕ)
      (n : Naming)
      → n.attempt ≡ a
      → left (look conn_id sport a exe_of sockets now n).attempt ≤ left a - 1
  unfolding look
  left-look first_lookup exe_of sockets now n e = left-found retry_later _ n
  left-look retry_later exe_of sockets now n e = left-found over _ n
  left-look over exe_of sockets now n e = rw e (omega arith)

  none_left : (a : Attempt) → left a ≤ 0 → a ≡ over
  none_left first_lookup h = absurd (omega arith)
  none_left retry_later h = absurd (omega arith)
  none_left over h = refl

  -- The lookups among the turns.
  abbrev pub lookups : List Turn → ℕ
  lookups [] = 0
  lookups (looks exe_of sockets now ∷ ts) = suc (lookups ts)
  lookups (traced now e ∷ ts) = lookups ts

  -- The task has written one name at most, and only as its last step; it is over within this many
  -- lookups.
  pub record IsNaming (t : Tracker) (n : Naming) (k : ℕ) : Type 0 where
    pub once : WritesOnce t n
    pub remaining : left n.attempt ≤ k

  take_turns-IsNaming :
      (ts : List Turn) (t : Tracker) (n : Naming) (k : ℕ)
      → IsNaming t n k
      → IsNaming t (take_turns conn_id sport ts n) (k - lookups ts)
  unfolding take_turns take_turn
  take_turns-IsNaming [] t n k h = record { once = h.once; remaining = omega (arith, h.remaining) }
  take_turns-IsNaming (looks exe_of sockets now ∷ ts) t n k h =
      let after =
        take_turns-IsNaming ts t (look conn_id sport n.attempt exe_of sockets now n) (k - 1)
          (record {
            once = look-WritesOnce n.attempt exe_of sockets now t n refl h.once;
            remaining = omega (arith, h.remaining, left-look n.attempt exe_of sockets now n refl);
          }) in
      record { once = after.once; remaining = omega (arith, after.remaining) }
  take_turns-IsNaming (traced now e ∷ ts) t n k h =
      take_turns-IsNaming ts t (record n { resolver = on_event now e n.resolver }) k
        (record { once = h.once; remaining = h.remaining })

  -- Whatever the system answers and the trace reports: after two lookups the task is over, and it has
  -- left the table as it was or has written one name to its connection's row.
  pub take_turns-over :
      (ts : List Turn) (r : ExeResolver) (t : Tracker)
      → 2 ≤ lookups ts
      → (let n = take_turns conn_id sport ts (new_naming r t) in
          (n.attempt ≡ over)
          × ((n.tracker ≡ t) ⊎ ((exe : Bytes) × (n.tracker ≡ set_exe_name conn_id exe t))))
  take_turns-over ts r t enough = (
    none_left _ (omega (arith, h.remaining, enough)),
    forget (take_turns conn_id sport ts (new_naming r t)) h.once,
  )
    where
      h : IsNaming t (take_turns conn_id sport ts (new_naming r t)) (2 - lookups ts)
      h =
          take_turns-IsNaming ts t (new_naming r t) 2
            (record { once = inl refl; remaining = omega arith })

      forget :
          (n : Naming)
          → WritesOnce t n
          → (n.tracker ≡ t) ⊎ ((exe : Bytes) × (n.tracker ≡ set_exe_name conn_id exe t))
      forget n (inl e) = inl e
      forget n (inr (exe, e, o)) = inr (exe, e)
