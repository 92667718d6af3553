-- ===== src/Resolver/Cache.antt =====
-- The two caches: hash maps from a port to a value and the instant at which it was put there.
use simple_forwarder.Prelude.{
  ℕ, ◌-◌, ◌≡◌, refl, Bool, true, false, Option, none, some, List, [], ◌∷◌, arith, ltb, ◌==◌,
  if◌then◌else◌, length, keep,
}

abbrev pub Cache : Type 0 → Type 0
Cache V = List (ℕ × V × ℕ)

abbrev pub exe_cache_capacity : ℕ
exe_cache_capacity = 1000

-- thirty seconds, in nanoseconds
abbrev pub exe_cache_ttl : ℕ
exe_cache_ttl = 30000000000

module _ {V : Type 0} where
  abbrev pub get : Cache V → ℕ → Option V
  get [] port = none
  get ((p, v, time) ∷ m) port = if p == port then some v else get m port

  abbrev pub remove_key : ℕ → Cache V → Cache V
  remove_key port [] = []
  remove_key port ((p, v, time) ∷ m) =
      let rest = remove_key port m in if p == port then rest else (p, v, time) ∷ rest

  abbrev pub insert : ℕ → V → ℕ → Cache V → Cache V
  insert port v now m = (port, v, now) ∷ remove_key port m

  abbrev pub is_fresh : ℕ → ℕ × V × ℕ → Bool
  is_fresh now (p, v, time) = ltb (now - time) exe_cache_ttl

  -- Over capacity, what is thirty seconds old goes.
  unfoldable pub evict_stale_entries : ℕ → Cache V → Cache V
  evict_stale_entries now m = if ltb exe_cache_capacity (length m) then keep (is_fresh now) m else m

module _ {V : Type 0} where
  pub get-remove_key : (port : ℕ) (m : Cache V) → get (remove_key port m) port ≡ none
  get-remove_key port [] = refl
  get-remove_key port ((p, v, time) ∷ m) = go (p == port) refl (get-remove_key port m)
    where
      go :
          (b : Bool)
          → (p == port) ≡ b
          → get (remove_key port m) port ≡ none
          → get (if b then remove_key port m else (p, v, time) ∷ remove_key port m) port ≡ none
      go true e rest = rest
      go false e rest = ground (arith, rest)

  -- What has just been put in survives the eviction that follows.
  pub get-evict-insert :
      (port : ℕ) (v : V) (now : ℕ) (m : Cache V)
      → get (evict_stale_entries now (insert port v now m)) port ≡ some v
  unfolding evict_stale_entries
  get-evict-insert port v now m = go (ltb exe_cache_capacity (length (insert port v now m)))
    where
      new_is_fresh : is_fresh now (port, v, now) ≡ true
      new_is_fresh = ground arith

      go :
          (b : Bool)
          → get (if b then keep (is_fresh now) (insert port v now m) else insert port v now m) port
            ≡ some v
      go true = rw new_is_fresh (ground arith)
      go false = ground arith
