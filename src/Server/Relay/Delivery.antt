-- ===== src/Server/Relay/Delivery.antt =====
-- The bytes of a relay (`relay_data` of src/proxy_server.rs): those that it was given, those that went out,
-- and those of a write under way.
use simple_forwarder.Prelude.{
  ◌≡◌, refl, sym, subst, Bool, true, false, not, ◌&&◌, [], ◌∷◌, ◌++◌, if◌then◌else◌, is_nil,
}
use simple_forwarder.Text.{Bytes}
use simple_forwarder.Server.Relay.Defs.{
  Direction, to_target, to_client, Copy, Progress, running, closed, failed, Relay, copy_of,
  opposite, is_running,
}

abbrev pub is_failed : Progress → Bool
is_failed running = false
is_failed closed = false
is_failed (failed e) = true

-- What has gone out and what is left of the write under way are the leftover and what was read since. A
-- direction that has ended, but for a failure, has nothing left.
pub record IsKept (leftover : Bytes) (c : Copy) (p : Progress) : Type 0 where
  pub whole : c.output ++ c.pending ≡ leftover ++ c.received
  pub drained : c.ended ≡ true → is_failed p ≡ false → c.pending ≡ []

abbrev pub Delivers : (Direction → Bytes) → Relay → Type 0
Delivers leftover r = (d : Direction) → IsKept (leftover d) (copy_of d r) r.progress

pub live : (p : Progress) → is_running p ≡ true → is_failed p ≡ false
live running h = refl
live closed h = refl
live (failed e) h = absurd cc

pub &&-left : (a b : Bool) → (a && b) ≡ true → a ≡ true
&&-left true b h = refl
&&-left false b h = h

-- What the guards say of a direction.
pub nil_of : (a b : Bool) (p : Bytes) → (a && (is_nil p && b)) ≡ true → p ≡ []
nil_of a b [] h = refl
nil_of true b (c ∷ p) h = absurd cc
nil_of false b (c ∷ p) h = absurd cc

pub not_ended : (a b c : Bool) → (a && (not b && c)) ≡ true → b ≡ false
not_ended a false c h = refl
not_ended true true c h = absurd cc
not_ended false true c h = absurd cc

pub unended : (a b c e : Bool) → (a && (b && (not c && e))) ≡ true → c ≡ false
unended a b false e h = refl
unended true true true e h = absurd cc
unended true false true e h = absurd cc
unended false b true e h = absurd cc

moved :
    (l : Bytes) {c c' : Copy} {p p' : Progress} → c' ≡ c → p' ≡ p → IsKept l c p → IsKept l c' p'
moved l {c} {c'} {p} {p'} e f k =
    subst (λ x. IsKept l x p') (sym e) (subst (λ x. IsKept l c x) (sym f) k)

module _ (leftover : Direction → Bytes) where
  -- The copy of one direction changes, and the other is as good whatever becomes of a running relay.
  pub other :
      (d : Direction) (p : Progress) (r : Relay)
      → is_running r.progress ≡ true
      → Delivers leftover r
      → IsKept (leftover d) (copy_of d r) p
  other d p r h k = record {
    whole = (k d).whole;
    drained = λ e no. (k d).drained e (live r.progress h);
  }

  pub guarded :
      (b : Bool) (x y : Relay)
      → (b ≡ true → Delivers leftover x)
      → Delivers leftover y
      → Delivers leftover (if b then x else y)
  guarded true x y f k = f refl
  guarded false x y f k = k

  -- A relay whose copy of one direction has changed, whatever its counters and its table are.
  abbrev pub Changed : Direction → Copy → Progress → Relay → Relay → Type 0
  Changed d c p r r' =
      (copy_of d r' ≡ c) × (copy_of (opposite d) r' ≡ copy_of (opposite d) r) × (r'.progress ≡ p)

  pub Changed-Delivers :
      (d : Direction) (c : Copy) (p : Progress) (r r' : Relay)
      → is_running r.progress ≡ true
      → Delivers leftover r
      → Changed d c p r r'
      → IsKept (leftover d) c p
      → Delivers leftover r'
  Changed-Delivers to_target c p r r' h k e n to_target = moved (leftover to_target) e.0 e.2 n
  Changed-Delivers to_target c p r r' h k e n to_client =
      moved (leftover to_client) e.1 e.2 (other to_client p r h k)
  Changed-Delivers to_client c p r r' h k e n to_client = moved (leftover to_client) e.0 e.2 n
  Changed-Delivers to_client c p r r' h k e n to_target =
      moved (leftover to_target) e.1 e.2 (other to_target p r h k)
