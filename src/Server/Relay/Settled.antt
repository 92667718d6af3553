-- ===== src/Server/Relay/Settled.antt =====
-- The bytes of a write that have gone out and are not counted (`uncounted`), over the events of a relay.
use simple_forwarder.Prelude.{
  ℕ, ◌≡◌, refl, Bool, true, false, ◌&&◌, List, [], ◌∷◌, ◌++◌, if◌then◌else◌, is_nil,
}
use simple_forwarder.Text.{Bytes}
use simple_forwarder.Net.Error.{Error}
use simple_forwarder.Server.Relay.Defs.{
  Direction, to_target, to_client, Event, put, write_error, write_late, receive, end_of_input,
  read_error, idle, shutdown_over, linger_over, Copy, Relay, copy_of, with_copy, opposite, put_out,
  count_write, take_in, shut, write_some, account, fail_with, close, finish, step, run, is_read,
  writing, reading, late_write, idle_timeout,
}

-- Without a write under way every byte is counted.
abbrev pub Settled : Relay → Type 0
Settled r = (d : Direction) → (copy_of d r).pending ≡ [] → (copy_of d r).uncounted ≡ 0

guarded :
    (b : Bool) (x y : Relay) → (b ≡ true → Settled x) → Settled y → Settled (if b then x else y)
guarded true x y f k = f refl
guarded false x y f k = k

-- The copy of one direction changes.
changes :
    (d : Direction) (c : Copy) (r : Relay)
    → Settled r
    → (c.pending ≡ [] → c.uncounted ≡ 0)
    → Settled (with_copy d c r)
changes to_target c r k n to_target = n
changes to_target c r k n to_client = k to_client
changes to_client c r k n to_target = k to_target
changes to_client c r k n to_client = n

-- Bytes that are read are some.
some_read : (a : Bool) (b : Bytes) (n : ℕ) → (a && is_read b) ≡ true → b ≡ [] → n ≡ 0
some_read true [] n h e = absurd cc
some_read false [] n h e = absurd cc
some_read a (c ∷ b) n h e = absurd cc

some_left : (b : Bytes) (n : ℕ) → is_nil b ≡ false → b ≡ [] → n ≡ 0
some_left [] n h e = absurd cc
some_left (c ∷ b) n h e = absurd cc

module _ (now : ℕ) where
  fail_with-Settled :
      (d : Direction) (e : Error) (r : Relay) → Settled r → Settled (fail_with now d e r)
  unfolding fail_with
  fail_with-Settled to_target e r k to_target = k to_target
  fail_with-Settled to_target e r k to_client = k to_client
  fail_with-Settled to_client e r k to_target = k to_target
  fail_with-Settled to_client e r k to_client = k to_client

  close-Settled : (r : Relay) → Settled r → Settled (close now r)
  unfolding close
  close-Settled r k to_target = k to_target
  close-Settled r k to_client = k to_client

  lingers : (r : Relay) → Settled r → Settled (record r { lingering = true })
  lingers r k to_target = k to_target
  lingers r k to_client = k to_client

  finish-Settled : (d : Direction) (r : Relay) → Settled r → Settled (finish now d r)
  unfolding finish
  finish-Settled d r k =
      let ended = changes d (record (copy_of d r) { ended = true }) r k (k d) in
      guarded (copy_of (opposite d) r).ended _ _ (λ both. close-Settled _ ended) (lingers _ ended)

  counted_out :
      (d : Direction) (n : ℕ) (r : Relay) → Settled r → Settled (count_write d (put_out d n r))
  unfolding account
  counted_out to_target n r k to_target = λ e. refl
  counted_out to_target n r k to_client = k to_client
  counted_out to_client n r k to_target = k to_target
  counted_out to_client n r k to_client = λ e. refl

  write_some-Settled : (d : Direction) (n : ℕ) (r : Relay) → Settled r → Settled (write_some d n r)
  unfolding write_some
  write_some-Settled d n r k = go d (is_nil (copy_of d (put_out d n r)).pending) refl
    where
      go :
          (d : Direction) (b : Bool)
          → is_nil (copy_of d (put_out d n r)).pending ≡ b
          → Settled (if b then count_write d (put_out d n r) else put_out d n r)
      go d true e = counted_out d n r k
      go to_target false e = changes to_target _ r k (some_left _ _ e)
      go to_client false e = changes to_client _ r k (some_left _ _ e)

  step-Settled : (e : Event) (r : Relay) → Settled r → Settled (step now e r)
  unfolding step
  step-Settled (put d n) r k = guarded _ _ r (λ h. write_some-Settled d n r k) k
  step-Settled (write_error d e) r k = guarded _ _ r (λ h. fail_with-Settled d e r k) k
  step-Settled (write_late d) r k =
      guarded (writing d r) (fail_with now d (late_write d (copy_of d r).received) r) r
        (λ h. fail_with-Settled d _ r k) k
  step-Settled (receive d b) r k =
      guarded (reading d r && is_read b) (take_in d b r) r
        (λ h.
          changes d (record (copy_of d r) { pending = b; received = (copy_of d r).received ++ b }) r
            k (some_read (reading d r) b _ h))
        k
  step-Settled (end_of_input d) r k =
      guarded (reading d r) (shut d r) r
        (λ h. changes d (record (copy_of d r) { shutting = true }) r k (k d)) k
  step-Settled (read_error d e) r k = guarded _ _ r (λ h. fail_with-Settled d e r k) k
  step-Settled (idle d) r k =
      guarded (reading d r) (fail_with now d (idle_timeout d) r) r (λ h. fail_with-Settled d _ r k)
        k
  step-Settled (shutdown_over d) r k = guarded _ _ r (λ h. finish-Settled d r k) k
  step-Settled linger_over r k = guarded _ _ r (λ h. close-Settled r k) k

pub run-Settled : (events : List (ℕ × Event)) (r : Relay) → Settled r → Settled (run events r)
unfolding run
run-Settled [] r k = k
run-Settled ((now, e) ∷ events) r k = run-Settled events (step now e r) (step-Settled now e r k)
