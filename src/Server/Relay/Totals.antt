-- ===== src/Server/Relay/Totals.antt =====
-- One event of a relay (`step`), for the counters of both directions.
use simple_forwarder.Prelude.{
  ℕ, ◌≤◌, ◌≡◌, refl, ap, ◌∙◌, Bool, true, false, ◌&&◌, ◌++◌, arith, if◌then◌else◌, is_nil, length,
  length-append, length-take, take, Option-cases, inl, inr,
}
use simple_forwarder.Text.{Bytes}
use simple_forwarder.Net.Error.{Error, error_text}
use simple_forwarder.Stats.{TrafficStats}
use simple_forwarder.Tracker.Defs.{ConnectionInfo}
use simple_forwarder.Tracker.State.{Tracker, modify, set_closed, set_error}
use simple_forwarder.Server.Relay.Defs.{
  Direction, to_target, to_client, Event, put, write_error, write_late, receive, end_of_input,
  read_error, idle, shutdown_over, linger_over, Copy, Relay, copy_of, with_copy, opposite, put_out,
  take_in, shut, write_some, fail_with, close, finish, step, is_put, is_read, writing, reading,
  ending, is_running, late_write, idle_timeout,
}
use simple_forwarder.Server.Relay.Accounts.{
  connection_count, total_count, IsCounted, Counts, Accounts, keeps, count_write-Accounts,
}

modify-counts :
    (id : ℕ) (f : ConnectionInfo → ConnectionInfo) (t : Tracker) (d : Direction) (i : ℕ)
    → connection_count d i (modify id f t) ≡ connection_count d i t
unfolding modify
modify-counts id f t to_target i = elim (Option-cases (t.connections id)) [
  | inl gone ↦ rw (gone, modify) refl
  | inr (c, there) ↦ rw (there, modify) refl
]
modify-counts id f t to_client i = elim (Option-cases (t.connections id)) [
  | inl gone ↦ rw (gone, modify) refl
  | inr (c, there) ↦ rw (there, modify) refl
]

is_put-fits : (k : ℕ) (b : Bytes) → is_put k b ≡ true → k ≤ length b
is_put-fits k b h = ground arith

&&-right : (a b : Bool) → (a && b) ≡ true → b ≡ true
&&-right true b h = h
&&-right false b h = absurd cc

each_way : (P : Direction → Type 0) → P to_target → P to_client → (d : Direction) → P d
each_way P p q to_target = p
each_way P p q to_client = q

-- What is counted does not depend on what is left or read.
of_copy :
    {c0 s0 c s : ℕ} (k k' : Copy)
    → k'.uncounted ≡ k.uncounted
    → k'.output ≡ k.output
    → IsCounted c0 s0 c s k
    → IsCounted c0 s0 c s k'
of_copy k k' e f h = record {
  counted = h.counted;
  all_out = rw (e, f) h.all_out;
  of_connection = h.of_connection;
  of_total = h.of_total;
}

module _ (id : ℕ) (direct : Bool) (t0 : Tracker) (s0 : TrafficStats) where
  abbrev Sums : Relay → Type 0
  Sums r = Accounts id direct t0 s0 r

  pub either : (b : Bool) (x y : Relay) → (b ≡ true → Sums x) → Sums y → Sums (if b then x else y)
  either true x y f k = f refl
  either false x y f k = k

  -- The copy of a direction changes, and no counter.
  changes :
      (d : Direction) (c : Copy) (r : Relay)
      → Sums r
      → Counts id direct t0 s0 d r.tracker r.stats c
      → Sums (with_copy d c r)
  changes to_target c r a k = record { same_id = a.same_id; same_way = a.same_way; counts = go }
    where
      go :
          (e : Direction)
          → Counts id direct t0 s0 e r.tracker r.stats (copy_of e (record r { up = c }))
      go to_target = k
      go to_client = a.counts to_client
  changes to_client c r a k = record { same_id = a.same_id; same_way = a.same_way; counts = go }
    where
      go :
          (e : Direction)
          → Counts id direct t0 s0 e r.tracker r.stats (copy_of e (record r { down = c }))
      go to_target = a.counts to_target
      go to_client = k

  -- The table shows something else of a connection, or the relay goes on otherwise.
  modifies :
      (i : ℕ) (f : ConnectionInfo → ConnectionInfo) (r r' : Relay)
      → (r'.conn_id ≡ r.conn_id) × (r'.is_direct ≡ r.is_direct) × (r'.stats ≡ r.stats)
      → r'.tracker ≡ modify i f r.tracker
      → ((e : Direction) → copy_of e r' ≡ copy_of e r)
      → Sums r
      → Sums r'
  modifies i f r r' (x, y, z) t same a = record {
    same_id = x ∙ a.same_id;
    same_way = y ∙ a.same_way;
    counts = λ e.
        keeps id direct t0 s0 e r.tracker r'.tracker r.stats r'.stats (copy_of e r) (copy_of e r')
          (ap (connection_count e id) t ∙ modify-counts i f r.tracker e id)
          (ap (total_count e direct) z) (same e) (a.counts e);
  }

  module _ (now : ℕ) where
    fail_with-Accounts :
        (d : Direction) (e : Error) (r : Relay) → Sums r → Sums (fail_with now d e r)
    unfolding fail_with set_error
    fail_with-Accounts d e r a =
        modifies r.conn_id _ (with_copy d (record (copy_of d r) { ended = true }) r)
          (fail_with now d e r) (same d) (shown d) (copies d)
          (changes d (record (copy_of d r) { ended = true }) r a
            (of_copy (copy_of d r) (record (copy_of d r) { ended = true }) refl refl (a.counts d)))
      where
        end : Direction → Relay
        end d = with_copy d (record (copy_of d r) { ended = true }) r

        same :
            (d : Direction)
            → ((fail_with now d e r).conn_id ≡ (end d).conn_id)
              × ((fail_with now d e r).is_direct ≡ (end d).is_direct)
              × ((fail_with now d e r).stats ≡ (end d).stats)
        same to_target = (refl, refl, refl)
        same to_client = (refl, refl, refl)

        shown :
            (d : Direction)
            → (fail_with now d e r).tracker ≡ set_error now r.conn_id (error_text e) (end d).tracker
        shown to_target = refl
        shown to_client = refl

        copies : (d f : Direction) → copy_of f (fail_with now d e r) ≡ copy_of f (end d)
        copies to_target to_target = refl
        copies to_target to_client = refl
        copies to_client to_target = refl
        copies to_client to_client = refl

    close-Accounts : (r : Relay) → Sums r → Sums (close now r)
    unfolding close set_closed
    close-Accounts r a =
        modifies r.conn_id _ r (close now r) (refl, refl, refl) refl
          (each_way (λ e. copy_of e (close now r) ≡ copy_of e r) refl refl) a

    lingering-Accounts : (r : Relay) → Sums r → Sums (record r { lingering = true })
    lingering-Accounts r a = record {
      same_id = a.same_id;
      same_way = a.same_way;
      counts =
          each_way
            (λ e.
              Counts id direct t0 s0 e r.tracker r.stats
                (copy_of e (record r { lingering = true })))
            (a.counts to_target) (a.counts to_client);
    }

    finish-Accounts : (d : Direction) (r : Relay) → Sums r → Sums (finish now d r)
    unfolding finish
    finish-Accounts d r a =
        either (copy_of (opposite d) r).ended _ _ (λ both. close-Accounts (end d) good)
          (lingering-Accounts (end d) good)
      where
        end : Direction → Relay
        end d = with_copy d (record (copy_of d r) { ended = true }) r

        good : Sums (end d)
        good =
            changes d (record (copy_of d r) { ended = true }) r a
              (of_copy (copy_of d r) (record (copy_of d r) { ended = true }) refl refl (a.counts d))

    put_out-Accounts :
        (d : Direction) (k : ℕ) (r : Relay)
        → k ≤ length (copy_of d r).pending
        → Sums r
        → Sums (put_out d k r)
    put_out-Accounts d k r fits a = changes d _ r a (
        let c = a.counts d in
        record {
          counted = c.counted;
          all_out = omega (
            arith,
            c.all_out,
            length-append (copy_of d r).output (take k (copy_of d r).pending),
            length-take k (copy_of d r).pending,
          );
          of_connection = c.of_connection;
          of_total = c.of_total;
        })

    write_some-Accounts :
        (d : Direction) (k : ℕ) (r : Relay)
        → k ≤ length (copy_of d r).pending
        → Sums r
        → Sums (write_some d k r)
    unfolding write_some
    write_some-Accounts d k r fits a =
        let out = put_out-Accounts d k r fits a in
        either (is_nil (copy_of d (put_out d k r)).pending) _ _
          (λ last. count_write-Accounts id direct t0 s0 d (put_out d k r) out) out

    pub step-Accounts : (e : Event) (r : Relay) → Sums r → Sums (step now e r)
    unfolding step
    step-Accounts (put d k) r a =
        either (writing d r && is_put k (copy_of d r).pending) (write_some d k r) r
          (λ h. write_some-Accounts d k r (is_put-fits _ _ (&&-right (writing d r) _ h)) a) a
    step-Accounts (write_error d e) r a =
        either (writing d r) (fail_with now d e r) r (λ h. fail_with-Accounts d e r a) a
    step-Accounts (write_late d) r a =
        let e = late_write d (copy_of d r).received in
        either (writing d r) (fail_with now d e r) r (λ h. fail_with-Accounts d e r a) a
    step-Accounts (receive d b) r a =
        either (reading d r && is_read b) (take_in d b r) r
          (λ h.
            let c = record (copy_of d r) { pending = b; received = (copy_of d r).received ++ b } in
            changes d c r a (of_copy (copy_of d r) c refl refl (a.counts d)))
          a
    step-Accounts (end_of_input d) r a =
        either (reading d r) (shut d r) r
          (λ h.
            let c = record (copy_of d r) { shutting = true } in
            changes d c r a (of_copy (copy_of d r) c refl refl (a.counts d)))
          a
    step-Accounts (read_error d e) r a =
        either (reading d r) (fail_with now d e r) r (λ h. fail_with-Accounts d e r a) a
    step-Accounts (idle d) r a =
        either (reading d r) (fail_with now d (idle_timeout d) r) r
          (λ h. fail_with-Accounts d (idle_timeout d) r a) a
    step-Accounts (shutdown_over d) r a =
        either (ending d r) (finish now d r) r (λ h. finish-Accounts d r a) a
    step-Accounts linger_over r a =
        either (is_running r.progress && r.lingering) (close now r) r (λ h. close-Accounts r a) a
