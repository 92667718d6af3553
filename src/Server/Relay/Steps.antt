-- ===== src/Server/Relay/Steps.antt =====
-- One event of a relay (`step`), for the bytes of both directions.
use simple_forwarder.Prelude.{
  ℕ, ◌+◌, ◌≡◌, refl, sym, ap, ◌∙◌, true, false, [], ◌++◌, append-nil, append_assoc, is_nil, take,
  drop, take-append-drop,
}
use simple_forwarder.Text.{Bytes}
use simple_forwarder.Net.Error.{Error}
use simple_forwarder.Server.Relay.Defs.{
  Direction, to_target, to_client, Event, put, write_error, write_late, receive, end_of_input,
  read_error, idle, shutdown_over, linger_over, Copy, closed, failed, Relay, copy_of, with_copy,
  opposite, put_out, count_write, take_in, shut, write_some, account, fail_with, close, finish,
  is_running, step,
}
use simple_forwarder.Server.Relay.Delivery.{
  IsKept, Delivers, &&-left, nil_of, not_ended, unended, other, guarded, Changed, Changed-Delivers,
}

module _ (leftover : Direction → Bytes) where
  module _ (now : ℕ) where
    fail_with-Delivers :
        (d : Direction) (e : Error) (r : Relay)
        → is_running r.progress ≡ true
        → Delivers leftover r
        → Delivers leftover (fail_with now d e r)
    unfolding fail_with
    fail_with-Delivers d e r h k =
        Changed-Delivers leftover d (record (copy_of d r) { ended = true }) (failed e) r _ h k
          (same d) (record { whole = (k d).whole; drained = λ x no. absurd cc })
      where
        same :
            (d : Direction)
            → Changed leftover d
                (record (copy_of d r) { ended = true })
                (failed e)
                r
                (fail_with now d e r)
        same to_target = (refl, refl, refl)
        same to_client = (refl, refl, refl)

    close-Delivers :
        (r : Relay)
        → is_running r.progress ≡ true
        → Delivers leftover r
        → Delivers leftover (close now r)
    unfolding close
    close-Delivers r h k to_target = other leftover to_target closed r h k
    close-Delivers r h k to_client = other leftover to_client closed r h k

    finish-Delivers :
        (d : Direction) (r : Relay)
        → is_running r.progress ≡ true
        → (copy_of d r).pending ≡ []
        → Delivers leftover r
        → Delivers leftover (finish now d r)
    unfolding finish
    finish-Delivers d r h none k =
        guarded leftover (copy_of (opposite d) r).ended _ _
          (λ both. close-Delivers (over d) (still d) good) (lingers d good)
      where
        over : Direction → Relay
        over e = with_copy e (record (copy_of e r) { ended = true }) r

        still : (e : Direction) → is_running (over e).progress ≡ true
        still to_target = h
        still to_client = h

        last : IsKept (leftover d) (record (copy_of d r) { ended = true }) r.progress
        last = record { whole = (k d).whole; drained = λ x no. none }

        same :
            (e : Direction)
            → Changed leftover e (record (copy_of e r) { ended = true }) r.progress r (over e)
        same to_target = (refl, refl, refl)
        same to_client = (refl, refl, refl)

        good : Delivers leftover (over d)
        good = Changed-Delivers leftover d _ r.progress r (over d) h k (same d) last

        lingers :
            (e : Direction)
            → Delivers leftover (over e)
            → Delivers leftover (record (over e) { lingering = true })
        lingers to_target g to_target = g to_target
        lingers to_target g to_client = g to_client
        lingers to_client g to_target = g to_target
        lingers to_client g to_client = g to_client

    -- The copy of a direction behind n more bytes.
    abbrev behind : ℕ → Copy → Copy
    behind n c = record c {
      pending = drop n c.pending;
      uncounted = c.uncounted + n;
      output = c.output ++ take n c.pending;
    }

    put_same :
        (d : Direction) (n : ℕ) (r : Relay)
        → Changed leftover d (behind n (copy_of d r)) r.progress r (put_out d n r)
    put_same to_target n r = (refl, refl, refl)
    put_same to_client n r = (refl, refl, refl)

    count_same :
        (d : Direction) (n : ℕ) (r : Relay)
        → Changed leftover d
            (record (behind n (copy_of d r)) { uncounted = 0 })
            r.progress
            r
            (count_write d (put_out d n r))
    unfolding account
    count_same to_target n r = (refl, refl, refl)
    count_same to_client n r = (refl, refl, refl)

    write_some-Delivers :
        (d : Direction) (n : ℕ) (r : Relay)
        → is_running r.progress ≡ true
        → (copy_of d r).ended ≡ false
        → Delivers leftover r
        → Delivers leftover (write_some d n r)
    unfolding write_some
    write_some-Delivers d n r h begun k =
        guarded leftover (is_nil (copy_of d (put_out d n r)).pending) _ _
          (λ last.
            Changed-Delivers leftover d _ r.progress r _ h k (count_same d n r)
              (record { whole = split; drained = λ x no. absurd (cc (x, begun)) }))
          (Changed-Delivers leftover d _ r.progress r _ h k (put_same d n r)
            (record { whole = split; drained = λ x no. absurd (cc (x, begun)) }))
      where
        split :
            ((copy_of d r).output ++ take n (copy_of d r).pending) ++ drop n (copy_of d r).pending
            ≡ leftover d ++ (copy_of d r).received
        split =
            append_assoc (copy_of d r).output (take n (copy_of d r).pending)
              (drop n (copy_of d r).pending)
            ∙ ap (◌++◌ (copy_of d r).output) (take-append-drop n (copy_of d r).pending)
            ∙ (k d).whole

    take_in-Delivers :
        (d : Direction) (b : Bytes) (r : Relay)
        → is_running r.progress ≡ true
        → (copy_of d r).pending ≡ []
        → (copy_of d r).ended ≡ false
        → Delivers leftover r
        → Delivers leftover (take_in d b r)
    take_in-Delivers d b r h none begun k =
        Changed-Delivers leftover d _ r.progress r _ h k (same d)
          (record { whole = more; drained = λ x no. absurd (cc (x, begun)) })
      where
        same :
            (d : Direction)
            → Changed leftover d
                (record (copy_of d r) { pending = b; received = (copy_of d r).received ++ b })
                r.progress
                r
                (take_in d b r)
        same to_target = (refl, refl, refl)
        same to_client = (refl, refl, refl)

        more : (copy_of d r).output ++ b ≡ leftover d ++ ((copy_of d r).received ++ b)
        more =
            ap (λ (x : Bytes). x ++ b)
              (sym (append-nil (copy_of d r).output)
                ∙ ap (◌++◌ (copy_of d r).output) (sym none)
                ∙ (k d).whole)
            ∙ append_assoc (leftover d) (copy_of d r).received b

    shut-Delivers :
        (d : Direction) (r : Relay)
        → is_running r.progress ≡ true
        → Delivers leftover r
        → Delivers leftover (shut d r)
    shut-Delivers d r h k =
        Changed-Delivers leftover d _ r.progress r _ h k (same d)
          (record { whole = (k d).whole; drained = (k d).drained })
      where
        same :
            (d : Direction)
            → Changed leftover d (record (copy_of d r) { shutting = true }) r.progress r (shut d r)
        same to_target = (refl, refl, refl)
        same to_client = (refl, refl, refl)

    pub step-Delivers :
        (e : Event) (r : Relay) → Delivers leftover r → Delivers leftover (step now e r)
    unfolding step
    step-Delivers (put d n) r k =
        guarded leftover _ _ r
          (λ h.
            let g = &&-left _ _ h in
            write_some-Delivers d n r (&&-left _ _ g) (not_ended _ _ _ g) k)
          k
    step-Delivers (write_error d e) r k =
        guarded leftover _ _ r (λ h. fail_with-Delivers d e r (&&-left _ _ h) k) k
    step-Delivers (write_late d) r k =
        guarded leftover _ _ r (λ h. fail_with-Delivers d _ r (&&-left _ _ h) k) k
    step-Delivers (receive d b) r k =
        guarded leftover _ _ r
          (λ h.
            let g = &&-left _ _ h in
            take_in-Delivers d b r (&&-left _ _ g) (nil_of _ _ _ g) (unended _ _ _ _ g) k)
          k
    step-Delivers (end_of_input d) r k =
        guarded leftover _ _ r (λ h. shut-Delivers d r (&&-left _ _ h) k) k
    step-Delivers (read_error d e) r k =
        guarded leftover _ _ r (λ h. fail_with-Delivers d e r (&&-left _ _ h) k) k
    step-Delivers (idle d) r k =
        guarded leftover _ _ r (λ h. fail_with-Delivers d _ r (&&-left _ _ h) k) k
    step-Delivers (shutdown_over d) r k =
        guarded leftover _ _ r (λ h. finish-Delivers d r (&&-left _ _ h) (nil_of _ _ _ h) k) k
    step-Delivers linger_over r k =
        guarded leftover _ _ r (λ h. close-Delivers r (&&-left _ _ h) k) k
