-- ===== src/Reload/Live.antt =====
-- A call of the watcher brings the rules of the file in force.
use simple_forwarder.Prelude.{
  ◌-◌, ◌≡◌, refl, ap, ◌∙◌, Bool, true, false, some, List, [], ◌∷◌, if◌then◌else◌,
}
use simple_forwarder.Text.{Bytes}
use simple_forwarder.Crates.{Crates}
use simple_forwarder.Server.Target.{Rules}
use simple_forwarder.Config.Load.{Serde, from_file}
use simple_forwarder.Reload.Defs.{
  in_time, Phase, receiving, delaying, holding, Watched, Happening, watcher_called,
  message_received, file_read, result_applied, apply_result, receive, end_read, use_result, happen,
  happen_all,
}
use simple_forwarder.Reload.Current.{wanted, Applied, apply_result-rules, apply_result-Applied}

-- The steps that the task makes after a message, from whatever it was doing.
abbrev pub steps_of_task : List Happening
steps_of_task = file_read ∷ result_applied ∷ message_received ∷ file_read ∷ result_applied ∷ []

module _ (c : Crates) (serde : Serde) (path : Bytes) where
  module _ (w : Watched) where
    -- The task reads the file behind a message.
    received :
        (rs : Rules)
        → w.phase ≡ receiving
        → w.queued ≡ true
        → wanted c serde path w.content ≡ some rs
        → (happen_all c serde path (message_received ∷ file_read ∷ result_applied ∷ []) w).rules
          ≡ rs
    unfolding happen_all happen
    received rs p q want =
        ap
          (λ (x : Phase).
            (happen_all c serde path (file_read ∷ result_applied ∷ [])
              (receive c serde path x w)).rules)
          p
        ∙ ap
            (λ (b : Bool).
              (happen_all c serde path (file_read ∷ result_applied ∷ []) (taken b)).rules)
            q
        ∙ apply_result-rules c serde path (from_file serde path w.content)
            (record w {
              queued = false;
              phase = holding (in_time (from_file serde path w.content));
            })
            rs want
      where
        taken : Bool → Watched
        taken b = if b then record w { queued = false; phase = delaying } else w

    -- Whatever the task is doing, it comes to its next message with the same file and the channel as it was.
    record Ready (v : Watched) : Type 0 where
      waits : v.phase ≡ receiving
      still_queued : v.queued ≡ w.queued
      still_content : v.content ≡ w.content

    message_next : (v : Watched) → Applied c serde path w v → Ready v
    message_next v a = record {
      waits = a.receives;
      still_queued = a.same_queued;
      still_content = a.same_content;
    }

    next_message :
        (p : Phase)
        → w.phase ≡ p
        → Ready (
            happen c serde path result_applied
              (end_read c serde path p (in_time (from_file serde path w.content)) w))
    unfolding happen end_read
    next_message receiving e = from w.phase e
      where
        from : (p : Phase) → p ≡ receiving → Ready (use_result c serde path p w)
        from receiving e' = record { waits = e; still_queued = refl; still_content = refl }
        from delaying e' = absurd cc
        from (holding r) e' = absurd cc
    next_message delaying e =
        let v = record w { phase = holding (in_time (from_file serde path w.content)) } in
        let a = apply_result-Applied c serde path (in_time (from_file serde path w.content)) v in
        record { waits = a.receives; still_queued = a.same_queued; still_content = a.same_content }
    next_message (holding r) e = from w.phase e
      where
        from : (p : Phase) → p ≡ holding r → Ready (use_result c serde path p w)
        from receiving e' = absurd cc
        from delaying e' = absurd cc
        from (holding r') e' =
            message_next (apply_result c serde path r' w) (apply_result-Applied c serde path r' w)

  -- After a call of the watcher for a modification, whatever the task is doing, and though an earlier read may
  -- have failed or run into its timeout, the steps that it makes next bring the rules of the file in force,
  -- if the file has rules that can be used and is not changed meanwhile, and if the reads of these steps
  -- end in time. (A read that runs into its timeout is not repeated.)
  pub watcher_called-current :
      (w : Watched) (rs : Rules)
      → wanted c serde path w.content ≡ some rs
      → (happen_all c serde path (watcher_called true ∷ steps_of_task) w).rules ≡ rs
  unfolding happen_all happen
  watcher_called-current w rs want =
      let called = record w { unreported = w.unreported - 1; queued = true } in
      let ready = next_message called called.phase refl in
      received (happen c serde path result_applied (happen c serde path file_read called)) rs
        ready.waits ready.still_queued (ap (wanted c serde path) ready.still_content ∙ want)
