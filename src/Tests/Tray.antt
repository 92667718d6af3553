-- ===== src/Tests/Tray.antt =====
-- The texts and the states of the tray, and the log, at concrete inputs.
use simple_forwarder.Prelude.{◌≡◌, refl, true, false, none, some, List, [], ◌∷◌, arith}
use simple_forwarder.Text.{codes}
use simple_forwarder.Text.Decimal.{show_dec, parse_unsigned}
use simple_forwarder.Stats.Sizes.{format_bytes, ShowsSize, format_bytes-ShowsSize}
use simple_forwarder.Tray.Commas.{format_with_commas}
use simple_forwarder.Tray.Duration.{format_duration}
use simple_forwarder.Tray.ReadDuration.{read_duration}
use simple_forwarder.Tray.ReadDuration.Printed.{read_duration-format_duration}
use simple_forwarder.Tray.Activity.{
  Moment, traffic, checked, handled, loop_starts, watch_all, new_watch, busy, busy_before, all_well,
  Follows, watch_all-new_watch,
}
use simple_forwarder.Tray.Gates.{
  WindowMove, wanted, claimed, inits, cleared, ticked, closed, window_moves, no_window,
}
use simple_forwarder.Log.Defs.{
  FlushingWriter, new_writer, takes_all, fails_after, Answers, wrote, io_error,
}
use simple_forwarder.Log.Writes.{content}
use simple_forwarder.Log.Calls.{
  Call, write_call, flush_call, after_calls, answers, Logged, after_calls-Logged,
}

mebibytes : format_bytes 5368709 ≡ codes "5.12 MB"
unfolding format_bytes show_dec
mebibytes = refl

-- Just under a mebibyte.
nearly_one : format_bytes 1048575 ≡ codes "1024.00 KB"
unfolding format_bytes show_dec
nearly_one = refl

sizes_example : ShowsSize 1048575 (format_bytes 1048575)
sizes_example = format_bytes-ShowsSize 1048575 (omega arith)

commas : format_with_commas 1234567 ≡ codes "1,234,567"
unfolding format_with_commas show_dec
commas = refl

run_time : format_duration 90061 ≡ codes "1 day 1 hour 1 minute 1 second"
unfolding format_duration show_dec
run_time = refl

run_time_example : read_duration (format_duration 7265) ≡ some 7265
run_time_example = read_duration-format_duration 7265 (omega arith)

-- The reader takes no units of which there are none, and none that should be greater ones.
strict :
    (read_duration (codes "0 days 2 hours 0 minutes 0 seconds") ≡ none)
    × (read_duration (codes "120 minutes") ≡ none)
    × (read_duration (codes "2 hours") ≡ some 7200)
unfolding read_duration parse_unsigned
strict = (refl, refl, refl)

abbrev quiet_end : List Moment
quiet_end = traffic ∷ checked true ∷ handled true ∷ checked true ∷ []

activity_example :
    Follows
      (busy false quiet_end)
      (busy_before false false quiet_end)
      (all_well true quiet_end)
      (watch_all (loop_starts 7 ∷ quiet_end) new_watch)
activity_example = watch_all-new_watch 7 quiet_end (omega arith) tt

-- Traffic that a round notices before the message loop runs is not shown while it goes on.
early_traffic :
    ((watch_all
        (traffic ∷ checked true ∷ loop_starts 7 ∷ traffic ∷ checked true ∷ [])
        new_watch).is_active
      ≡ true)
    × ((watch_all
          (traffic ∷ checked true ∷ loop_starts 7 ∷ traffic ∷ checked true ∷ [])
          new_watch).posted
        ≡ [])
unfolding watch_all new_watch
early_traffic = (refl, refl)

-- A change whose message cannot be posted is not shown while the traffic goes on.
unposted :
    (watch_all
      (loop_starts 7 ∷ traffic ∷ checked false ∷ traffic ∷ checked true ∷ [])
      new_watch).posted
    ≡ []
unfolding watch_all new_watch
unposted = refl

abbrev reopened : List WindowMove
reopened = wanted ∷ claimed ∷ inits true ∷ ticked ∷ closed ∷ ticked ∷ []

-- A request between the end of the window and the clearing of the flag starts no thread.
lost_request :
    (window_moves
      (wanted ∷ claimed ∷ inits false ∷ wanted ∷ claimed ∷ cleared ∷ inits true ∷ ticked ∷ [])
      no_window).visible
    ≡ false
unfolding window_moves no_window
lost_request = refl

abbrev good_disk : Answers
good_disk = record { room = takes_all; long = takes_all; final = takes_all }

abbrev bad_disk : Answers
bad_disk = record { room = takes_all; long = takes_all; final = fails_after 1 }

abbrev two_lines : FlushingWriter
two_lines = new_writer 0 [] 2 5000

abbrev calls : List Call
calls =
    write_call 1 good_disk (codes "ab")
    ∷ write_call 2 bad_disk (codes "cd")
    ∷ flush_call takes_all
    ∷ []

-- The second write fails in its flush; the bytes are in the log all the same.
log_kept :
    (content (after_calls calls two_lines) ≡ codes "abcd")
    × (answers calls two_lines ≡ (codes "ab", wrote 2) ∷ (codes "cd", io_error) ∷ [])
unfolding after_calls answers new_writer
log_kept = (refl, refl)

log_example :
    Logged (content two_lines) (answers calls two_lines) (content (after_calls calls two_lines))
log_example = after_calls-Logged calls two_lines
