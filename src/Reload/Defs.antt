-- ===== src/Reload/Defs.antt =====
-- The watcher of the configuration file, its channel, and the task that reloads the rules.
use simple_forwarder.Prelude.{ℕ, ◌+◌, ◌-◌, Bool, true, false, Option, List, [], ◌∷◌, if◌then◌else◌}
use simple_forwarder.Text.{Bytes}
use simple_forwarder.Outcome.{done, failed}
use simple_forwarder.Crates.{Crates}
use simple_forwarder.Server.Target.{Rules}
use simple_forwarder.Config.Defs.{parse_rules}
use simple_forwarder.Config.Load.{Serde, Loaded, loaded, unreadable, malformed, from_file}
use simple_forwarder.Tray.Gates.{ConfigErrors, show_config_parse_error}

-- `reload_result`: a read in time, or a timeout.
pub data ReloadResult : Type 0 where
  in_time : Loaded → ReloadResult
  timed_out : ReloadResult

-- Where the task is: at `recv`, in its delay of 100 ms, or with the result of its read.
pub data Phase : Type 0 where
  receiving delaying : Phase
  holding : ReloadResult → Phase

pub record Watched : Type 0 where
  -- the content of the file, if it can be read
  pub content : Option Bytes
  -- the changes of the file that the watcher has not been called for yet
  pub unreported : ℕ
  -- the channel, of capacity 1
  pub queued : Bool
  pub phase : Phase
  pub rules : Rules
  pub errors : ConfigErrors

pub data Happening : Type 0 where
  -- the file is changed
  file_changes : Option Bytes → Happening
  -- the watcher is called, for a modification or for another event
  watcher_called : Bool → Happening
  -- `recv` gives the message
  message_received : Happening
  -- after the delay, the read of the file ends, or runs into its timeout
  file_read read_timed_out : Happening
  -- the result is used
  result_applied : Happening

module _ (c : Crates) (serde : Serde) (path : Bytes) where
  -- A failure of any kind keeps the rules; a malformed file is shown in a dialog.
  unfoldable pub apply_result : ReloadResult → Watched → Watched
  unfolding show_config_parse_error
  apply_result (in_time (loaded config)) w = elim (parse_rules c config.rules) [
    | done new_rules ↦ record w { phase = receiving; rules = new_rules }
    | failed e ↦ record w { phase = receiving }
  ]
  apply_result (in_time unreadable) w = record w { phase = receiving }
  apply_result (in_time (malformed err)) w = record w {
    phase = receiving;
    errors = show_config_parse_error err w.errors;
  }
  apply_result timed_out w = record w { phase = receiving }

  -- The steps of the task, by its phase. What cannot happen in a phase does nothing.
  unfoldable pub receive : Phase → Watched → Watched
  receive receiving w = if w.queued then record w { queued = false; phase = delaying } else w
  receive delaying w = w
  receive (holding r) w = w

  -- The read ends with this result.
  unfoldable pub end_read : Phase → ReloadResult → Watched → Watched
  end_read receiving r w = w
  end_read delaying r w = record w { phase = holding r }
  end_read (holding r') r w = w

  unfoldable pub use_result : Phase → Watched → Watched
  unfolding apply_result
  use_result receiving w = w
  use_result delaying w = w
  use_result (holding r) w = apply_result r w

  -- `try_send` on a full channel drops the message.
  unfoldable pub happen : Happening → Watched → Watched
  unfolding from_file receive end_read use_result
  happen (file_changes content) w = record w { content = content; unreported = w.unreported + 1 }
  happen (watcher_called true) w = record w { unreported = w.unreported - 1; queued = true }
  happen (watcher_called false) w = w
  happen message_received w = receive w.phase w
  happen file_read w = end_read w.phase (in_time (from_file serde path w.content)) w
  happen read_timed_out w = end_read w.phase timed_out w
  happen result_applied w = use_result w.phase w

  unfoldable pub happen_all : List Happening → Watched → Watched
  unfolding happen
  happen_all [] w = w
  happen_all (h ∷ hs) w = happen_all hs (happen h w)
