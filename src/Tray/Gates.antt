-- ===== src/Tray/Gates.antt =====
-- `show_config_parse_error` with its static flag, and `open_traffic_window` with its two: a swap on a flag
-- admits one thread at a time, which clears the flag when it ends.
use simple_forwarder.Prelude.{
  ℕ, zero, suc, ◌+◌, ◌≡◌, refl, Bool, true, false, Option, none, some, List, [], ◌∷◌, if◌then◌else◌,
}
use simple_forwarder.Text.{Bytes}
use simple_forwarder.Config.Defs.{YamlParseError, dialog_text}

-- CONFIG_ERROR_DIALOG_OPEN, and the texts of the dialogs on the screen.
pub record ConfigErrors : Type 0 where
  pub dialog_open : Bool
  pub dialogs : List Bytes

unfoldable pub show_config_parse_error : YamlParseError → ConfigErrors → ConfigErrors
show_config_parse_error err c =
    if c.dialog_open
    then c
    else record { dialog_open = true; dialogs = dialog_text err ∷ c.dialogs }

-- A user closes a dialog, and its thread clears the flag.
unfoldable pub dismiss : ConfigErrors → ConfigErrors
dismiss c = elim c.dialogs [
  | [] ↦ c
  | text ∷ others ↦ record { dialog_open = false; dialogs = others }
]

pub data DialogEvent : Type 0 where
  parse_failed : YamlParseError → DialogEvent
  dismissed : DialogEvent

unfoldable pub notify_all : List DialogEvent → ConfigErrors → ConfigErrors
unfolding show_config_parse_error dismiss
notify_all [] c = c
notify_all (parse_failed err ∷ ns) c = notify_all ns (show_config_parse_error err c)
notify_all (dismissed ∷ ns) c = notify_all ns (dismiss c)

-- The error that the user should be looking at: the first since the last was dismissed.
unfoldable pub pending : Option YamlParseError → List DialogEvent → Option YamlParseError
pending o [] = o
pending none (parse_failed err ∷ ns) = pending (some err) ns
pending (some e) (parse_failed err ∷ ns) = pending (some e) ns
pending o (dismissed ∷ ns) = pending none ns

abbrev pub shown : Option YamlParseError → ConfigErrors
shown none = record { dialog_open = false; dialogs = [] }
shown (some err) = record { dialog_open = true; dialogs = dialog_text err ∷ [] }

-- However errors and dismissals follow one another, there is one dialog at most, it shows the first error
-- since the last dismissal, and the flag is set exactly while it is open.
pub notify_all-shown :
    (o : Option YamlParseError) (ns : List DialogEvent)
    → notify_all ns (shown o) ≡ shown (pending o ns)
unfolding notify_all pending
notify_all-shown none [] = refl
notify_all-shown (some e) [] = refl
notify_all-shown none (parse_failed err ∷ ns) = notify_all-shown (some err) ns
notify_all-shown (some e) (parse_failed err ∷ ns) = notify_all-shown (some e) ns
notify_all-shown none (dismissed ∷ ns) = notify_all-shown none ns
notify_all-shown (some e) (dismissed ∷ ns) = notify_all-shown none ns

-- The window: `want_visible`, `thread_running`, the threads that have been spawned and have not called
-- `UI::init` yet, those whose user interface is up, those in which `run_traffic_window` has returned and
-- which are to clear the flag, and whether the window is on the screen.
pub record WindowThreads : Type 0 where
  pub want_visible : Bool
  pub thread_running : Bool
  pub spawned : ℕ
  pub up : ℕ
  pub ending : ℕ
  pub visible : Bool

-- The two steps of `open_traffic_window`; `UI::init` in its thread, which may fail, as it does on a second
-- call in the process; the end of `run_traffic_window`; the flag that is cleared after it; the user who
-- closes the window; and a tick of the window's thread.
pub data WindowMove : Type 0 where
  wanted claimed : WindowMove
  inits : Bool → WindowMove
  ended cleared closed ticked : WindowMove

unfoldable pub window_move : WindowMove → WindowThreads → WindowThreads
window_move wanted w = record w { want_visible = true }
window_move claimed w =
    if w.thread_running then w else record w { thread_running = true; spawned = w.spawned + 1 }
window_move (inits ok) w = elim w.spawned [
  | zero ↦ w
  | suc n ↦
      if ok
      then record w { spawned = n; up = w.up + 1 }
      else record w { spawned = n; ending = w.ending + 1 }
]
window_move ended w = elim w.up [
  | zero ↦ w
  | suc n ↦ record w { up = n; ending = w.ending + 1; visible = false }
]
window_move cleared w = elim w.ending [
  | zero ↦ w
  | suc n ↦ record w { thread_running = false; ending = n }
]
window_move closed w = if w.visible then record w { want_visible = false; visible = false } else w
window_move ticked w = elim w.up [ zero ↦ w | suc n ↦ record w { visible = w.want_visible } ]

unfoldable pub window_moves : List WindowMove → WindowThreads → WindowThreads
unfolding window_move
window_moves [] w = w
window_moves (m ∷ ms) w = window_moves ms (window_move m w)

unfoldable pub no_window : WindowThreads
no_window = record {
  want_visible = false;
  thread_running = false;
  spawned = 0;
  up = 0;
  ending = 0;
  visible = false;
}

-- One thread at a time, and the window is on the screen only while its user interface is up.
pub record IsSingle (w : WindowThreads) : Type 0 where
  pub counted : w.spawned + w.up + w.ending ≡ (if w.thread_running then 1 else 0)
  pub hidden : w.up ≡ 0 → w.visible ≡ false
