-- ===== src/Tray/Menu.antt =====
-- The menu of the tray icon and the message loop: `handle_menu_event` and `run_message_loop`, on Windows.
pub mod Marked
pub mod Quits
use simple_forwarder.Prelude.{
  ℕ, ◌+◌, Bool, true, false, not, Option, none, some, List, [], ◌∷◌, ◌++◌, ◌==◌, if◌then◌else◌,
}
use simple_forwarder.Text.{Bytes, codes}
use simple_forwarder.Outcome.{Outcome, done, failed}
use simple_forwarder.Stats.{TrafficStats}
use simple_forwarder.Tray.Autostart.{Registry, check_autostart_status, set_autostart}
use simple_forwarder.Tray.Gates.{WindowThreads, wanted, claimed, window_moves, no_window}
use simple_forwarder.Tray.Status.{status_text}

-- The items by their ids, and the id of an item that is none of these.
pub data MenuId : Type 0 where
  quit_id autostart_id stats_id open_dir_id traffic_id other_id : MenuId

-- The messages of the loop's thread: WM_USER + 1 to 3, WM_QUIT, and those that are dispatched. With the
-- first goes whether `set_icon` will succeed.
pub data Message : Type 0 where
  icon_update : Bool → Bool → Message
  quit_posted hovered wm_quit dispatched : Message

-- What the program is asked about its own process: the path in quotes of `get_quoted_exe_path`, the
-- directory of the executable, the memory in use, and whether it runs as administrator.
pub record Process : Type 0 where
  pub quoted_exe_path : Option (List ℕ)
  pub exe_dir : Option Bytes
  pub mem_kb : ℕ
  pub is_admin : Bool

-- The tray's own state, with what its threads and the system hold.
pub record Tray (R : Type 0) : Type 0 where
  -- the mark of "Run at Startup"
  pub checked : Bool
  pub registry : R
  -- 0 until the message loop runs
  pub thread_id : ℕ
  -- the events of the menu that have not been received, and the messages of the loop's thread
  pub events : List MenuId
  pub queue : List Message
  -- whether the loop has ended, and the code of `process::exit`, which ends it too
  pub ended : Bool
  pub exited : Option ℕ
  -- the threads that force the exit after FORCE_EXIT_TIMEOUT_SECS
  pub exit_timers : ℕ
  pub is_dialog_open : Bool
  pub dialogs : List Bytes
  pub windows : WindowThreads
  -- the directories that have been opened
  pub opened : List Bytes
  pub icon : Bool
  pub tooltip : Bytes

-- What happens: the loop starts, an item is clicked (the library turns the mark of a check item), a
-- message is posted, a round of the loop, and the user who closes the status dialog.
pub data Doing : Type 0 where
  loop_starts : ℕ → Doing
  clicked : MenuId → Doing
  posted : Message → Doing
  runs : ℕ → TrafficStats → Doing
  dialog_closed : Doing

module _ {R : Type 0} (w : Registry R) (lower : List ℕ → List ℕ) (p : Process) where
  -- What `TrayManager::new` sets up.
  unfoldable pub new_tray : R → Tray R
  unfolding no_window
  new_tray r = record {
    checked = elim p.quoted_exe_path [
      | some path ↦ check_autostart_status w lower path r
      | none ↦ false
    ];
    registry = r;
    thread_id = 0;
    events = [];
    queue = [];
    ended = false;
    exited = none;
    exit_timers = 0;
    is_dialog_open = false;
    dialogs = [];
    windows = no_window;
    opened = [];
    icon = false;
    tooltip = codes "Simple Forwarder\nMemory: Calculating...";
  }

  abbrev pub quit : Tray R → Tray R
  quit t =
      if t.thread_id == 0
      then record t { exited = some 0; ended = true }
      else record t { queue = t.queue ++ quit_posted ∷ []; exit_timers = t.exit_timers + 1 }

  -- The mark is turned by the click itself; a failure turns it back.
  abbrev pub marked_if : Outcome (Unit {0}) × R → Tray R → Tray R
  marked_if (done u, r) t = record t { registry = r }
  marked_if (failed e, r) t = record t { registry = r; checked = not t.checked }

  abbrev pub toggle_autostart : Tray R → Tray R
  toggle_autostart t = elim p.quoted_exe_path [
    | none ↦ t
    | some path ↦ marked_if (set_autostart w path t.checked t.registry) t
  ]

  -- The text is made by the dialog's thread, here at once.
  abbrev show_status : ℕ → TrafficStats → Tray R → Tray R
  show_status now stats t = if t.is_dialog_open then t else record t {
    is_dialog_open = true;
    dialogs = status_text now p.mem_kb p.is_admin stats ∷ t.dialogs;
  }

  abbrev open_program_dir : Tray R → Tray R
  open_program_dir t = elim p.exe_dir [ none ↦ t | some dir ↦ record t { opened = dir ∷ t.opened } ]

  -- Whether it was "Quit", and the tray behind the event. The instant and the counters are those of the
  -- call.
  unfoldable pub handle_menu_event : ℕ → TrafficStats → MenuId → Tray R → Bool × Tray R
  handle_menu_event now stats quit_id t = (true, quit t)
  handle_menu_event now stats autostart_id t = (false, toggle_autostart t)
  handle_menu_event now stats stats_id t = (false, show_status now stats t)
  handle_menu_event now stats open_dir_id t = (false, open_program_dir t)
  handle_menu_event now stats traffic_id t =
      (false, record t { windows = window_moves (wanted ∷ claimed ∷ []) t.windows })
  handle_menu_event now stats other_id t = (false, t)

  -- The inner loop over the events that have come, which "Quit" ends; the rest stays in the channel.
  unfoldable pub drain_events : ℕ → TrafficStats → List MenuId → Tray R → Tray R
  unfolding handle_menu_event
  drain_events now stats [] t = record t { events = [] }
  drain_events now stats (e ∷ es) t =
      let (is_quit, t') = handle_menu_event now stats e t in
      let later = drain_events now stats es t' in
      if is_quit then record t' { events = es } else later

  unfoldable pub handle_message : Message → Tray R → Tray R
  handle_message (icon_update sets active) t = record t { icon = if sets then active else t.icon }
  handle_message quit_posted t = record t { ended = true }
  handle_message hovered t = record t { tooltip = codes "Simple Forwarder" }
  handle_message wm_quit t = record t { ended = true }
  handle_message dispatched t = t

  -- A round: GetMessageW waits for a message, and ends the loop on WM_QUIT before the events are looked
  -- at.
  unfoldable pub round : ℕ → TrafficStats → List Message → Tray R → Tray R
  unfolding drain_events handle_message
  round now stats [] t = t
  round now stats (wm_quit ∷ queue) t = record t { queue = queue; ended = true }
  round now stats (msg ∷ queue) t =
      handle_message msg (drain_events now stats t.events (record t { queue = queue }))

  abbrev pub turn_mark : MenuId → Tray R → Tray R
  turn_mark autostart_id t = record t { checked = not t.checked }
  turn_mark _ t = t

  abbrev close_dialog : Tray R → Tray R
  close_dialog t = elim t.dialogs [
    | [] ↦ t
    | text ∷ others ↦ record t { is_dialog_open = false; dialogs = others }
  ]

  unfoldable pub act : Doing → Tray R → Tray R
  unfolding round
  act (loop_starts tid) t = record t { thread_id = tid }
  act (clicked id) t = turn_mark id (record t { events = t.events ++ id ∷ [] })
  act (posted msg) t = record t { queue = t.queue ++ msg ∷ [] }
  act (runs now stats) t = if t.ended then t else round now stats t.queue t
  act dialog_closed t = close_dialog t

  unfoldable pub act_all : List Doing → Tray R → Tray R
  unfolding act
  act_all [] t = t
  act_all (d ∷ ds) t = act_all ds (act d t)

  -- Clicks, each of which is handled before the next.
  unfoldable pub serve_clicks : ℕ → TrafficStats → List MenuId → Tray R → Tray R
  unfolding handle_menu_event
  serve_clicks now stats [] t = t
  serve_clicks now stats (id ∷ ids) t =
      serve_clicks now stats ids (handle_menu_event now stats id (turn_mark id t)).1
