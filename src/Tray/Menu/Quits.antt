-- ===== src/Tray/Menu/Quits.antt =====
-- "Quit" and the message loop (`handle_menu_event` and `run_message_loop` of src/tray.rs).
use simple_forwarder.Prelude.{ℕ, zero, suc, ◌≡◌, true, List, [], ◌∷◌, ◌⊎◌}
use simple_forwarder.Outcome.{Outcome}
use simple_forwarder.Tray.Autostart.{Registry}
use simple_forwarder.Tray.Menu.{
  Process, Tray, Message, icon_update, quit_posted, hovered, wm_quit, dispatched, Doing,
  loop_starts, clicked, posted, runs, dialog_closed,
}

-- The queue ends the loop within so many messages.
abbrev EndsWithin : ℕ → List Message → Type 0
EndsWithin n [] = ⊥
EndsWithin zero (m ∷ ms) = ⊥
EndsWithin (suc n) (quit_posted ∷ ms) = Unit {0}
EndsWithin (suc n) (wm_quit ∷ ms) = Unit {0}
EndsWithin (suc n) (icon_update sets b ∷ ms) = EndsWithin n ms
EndsWithin (suc n) (hovered ∷ ms) = EndsWithin n ms
EndsWithin (suc n) (dispatched ∷ ms) = EndsWithin n ms

-- The rounds among what happens.
abbrev pub rounds : List Doing → ℕ
rounds [] = 0
rounds (runs now stats ∷ ds) = suc (rounds ds)
rounds (loop_starts tid ∷ ds) = rounds ds
rounds (clicked id ∷ ds) = rounds ds
rounds (posted msg ∷ ds) = rounds ds
rounds (dialog_closed ∷ ds) = rounds ds

module _ {R : Type 0} (w : Registry R) (lower : List ℕ → List ℕ) (p : Process) where
  -- The loop has ended, or its queue ends it.
  abbrev Ends : ℕ → Tray R → Type 0
  Ends n t = (t.ended ≡ true) ⊎ EndsWithin n t.queue
