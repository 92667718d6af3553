-- ===== src/Tray/Menu/Marked.antt =====
-- The mark of "Run at Startup" and the registry (`handle_menu_event` of src/tray.rs).
use simple_forwarder.Prelude.{
  ℕ, ◌<◌, ◌≡◌, ◌≢◌, refl, sym, ap, ◌∙◌, not, some, List, [], ◌∷◌, arith, All, length,
}
use simple_forwarder.Text.Utf16.{IsScalar, encode_utf16}
use simple_forwarder.Outcome.{Outcome, done, failed}
use simple_forwarder.Stats.{TrafficStats}
use simple_forwarder.Tray.Autostart.{
  Registry, registry_buffer_size, set_autostart, check_autostart_status,
}
use simple_forwarder.Tray.Autostart.Laws.{
  Documented, check_autostart_status-set_autostart, set_autostart_failed,
}
use simple_forwarder.Tray.Menu.{
  MenuId, quit_id, autostart_id, stats_id, open_dir_id, traffic_id, other_id, Process, Tray,
  new_tray, turn_mark, handle_menu_event, serve_clicks, marked_if,
}

module _ {R : Type 0} (w : Registry R) (doc : Documented w) (lower : List ℕ → List ℕ) (p : Process)
    (path : List ℕ) where
  -- The mark is set exactly if the program starts with the system.
  abbrev pub IsMarked : Tray R → Type 0
  IsMarked t = t.checked ≡ check_autostart_status w lower path t.registry

  module _ (known : p.quoted_exe_path ≡ some path) (scalar : All IsScalar path)
      (fits : length (encode_utf16 path) < registry_buffer_size) where
    -- The mark has been turned, and the registry has been asked to follow.
    marked_if-IsMarked :
        (t : Tray R) (x : Outcome (Unit {0}) × R)
        → set_autostart w path (not t.checked) t.registry ≡ x
        → IsMarked t
        → IsMarked (marked_if w lower p x (record t { checked = not t.checked }))
    marked_if-IsMarked t (done u, r) e h = sym (
        check_autostart_status-set_autostart w doc lower path (not t.checked) t.registry r scalar
          fits e)
    marked_if-IsMarked t (failed m, r) e h =
        let refused : (set_autostart w path (not t.checked) t.registry).0 ≢ done tt =
          λ k. absurd (cc (k, ap (λ x. x.0) e)) in
        let same : r ≡ t.registry =
          sym (ap (λ x. x.1) e)
          ∙ set_autostart_failed w path (not t.checked) t.registry doc refused in
        rw same (ground (arith, h))

    handle-IsMarked :
        (now : ℕ) (stats : TrafficStats) (id : MenuId) (t : Tray R)
        → IsMarked t
        → IsMarked (handle_menu_event w lower p now stats id (turn_mark w lower p id t)).1
    unfolding handle_menu_event
    handle-IsMarked now stats quit_id t h = ground arith
    handle-IsMarked now stats autostart_id t h = rw known (marked_if-IsMarked t _ refl h)
    handle-IsMarked now stats stats_id t h = ground arith
    handle-IsMarked now stats open_dir_id t h = ground arith
    handle-IsMarked now stats traffic_id t h = h
    handle-IsMarked now stats other_id t h = h

    serve_clicks-IsMarked :
        (now : ℕ) (stats : TrafficStats) (ids : List MenuId) (t : Tray R)
        → IsMarked t
        → IsMarked (serve_clicks w lower p now stats ids t)
    unfolding serve_clicks
    serve_clicks-IsMarked now stats [] t h = h
    serve_clicks-IsMarked now stats (id ∷ ids) t h =
        serve_clicks-IsMarked now stats ids _ (handle-IsMarked now stats id t h)

    new_tray-IsMarked : (r : R) → IsMarked (new_tray w lower p r)
    unfolding new_tray
    new_tray-IsMarked r = rw known refl

    -- From the start on, after any clicks in the menu that are handled one after the other, and whether the
    -- calls of the registry succeed or fail: "Run at Startup" is marked exactly if the registry starts the
    -- program with the system. The program's path is known and fits into the buffer.
    pub serve_clicks-new_tray :
        (now : ℕ) (stats : TrafficStats) (ids : List MenuId) (r : R)
        → IsMarked (serve_clicks w lower p now stats ids (new_tray w lower p r))
    serve_clicks-new_tray now stats ids r =
        serve_clicks-IsMarked now stats ids _ (new_tray-IsMarked r)
