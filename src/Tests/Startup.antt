-- ===== src/Tests/Startup.antt =====
-- The menu of the tray and the start with the system, at concrete inputs.
use simple_forwarder.Prelude.{
  ℕ, ◌*◌, ◌≤◌, ◌≡◌, ◌≢◌, refl, ap, sym, subst, true, false, Option, none, some, List, [], ◌∷◌,
  append-nil, arith, leb, if◌then◌else◌, length,
}
use simple_forwarder.Text.{codes}
use simple_forwarder.Text.Utf16.{encode_utf16}
use simple_forwarder.Tray.Autostart.{Query, Registry}
use simple_forwarder.Tray.Autostart.Laws.{Reads, Documented}
use simple_forwarder.Tray.Menu.{
  autostart_id, stats_id, Process, Tray, new_tray, serve_clicks, act_all, posted, hovered,
  loop_starts,
}
use simple_forwarder.Tray.Menu.Marked.{IsMarked, serve_clicks-new_tray}
use simple_forwarder.Tests.Samples.{fresh_stats}

-- A registry of one value.
abbrev find : Option (List ℕ) → ℕ → Query
find none n = record { status = 2; dw_type = 0; len = n; buffer = [] }
find (some units) n =
    if leb (length units * 2) n
    then record { status = 0; dw_type = 1; len = length units * 2; buffer = units }
    else record { status = 234; dw_type = 1; len = length units * 2; buffer = [] }

abbrev erase : Option (List ℕ) → ℕ × Option (List ℕ)
erase none = (2, none)
erase (some units) = (0, none)

abbrev one_value : Registry (Option (List ℕ))
one_value = record {
  open_key = λ key r. 0;
  query_value = λ key name n r. find r n;
  set_value = λ key name units r. (0, some units);
  delete_value = λ key name r. erase r;
}

find-Reads : (units : List ℕ) (n : ℕ) → length units * 2 ≤ n → Reads units (find (some units) n)
find-Reads units n h =
    let fits : leb (length units * 2) n ≡ true = ground arith in
    rw fits (record {
      succeeded = refl;
      of_text = refl;
      counted = refl;
      behind = [];
      copied = sym (append-nil units);
    })

erased : (r r' : Option (List ℕ)) (n : ℕ) → erase r ≡ (0, r') → (find r' n).status ≢ 0
erased r r' n h = ground arith

erase_fails : (r : Option (List ℕ)) → (erase r).0 ≢ 0 → (erase r).1 ≡ r
erase_fails r h = ground arith

one_value-Documented : Documented one_value
one_value-Documented = record {
  reads_set = λ key name units n r r' h fits.
      subst (λ x. Reads units (find x n)) (ap (λ x. x.1) h) (find-Reads units n fits);
  not_found = λ key name n r r' h. erased r r' n h;
  opens_set = λ key name units r. refl;
  opens_deleted = λ key name r. refl;
  keeps_set = λ key name units r h. absurd (h refl);
  keeps_deleted = λ key name r h. erase_fails r h;
}

abbrev program : Process
program = record {
  quoted_exe_path = some (codes "\"C:\\sf.exe\"");
  exe_dir = none;
  mem_kb = 2048;
  is_admin = false;
}

clicks_example :
    IsMarked one_value one_value-Documented
      (λ s. s)
      program
      (codes "\"C:\\sf.exe\"")
      (serve_clicks one_value
        (λ s. s)
        program
        0
        fresh_stats
        (autostart_id ∷ stats_id ∷ autostart_id ∷ autostart_id ∷ [])
        (new_tray one_value (λ s. s) program none))
unfolding encode_utf16
clicks_example =
    serve_clicks-new_tray one_value one_value-Documented (λ s. s) program (codes "\"C:\\sf.exe\"")
      refl (ground arith) (omega arith) 0 fresh_stats
      (autostart_id ∷ stats_id ∷ autostart_id ∷ autostart_id ∷ []) none

abbrev looping : Tray (Option (List ℕ))
looping =
    act_all one_value (λ s. s) program (loop_starts 7 ∷ posted hovered ∷ [])
      (new_tray one_value (λ s. s) program none)
