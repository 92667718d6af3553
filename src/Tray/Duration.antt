-- ===== src/Tray/Duration.antt =====
-- `format_duration`: the run time in the status dialog.
use simple_forwarder.Prelude.{ℕ, ◌/◌, ◌%◌, [], ◌∷◌, ◌++◌, List, ltb, ◌==◌, if◌then◌else◌}
use simple_forwarder.Text.{Bytes, codes}
use simple_forwarder.Text.Decimal.{show_dec}

-- `parts.join(" ")`
unfoldable pub join : List Bytes → Bytes
join [] = []
join (p ∷ []) = p
join (p ∷ q ∷ ps) = p ++ b' ' ∷ join (q ∷ ps)

-- `format!("{} day{}", …)`, and so for the other units.
unfoldable pub amount_text : ℕ → Bytes → Bytes
amount_text n unit = show_dec n ++ b' ' ∷ (unit ++ (if ltb 1 n then codes "s" else []))

-- A unit is named only if there is some of it.
unfoldable pub part : ℕ → Bytes → List Bytes
unfolding amount_text
part n unit = if ltb 0 n then amount_text n unit ∷ [] else []

-- The whole seconds of the duration.
unfoldable pub format_duration : ℕ → Bytes
unfolding join part
format_duration secs =
    if secs == 0
    then codes "0 seconds"
    else join (
        part (secs / 86400) (codes "day")
        ++ (part (secs % 86400 / 3600) (codes "hour")
            ++ (part (secs % 3600 / 60) (codes "minute") ++ part (secs % 60) (codes "second"))))
