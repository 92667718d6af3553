-- ===== src/Net/HeaderLoop/Refused.antt =====
-- When the header loop returns no headers, and why.
use simple_forwarder.Prelude.{
  ℕ, zero, suc, ◌≤◌, ◌<◌, ◌≡◌, ap, ◌∙◌, inl, inr, true, false, none, some, List, [], ◌++◌, arith,
  append-nil, ltb, length, length-append, Option-cases, Bool-cases,
}
use simple_forwarder.Text.{Bytes}
use simple_forwarder.Util.{find_header_separator}
use simple_forwarder.Util.Prefix.{find_header_separator-append}
use simple_forwarder.Net.Error.{connection_reset}
use simple_forwarder.Net.Stream.{
  Stream, Res, err, hang, closed, reset, stalled, read, at_end, unread,
}
use simple_forwarder.Net.Stream.Laws.{read-Reads}
use simple_forwarder.Net.HeaderLoop.Defs.{Limits, header_loop}
use simple_forwarder.Net.HeaderLoop.Rounds.{
  rest_of, round_found, round_full, round_reads, all_of, on_read,
}

-- The loop gives up with the message that the headers are too long.
abbrev pub TooLong : Limits → Stream → Res (Bytes × Bytes) → Type 0
TooLong l s r = (segs : List Bytes) × (r ≡ err l.too_long (record s { incoming = segs }))

-- Headers that do not end within the limit are refused, once enough bytes have come.
pub header_loop-TooLong :
    (l : Limits) (fuel : ℕ) (buf : Bytes) (start_pos : ℕ) (s : Stream)
    → length (unread s.incoming) < fuel
    → find_header_separator buf start_pos ≡ find_header_separator buf 0
    → l.max_len < length (all_of buf s)
    → ((p : ℕ) → find_header_separator (all_of buf s) 0 ≡ some p → l.max_len < p)
    → TooLong l s (header_loop l fuel buf start_pos s)
header_loop-TooLong l zero buf start_pos s f hint long late = elim f [ ]
header_loop-TooLong l (suc fuel) buf start_pos s f hint long late =
    elim (Option-cases (find_header_separator buf 0)) [
      | inr (q, found) ↦ (
        s.incoming,
        round_found l fuel buf start_pos s q (hint ∙ found)
            ∙ rw (past q (late q (find_header_separator-append buf _ found))),
      )
      | inl no_end ↦ elim (Bool-cases (ltb l.max_len (length buf))) [
        | inl full ↦ (s.incoming, round_full l fuel buf start_pos s (hint ∙ no_end) full)
        | inr room ↦ rw (round_reads l fuel buf start_pos s (hint ∙ no_end) room) (
            on_read l fuel buf s (TooLong l s) no_end
              (λ b segs pos less hint' same.
                header_loop-TooLong l fuel (buf ++ b) (length buf) (record s { incoming = segs })
                  (omega arith) hint' (rw same long) (rw same late))
              (λ none_left. absurd (closed_text none_left room)) (read 1024 s) (read-Reads 1023 s))
      ]
    ]
  where
    past : (q : ℕ) → l.max_len < q → ltb l.max_len q ≡ true
    past q h = ground arith

    closed_text : unread s.incoming ≡ [] → ltb l.max_len (length buf) ≡ false → ⊥
    closed_text none_left room =
        ground (arith, ap length (append-nil buf), ap (λ (u : Bytes). length (buf ++ u)) none_left)

-- The end of the stream in front of the end of the headers.
abbrev pub cut_short : Limits → Stream → Res (Bytes × Bytes)
cut_short l s = elim s.ending [
  | closed ↦ err l.closed_early s
  | reset ↦ err connection_reset s
  | stalled ↦ hang s
]

abbrev pub CutShort : Limits → Stream → Res (Bytes × Bytes) → Type 0
CutShort l s r =
    (segs : List Bytes) × (unread segs ≡ []) × (r ≡ cut_short l (record s { incoming = segs }))

rest_of-at_end :
    (l : Limits) (fuel : ℕ) (buf : Bytes) (s : Stream)
    → rest_of l fuel buf 0 s (at_end s) ≡ cut_short l s
unfolding at_end
rest_of-at_end l fuel buf s = ground arith

-- With neither an end of the headers nor too many bytes, the loop ends as the stream does.
pub header_loop-CutShort :
    (l : Limits) (fuel : ℕ) (buf : Bytes) (start_pos : ℕ) (s : Stream)
    → length (unread s.incoming) < fuel
    → find_header_separator buf start_pos ≡ find_header_separator buf 0
    → length (all_of buf s) ≤ l.max_len
    → find_header_separator (all_of buf s) 0 ≡ none
    → CutShort l s (header_loop l fuel buf start_pos s)
header_loop-CutShort l zero buf start_pos s f hint fits e = elim f [ ]
header_loop-CutShort l (suc fuel) buf start_pos s f hint fits e =
    elim (Option-cases (find_header_separator buf 0)) [
      | inr (q, found) ↦ absurd (cc (e, find_header_separator-append buf (unread s.incoming) found))
      | inl no_end ↦ rw (round_reads l fuel buf start_pos s (hint ∙ no_end) room) (
          on_read l fuel buf s (CutShort l s) no_end
            (λ b segs pos less hint' same.
              header_loop-CutShort l fuel (buf ++ b) (length buf) (record s { incoming = segs })
                (omega arith) hint' (rw same fits) (rw same e))
            (λ none_left. (s.incoming, none_left, rest_of-at_end l fuel buf s)) (read 1024 s)
            (read-Reads 1023 s))
    ]
  where
    room : ltb l.max_len (length buf) ≡ false
    room = ground (arith, length-append buf (unread s.incoming))
