-- ===== src/Net/HeaderLoop/Found.antt =====
-- What the header loop returns, in terms of all the bytes of the connection: the segments in which
-- they arrive decide only how much is read past the headers.
use simple_forwarder.Prelude.{
  ℕ, zero, suc, ◌≤◌, ◌<◌, ◌≡◌, refl, sym, ap, ◌∙◌, subst, inl, inr, false, none, some, List, [],
  ◌∷◌, ◌++◌, arith, append-nil, ltb, length, take, drop, Option-cases, Bool-cases,
}
use simple_forwarder.Text.{Bytes}
use simple_forwarder.Util.{find_header_separator}
use simple_forwarder.Util.Separator.{drop-append}
use simple_forwarder.Util.Prefix.{
  find_header_separator-bounds, find_header_separator-append, find_header_separator-prefix,
}
use simple_forwarder.Net.Stream.{Stream, Res, ok, read, unread}
use simple_forwarder.Net.Stream.Laws.{read-Reads}
use simple_forwarder.Net.HeaderLoop.Defs.{Limits, header_loop}
use simple_forwarder.Net.HeaderLoop.Rounds.{round_found, round_reads, all_of, on_read}

take-append : (n : ℕ) (s t : Bytes) → n ≤ length s → take n (s ++ t) ≡ take n s
take-append zero s t h = refl
take-append (suc n) [] t h = elim h [ ]
take-append (suc n) (c ∷ s) t h = ap (◌∷◌ c) (take-append n s t (omega arith))

-- The headers are the first p bytes of `all`; what was read past them, and what is still unread,
-- make up the rest.
abbrev pub Splits : Stream → Bytes → ℕ → Res (Bytes × Bytes) → Type 0
Splits s all p r =
    (left : Bytes) × (segs : List Bytes) × (r
      ≡ ok (take p all, left) (record s { incoming = segs }))
    × (left ++ unread segs ≡ drop p all)

-- Headers that end within the limit are found, whatever the segments.
pub header_loop_found :
    (l : Limits) (fuel : ℕ) (buf : Bytes) (start_pos : ℕ) (s : Stream) {p : ℕ}
    → length (unread s.incoming) < fuel
    → find_header_separator buf start_pos ≡ find_header_separator buf 0
    → find_header_separator (all_of buf s) 0 ≡ some p
    → p ≤ l.max_len
    → Splits s (all_of buf s) p (header_loop l fuel buf start_pos s)
header_loop_found l zero buf start_pos s f hint e h = elim f [ ]
header_loop_found l (suc fuel) buf start_pos s {p} f hint e h =
    elim (Option-cases (find_header_separator buf 0)) [
      | inl no_end ↦ rw (round_reads l fuel buf start_pos s (hint ∙ no_end) (room no_end)) (
          on_read l fuel buf s (Splits s (all_of buf s) p) no_end
            (λ b segs pos less hint' same.
              subst
                (λ (w : Bytes).
                  Splits s w p
                    (header_loop l fuel (buf ++ b) (length buf) (record s { incoming = segs })))
                same
                (header_loop_found l fuel (buf ++ b) (length buf) (record s { incoming = segs })
                  (omega arith) hint' (ap (λ (w : Bytes). find_header_separator w 0) same ∙ e) h))
            (λ none_left. absurd (cc (no_end, sym e, none_left, append-nil buf))) (read 1024 s)
            (read-Reads 1023 s))
      | inr (q, found) ↦ here q found
    ]
  where
    u : Bytes
    u = unread s.incoming

    here :
        (q : ℕ)
        → find_header_separator buf 0 ≡ some q
        → Splits s (buf ++ u) p (header_loop l (suc fuel) buf start_pos s)
    here q found =
        let same : some q ≡ some p = sym (find_header_separator-append buf u found) ∙ e in
        let q-p : q ≡ p = cc in
        let fits : p ≤ length buf = omega (arith, (find_header_separator-bounds buf found).1) in
        (
          drop p buf,
          s.incoming,
          round_found l fuel buf start_pos s p (hint ∙ found ∙ same)
              ∙ rw (take-append p buf u fits) (ground arith),
          sym (drop-append p buf u fits),
        )

    room : find_header_separator buf 0 ≡ none → ltb l.max_len (length buf) ≡ false
    room no_end = elim (Bool-cases (ltb l.max_len (length buf))) [
      | inl full ↦ absurd (cc (no_end, find_header_separator-prefix buf u e (ground arith)))
      | inr fits ↦ fits
    ]
