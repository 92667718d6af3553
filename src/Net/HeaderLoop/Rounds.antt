-- ===== src/Net/HeaderLoop/Rounds.antt =====
-- One round of the header loop, on each of its branches.
use simple_forwarder.Prelude.{
  ℕ, suc, ◌<◌, ◌≡◌, sym, ap, ◌∙◌, true, false, none, some, List, [], ◌∷◌, ◌++◌, arith, append_assoc,
  ltb, if◌then◌else◌, is_nil, length, take, drop, length-append,
}
use simple_forwarder.Text.{Bytes}
use simple_forwarder.Util.{find_header_separator}
use simple_forwarder.Util.Separator.{find_header_separator_hint}
use simple_forwarder.Net.Stream.{Stream, Res, ok, err, bind, read, at_end, unread}
use simple_forwarder.Net.Stream.Laws.{Reads, more, over}
use simple_forwarder.Net.HeaderLoop.Defs.{Limits, header_loop}

module _ (l : Limits) (fuel : ℕ) (buf : Bytes) (start_pos : ℕ) (s : Stream) where
  -- What a round does with the bytes that it has read.
  abbrev pub rest_of : Res Bytes → Res (Bytes × Bytes)
  rest_of r = bind r λ b s'. elim (is_nil b) [
    | true ↦ err l.closed_early s'
    | false ↦ header_loop l fuel (buf ++ b) (length buf) s'
  ]

  pub round_found :
      (p : ℕ)
      → find_header_separator buf start_pos ≡ some p
      → header_loop l (suc fuel) buf start_pos s
        ≡ (if ltb l.max_len p then err l.too_long s else ok (take p buf, drop p buf) s)
  unfolding header_loop
  round_found p e = rw (e, header_loop)

  pub round_full :
      find_header_separator buf start_pos ≡ none
      → ltb l.max_len (length buf) ≡ true
      → header_loop l (suc fuel) buf start_pos s ≡ err l.too_long s
  unfolding header_loop
  round_full e f = rw (e, header_loop) (rw (f, header_loop))

  pub round_reads :
      find_header_separator buf start_pos ≡ none
      → ltb l.max_len (length buf) ≡ false
      → header_loop l (suc fuel) buf start_pos s ≡ rest_of (read 1024 s)
  unfolding header_loop
  round_reads e f = rw (e, header_loop) (rw (f, header_loop))

abbrev pub all_of : Bytes → Stream → Bytes
all_of buf s = buf ++ unread s.incoming

-- A round that has found no end reads on: the same bytes make up the text in the end.
module _ (l : Limits) (fuel : ℕ) (buf : Bytes) (s : Stream) (P : Res (Bytes × Bytes) → Type 0)
    (no_end : find_header_separator buf 0 ≡ none) where
  abbrev pub Again : Type 0
  Again =
      (b : Bytes) (segs : List Bytes)
      → 0 < length b
      → length (unread segs) < length (unread s.incoming)
      → find_header_separator (buf ++ b) (length buf) ≡ find_header_separator (buf ++ b) 0
      → (buf ++ b) ++ unread segs ≡ all_of buf s
      → P (header_loop l fuel (buf ++ b) (length buf) (record s { incoming = segs }))

  pub on_read :
      Again
      → (unread s.incoming ≡ [] → P (rest_of l fuel buf 0 s (at_end s)))
      → (r : Res Bytes) → Reads s r
      → P (rest_of l fuel buf 0 s r)
  on_read again at_close r (more [] segs pos e) = absurd (omega arith)
  on_read again at_close r (more (c ∷ b) segs pos e) =
      again (c ∷ b) segs pos (omega (arith, ap length e, length-append (c ∷ b) (unread segs)))
        (find_header_separator_hint buf (c ∷ b) no_end)
        (append_assoc buf (c ∷ b) (unread segs) ∙ ap (λ (x : Bytes). buf ++ x) (sym e))
  on_read again at_close r (over e) = at_close e
