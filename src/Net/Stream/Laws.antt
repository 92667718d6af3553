-- ===== src/Net/Stream/Laws.antt =====
-- Reads take the bytes in order, whatever segments they come in.
use simple_forwarder.Prelude.{
  ℕ, zero, suc, ◌<◌, ◌≡◌, refl, sym, ap, ◌∙◌, true, Option, none, some, List, [], ◌∷◌, ◌++◌, arith,
  append_assoc, length, take, drop, take-append-drop,
}
use simple_forwarder.Text.{Bytes}
use simple_forwarder.Net.Stream.Defs.{
  Stream, Res, ok, arrival, at_end, read, take_bytes, cut_off, read_exact, write_all, unread,
}

-- Some bytes arrive, or all have been read.
abbrev pub Arrives : List Bytes → Option (Bytes × List Bytes) → Type 0
Arrives segs none = unread segs ≡ []
Arrives segs (some (seg, rest)) = (0 < length seg) × (unread segs ≡ seg ++ unread rest)

arrival-Arrives : (segs : List Bytes) → Arrives segs (arrival segs)
unfolding arrival unread
arrival-Arrives [] = refl
arrival-Arrives ([] ∷ segs) = skip (arrival segs) (arrival-Arrives segs)
  where
    skip : (r : Option (Bytes × List Bytes)) → Arrives segs r → Arrives ([] ∷ segs) r
    skip none h = h
    skip (some (seg, rest)) h = h
arrival-Arrives ((c ∷ s) ∷ segs) = (omega arith, refl)

-- What a read of at least one byte gives: some of the bytes that come next, or the end.
pub data Reads (s : Stream) : Res Bytes → Type 0 where
  more :
      (b : Bytes) (segs : List Bytes)
      → 0 < length b
      → unread s.incoming ≡ b ++ unread segs
      → Reads s (ok b (record s { incoming = segs }))
  over : unread s.incoming ≡ [] → Reads s (at_end s)

take_pos : (n : ℕ) (s : Bytes) → 0 < length s → 0 < length (take (suc n) s)
take_pos n [] h = absurd (omega arith)
take_pos n (c ∷ s) h = omega arith

pub read-Reads : (n : ℕ) (s : Stream) → Reads s (read (suc n) s)
unfolding read unread
read-Reads n s = go (arrival s.incoming) (arrival-Arrives s.incoming)
  where
    go :
        (r : Option (Bytes × List Bytes))
        → Arrives s.incoming r
        → Reads s (elim r [
          | none ↦ at_end s
          | some (seg, segs) ↦
              ok (take (suc n) seg) (record s { incoming = drop (suc n) seg ∷ segs })
        ])
    go none h = over h
    go (some (seg, segs)) h =
        more (take (suc n) seg) (drop (suc n) seg ∷ segs) (take_pos n seg h.0) (
          h.1
          ∙ ap (λ (x : Bytes). x ++ unread segs) (sym (take-append-drop (suc n) seg))
          ∙ append_assoc (take (suc n) seg) (drop (suc n) seg) (unread segs))

-- `read_exact` gives the next n bytes if that many come, and otherwise none.
pub take_bytes_lem :
    (b t : Bytes) (segs : List Bytes)
    → unread segs ≡ b ++ t
    → (rest : List Bytes) × (take_bytes (length b) segs ≡ some (b, rest)) × (unread rest ≡ t)
unfolding take_bytes unread
take_bytes_lem [] t segs e = (segs, refl, e)
take_bytes_lem (c ∷ b) t [] e = absurd (cc)
take_bytes_lem (c ∷ b) t ([] ∷ segs) e = take_bytes_lem (c ∷ b) t segs e
take_bytes_lem (c ∷ b) t ((d ∷ s) ∷ segs) e =
    let (rest, taken, left) = take_bytes_lem b t (s ∷ segs) (ground arith) in
    (rest, ground arith, left)

pub take_bytes-short :
    (n : ℕ) (segs : List Bytes) → length (unread segs) < n → take_bytes n segs ≡ none
unfolding take_bytes unread
take_bytes-short zero segs h = elim h [ ]
take_bytes-short (suc n) [] h = refl
take_bytes-short (suc n) ([] ∷ segs) h = take_bytes-short (suc n) segs h
take_bytes-short (suc n) ((c ∷ s) ∷ segs) h = rw (take_bytes-short n (s ∷ segs) (omega arith))

pub read_exact_lem :
    (b t : Bytes) (s : Stream)
    → unread s.incoming ≡ b ++ t
    → (rest : List Bytes) × (read_exact (length b) s ≡ ok b (record s { incoming = rest }))
      × (unread rest ≡ t)
unfolding read_exact
read_exact_lem b t s e =
    let (rest, taken, left) = take_bytes_lem b t s.incoming e in
    (rest, rw (taken, read_exact), left)

pub read_exact-short :
    (n : ℕ) (s : Stream) → length (unread s.incoming) < n → read_exact n s ≡ cut_off s
unfolding read_exact
read_exact-short n s h = rw (take_bytes-short n s.incoming h, read_exact)

pub write_all_lem :
    (b : Bytes) (s : Stream)
    → s.writable ≡ true
    → write_all b s ≡ ok tt (record s { sent = s.sent ++ b })
unfolding write_all
write_all_lem b s h = ground arith
