-- ===== src/Log/Writes.antt =====
-- No byte of the log is lost, doubled or put out of order, and none waits for long.
use simple_forwarder.Prelude.{
  ℕ, zero, suc, ◌+◌, ◌-◌, ◌≡◌, inl, inr, refl, sym, ap, ◌∙◌, subst, ◌≤◌, Bool, true, false, List,
  [], ◌∷◌, ◌++◌, append_assoc, append-nil, arith, ltb, leb, if◌then◌else◌, length, take, drop,
  take-append-drop, Bool-cases,
}
use simple_forwarder.Text.{Bytes}
use simple_forwarder.Log.Defs.{
  Disk, takes_all, fails_after, FlushingWriter, capacity, IoResult, wrote, io_error, flush_buf,
  file_write, take_in, buffered_write, flush_due, after_write, Answers, counted, write,
}

-- The log as it has been taken in, on the disk or in the buffer.
abbrev pub content : FlushingWriter → Bytes
content w = w.on_disk ++ w.buffer

-- A write that reports n bytes has taken in the first n; one that fails, the first so many.
abbrev pub Took : Bytes → Bytes → IoResult → Bytes → Type 0
Took buf before (wrote n) after = after ≡ before ++ take n buf
Took buf before io_error after = (m : ℕ) × (after ≡ before ++ take m buf)

pub flush_buf-content :
    (disk : Disk) (w : FlushingWriter) → content (flush_buf disk w).1 ≡ content w
unfolding flush_buf
flush_buf-content takes_all w = append-nil _
flush_buf-content (fails_after k) w =
    append_assoc w.on_disk (take k w.buffer) (drop k w.buffer)
    ∙ ap (◌++◌ w.on_disk) (take-append-drop k w.buffer)

take-length {ℓ} : {A : Type ℓ} (xs : List A) → take (length xs) xs ≡ xs
take-length [] = refl
take-length (x ∷ xs) = ap (◌∷◌ x) (take-length xs)

take-length-take {ℓ} : {A : Type ℓ} (k : ℕ) (xs : List A) → take (length (take k xs)) xs ≡ take k xs
take-length-take zero xs = refl
take-length-take (suc k) [] = refl
take-length-take (suc k) (x ∷ xs) = ap (◌∷◌ x) (take-length-take k xs)

swap_empty : (d b x y : Bytes) → b ≡ [] → x ≡ y → (d ++ x) ++ b ≡ (d ++ b) ++ y
swap_empty d b x y e f = simp (e, f, append-nil)

file_write-Took :
    (disk : Disk) (buf : Bytes) (w : FlushingWriter)
    → w.buffer ≡ []
    → Took buf (content w) (file_write disk buf w).0 (content (file_write disk buf w).1)
unfolding file_write
file_write-Took takes_all buf w e = swap_empty w.on_disk w.buffer _ _ e (sym (take-length buf))
file_write-Took (fails_after zero) buf w e = (0, sym (append-nil _))
file_write-Took (fails_after (suc k)) buf w e =
    swap_empty w.on_disk w.buffer _ _ e (sym (take-length-take (suc k) buf))

take_in-Took :
    (disk : Disk) (buf : Bytes) (w : FlushingWriter)
    → (leb capacity (length buf) ≡ true → w.buffer ≡ [])
    → Took buf (content w) (take_in disk buf w).0 (content (take_in disk buf w).1)
unfolding take_in
take_in-Took disk buf w h = elim (Bool-cases (leb capacity (length buf))) [
  | inl long ↦ rw long (file_write-Took disk buf w (h long))
  | inr short ↦ rw short (
      sym (append_assoc w.on_disk w.buffer buf)
      ∙ ap (◌++◌ (w.on_disk ++ w.buffer)) (sym (take-length buf)))
]

drop_nil {ℓ} : {A : Type ℓ} (k : ℕ) (xs : List A) → length xs ≤ k → drop k xs ≡ []
drop_nil zero [] h = refl
drop_nil zero (x ∷ xs) h = absurd (omega arith)
drop_nil (suc k) [] h = refl
drop_nil (suc k) (x ∷ xs) h = drop_nil k xs (omega arith)

empty {ℓ} : {A : Type ℓ} (xs : List A) → length xs ≡ 0 → xs ≡ []
empty [] h = refl
empty (x ∷ xs) h = absurd (omega arith)

pub flush_buf-empty :
    (disk : Disk) (w : FlushingWriter)
    → (flush_buf disk w).0 ≡ true
    → (flush_buf disk w).1.buffer ≡ []
unfolding flush_buf
flush_buf-empty takes_all w h = refl
flush_buf-empty (fails_after k) w h = drop_nil k w.buffer (ground arith)

buffered_write-Took :
    (room disk : Disk) (buf : Bytes) (w : FlushingWriter)
    → Took buf
        (content w)
        (buffered_write room disk buf w).0
        (content (buffered_write room disk buf w).1)
unfolding buffered_write
buffered_write-Took room disk buf w =
    elim (Bool-cases (ltb (capacity - length w.buffer) (length buf))) [
      | inl full ↦ rw full (made (flush_buf room w).0 refl)
      | inr fits ↦ rw fits (take_in-Took disk buf w (λ long. empty w.buffer (no_room long fits)))
    ]
  where
    no_room :
        leb capacity (length buf) ≡ true
        → ltb (capacity - length w.buffer) (length buf) ≡ false
        → length w.buffer ≡ 0
    no_room long fits = ground arith

    w' : FlushingWriter
    w' = (flush_buf room w).1

    made :
        (b : Bool)
        → (flush_buf room w).0 ≡ b
        → Took buf
            (content w)
            (if b then take_in disk buf w' else (io_error, w')).0
            (content (if b then take_in disk buf w' else (io_error, w')).1)
    made true e =
        subst (λ (c : Bytes). Took buf c (take_in disk buf w').0 (content (take_in disk buf w').1))
          (flush_buf-content room w) (take_in-Took disk buf w' (λ long. flush_buf-empty room w e))
    made false e = (0, flush_buf-content room w ∙ sym (append-nil _))

after_write-Took :
    (now : ℕ) (disk : Disk) (n : ℕ) (buf before : Bytes) (w : FlushingWriter)
    → content w ≡ before ++ take n buf
    → Took buf before (after_write now disk n w).0 (content (after_write now disk n w).1)
unfolding after_write
after_write-Took now disk n buf before w h = elim (Bool-cases (flush_due now w)) [
  | inl due ↦ rw due (done (flush_buf disk w).0)
  | inr not_yet ↦ rw not_yet h
]
  where
    w' : FlushingWriter
    w' = (flush_buf disk w).1

    after : Bool → IoResult × FlushingWriter
    after b = if b then (wrote n, record w' { count = 0; last_flush = now }) else (io_error, w')

    done : (b : Bool) → Took buf before (after b).0 (content (after b).1)
    done true = flush_buf-content disk w ∙ h
    done false = (n, flush_buf-content disk w ∙ h)

counted-Took :
    (now : ℕ) (disk : Disk) (buf before : Bytes) (r : IoResult) (w : FlushingWriter)
    → Took buf before r (content w)
    → Took buf before (counted now disk (r, w)).0 (content (counted now disk (r, w)).1)
unfolding counted
counted-Took now disk buf before (wrote n) w h =
    after_write-Took now disk n buf before (record w { count = w.count + 1 }) h
counted-Took now disk buf before io_error w h = h

pub write-Took :
    (now : ℕ) (a : Answers) (buf : Bytes) (w : FlushingWriter)
    → Took buf (content w) (write now a buf w).0 (content (write now a buf w).1)
unfolding write
write-Took now a [] w = sym (append-nil _)
write-Took now a (b ∷ buf) w =
    counted-Took now a.final (b ∷ buf) (content w) (buffered_write a.room a.long (b ∷ buf) w).0
      (buffered_write a.room a.long (b ∷ buf) w).1 (buffered_write-Took a.room a.long (b ∷ buf) w)
