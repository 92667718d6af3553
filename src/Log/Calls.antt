-- ===== src/Log/Calls.antt =====
-- The log over any number of calls.
use simple_forwarder.Prelude.{
  ℕ, ◌+◌, ◌-◌, ◌<◌, ◌≡◌, ◌⊎◌, inl, inr, refl, subst, Bool, true, false, ◌||◌, List, [], ◌∷◌, ◌++◌,
  arith, leb, if◌then◌else◌, take, Bool-cases,
}
use simple_forwarder.Text.{Bytes}
use simple_forwarder.Log.Defs.{
  Disk, FlushingWriter, IoResult, wrote, io_error, flush_buf, buffered_write, flush_due,
  after_write, Answers, counted, write, flush,
}
use simple_forwarder.Log.Writes.{content, Took, write-Took, flush_buf-content, flush_buf-empty}

-- A write at an instant, or a flush, with the answers of the file.
pub data Call : Type 0 where
  write_call : ℕ → Answers → Bytes → Call
  flush_call : Disk → Call

unfoldable pub after_calls : List Call → FlushingWriter → FlushingWriter
unfolding write flush
after_calls [] w = w
after_calls (write_call now a buf ∷ cs) w = after_calls cs (write now a buf w).1
after_calls (flush_call disk ∷ cs) w = after_calls cs (flush disk w).1

-- What was to be written, and what the writer answered.
unfoldable pub answers : List Call → FlushingWriter → List (Bytes × IoResult)
unfolding write flush
answers [] w = []
answers (write_call now a buf ∷ cs) w =
    (buf, (write now a buf w).0) ∷ answers cs (write now a buf w).1
answers (flush_call disk ∷ cs) w = answers cs (flush disk w).1

-- The log holds, one after the other, what each call took in.
abbrev pub Logged : Bytes → List (Bytes × IoResult) → Bytes → Type 0
Logged log [] after = after ≡ log
Logged log ((buf, wrote n) ∷ rs) after = Logged (log ++ take n buf) rs after
Logged log ((buf, io_error) ∷ rs) after = (m : ℕ) × Logged (log ++ take m buf) rs after

add_call :
    (buf log log' after : Bytes) (r : IoResult) (rs : List (Bytes × IoResult))
    → Took buf log r log'
    → Logged log' rs after
    → Logged log ((buf, r) ∷ rs) after
add_call buf log log' after (wrote n) rs t h = subst (λ (l : Bytes). Logged l rs after) t h
add_call buf log log' after io_error rs (m, t) h = (m, subst (λ (l : Bytes). Logged l rs after) t h)

-- Over any calls and whatever the file answers, failures and partial writes included: what is on the disk
-- and in the buffer is the old log, and behind it, in the order of the calls, the bytes that each
-- call took in. A call that reports n bytes took in its first n; one that fails, some first bytes.
pub after_calls-Logged :
    (cs : List Call) (w : FlushingWriter)
    → Logged (content w) (answers cs w) (content (after_calls cs w))
unfolding after_calls answers flush
after_calls-Logged [] w = refl
after_calls-Logged (write_call now a buf ∷ cs) w =
    add_call buf (content w) (content (write now a buf w).1) _ (write now a buf w).0 _
      (write-Took now a buf w) (after_calls-Logged cs (write now a buf w).1)
after_calls-Logged (flush_call disk ∷ cs) w =
    subst
      (λ (l : Bytes).
        Logged l (answers cs (flush_buf disk w).1) (content (after_calls cs (flush_buf disk w).1)))
      (flush_buf-content disk w) (after_calls-Logged cs (flush_buf disk w).1)

-- Nothing waits in the buffer, or few writes and not for long.
abbrev pub Waits : ℕ → FlushingWriter → Type 0
Waits now w =
    (w.buffer ≡ []) ⊎ ((w.count < w.flush_count) × (now - w.last_flush < w.flush_interval))

abbrev Prompt : ℕ → IoResult × FlushingWriter → Type 0
Prompt now (wrote n, w) = Waits now w
Prompt now (io_error, w) = Unit {0}

after_write-Prompt :
    (now : ℕ) (disk : Disk) (n : ℕ) (w : FlushingWriter) → Prompt now (after_write now disk n w)
unfolding after_write
after_write-Prompt now disk n w = elim (Bool-cases (flush_due now w)) [
  | inl due ↦ rw due (done (flush_buf disk w).0 refl)
  | inr not_yet ↦ rw not_yet (inr (unfold flush_due in early not_yet))
]
  where
    w' : FlushingWriter
    w' = (flush_buf disk w).1

    done :
        (b : Bool)
        → (flush_buf disk w).0 ≡ b
        → Prompt now
            (if b then (wrote n, record w' { count = 0; last_flush = now }) else (io_error, w'))
    done true e = inl (flush_buf-empty disk w e)
    done false e = tt

    early :
        (leb w.flush_count w.count || leb w.flush_interval (now - w.last_flush)) ≡ false
        → (w.count < w.flush_count) × (now - w.last_flush < w.flush_interval)
    early h = ground arith

counted-Prompt :
    (now : ℕ) (disk : Disk) (r : IoResult) (w : FlushingWriter)
    → Prompt now (counted now disk (r, w))
unfolding counted
counted-Prompt now disk (wrote n) w =
    after_write-Prompt now disk n (record w { count = w.count + 1 })
counted-Prompt now disk io_error w = tt

-- A write that succeeds leaves nothing in the buffer, or fewer writes since the last flush than
-- `flush_count`, the last flush less than `flush_interval` ago.
pub write-Waits :
    (now : ℕ) (a : Answers) (b : ℕ) (buf : Bytes) (w : FlushingWriter) (n : ℕ)
    → (write now a (b ∷ buf) w).0 ≡ wrote n
    → Waits now (write now a (b ∷ buf) w).1
unfolding write
write-Waits now a b buf w n h =
    go (counted now a.final (buffered_write a.room a.long (b ∷ buf) w)) h (
      counted-Prompt now a.final (buffered_write a.room a.long (b ∷ buf) w).0
        (buffered_write a.room a.long (b ∷ buf) w).1)
  where
    go : (r : IoResult × FlushingWriter) → r.0 ≡ wrote n → Prompt now r → Waits now r.1
    go (wrote m, v) e p = p
    go (io_error, v) e p = absurd cc
