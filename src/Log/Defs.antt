-- ===== src/Log/Defs.antt =====
-- `setup_logger`, and `FlushingWriter` on `BufWriter<File>`. The standard library's `BufWriter` is written
-- out; what the file does with a write is an argument.
use simple_forwarder.Prelude.{
  ℕ, zero, suc, ◌+◌, ◌-◌, Bool, true, false, ◌||◌, none, some, [], ◌∷◌, ◌++◌, ltb, leb,
  if◌then◌else◌, length, take, drop,
}
use simple_forwarder.Text.{Bytes, codes}
use simple_forwarder.Net.Error.{message}
use simple_forwarder.Outcome.{Outcome, done, failed}
use simple_forwarder.Config.Load.{LogType, console, file, nowhere, LogConfig}

-- What `setup_logger` installs.
pub data Sink : Type 0 where
  no_log to_console : Sink
  to_file : Bytes → Sink

-- A build with debug assertions logs to the console unless the configuration says otherwise.
unfoldable pub effective_log_type : Bool → LogType → LogType
effective_log_type true nowhere = console
effective_log_type true console = console
effective_log_type true file = file
effective_log_type false t = t

-- Without an error of the operating system.
unfoldable pub setup_logger : Bool → LogConfig → Outcome Sink
unfolding effective_log_type
setup_logger debug config = elim (effective_log_type debug config.log_type) [
  | nowhere ↦ done no_log
  | console ↦ done to_console
  | file ↦ elim config.log_file [
    | none ↦ failed (message (codes "Log file path is required when log_type is file"))
    | some log_file ↦ done (to_file log_file)
  ]
]

-- The file takes all that it is given, or fails after so many bytes.
pub data Disk : Type 0 where
  takes_all : Disk
  fails_after : ℕ → Disk

pub record FlushingWriter : Type 0 where
  -- what the file holds, and what the `BufWriter` still holds
  pub on_disk : Bytes
  pub buffer : Bytes
  pub count : ℕ
  pub flush_count : ℕ
  -- in nanoseconds, as all instants
  pub flush_interval : ℕ
  pub last_flush : ℕ

unfoldable pub new_writer : ℕ → Bytes → ℕ → ℕ → FlushingWriter
new_writer now on_disk flush_count flush_interval = record {
  on_disk = on_disk;
  buffer = [];
  count = 0;
  flush_count = flush_count;
  flush_interval = flush_interval;
  last_flush = now;
}

-- The capacity of a `BufWriter` from `new`.
abbrev pub capacity : ℕ
capacity = 8192

-- A result, where an error carries no more.
pub data IoResult : Type 0 where
  wrote : ℕ → IoResult
  io_error : IoResult

-- `BufWriter::flush_buf`: bytes that the file did not take stay in the buffer.
unfoldable pub flush_buf : Disk → FlushingWriter → Bool × FlushingWriter
flush_buf takes_all w = (true, record w { on_disk = w.on_disk ++ w.buffer; buffer = [] })
flush_buf (fails_after k) w = (
  leb (length w.buffer) k,
  record w { on_disk = w.on_disk ++ take k w.buffer; buffer = drop k w.buffer },
)

-- `File::write`: a file that takes some bytes reports how many.
unfoldable pub file_write : Disk → Bytes → FlushingWriter → IoResult × FlushingWriter
file_write takes_all buf w = (wrote (length buf), record w { on_disk = w.on_disk ++ buf })
file_write (fails_after zero) buf w = (io_error, w)
file_write (fails_after (suc k)) buf w =
    (wrote (length (take (suc k) buf)), record w { on_disk = w.on_disk ++ take (suc k) buf })

-- A long write goes to the file at once, any other into the buffer.
unfoldable pub take_in : Disk → Bytes → FlushingWriter → IoResult × FlushingWriter
unfolding file_write
take_in disk buf w =
    if leb capacity (length buf)
    then file_write disk buf w
    else (wrote (length buf), record w { buffer = w.buffer ++ buf })

-- `BufWriter::write`: a buffer with too little room is flushed first. The first argument is the file's
-- answer to that flush, the second its answer to a long write.
unfoldable pub buffered_write : Disk → Disk → Bytes → FlushingWriter → IoResult × FlushingWriter
unfolding flush_buf take_in
buffered_write room disk buf w =
    if ltb (capacity - length w.buffer) (length buf)
    then (let (flushed, w') = flush_buf room w in
        if flushed then take_in disk buf w' else (io_error, w'))
    else take_in disk buf w

-- The flush of a write that has been taken in, by count or by time.
unfoldable pub flush_due : ℕ → FlushingWriter → Bool
flush_due now w = leb w.flush_count w.count || leb w.flush_interval (now - w.last_flush)

unfoldable pub after_write : ℕ → Disk → ℕ → FlushingWriter → IoResult × FlushingWriter
unfolding flush_due flush_buf
after_write now disk n w =
    if flush_due now w
    then (let (flushed, w') = flush_buf disk w in
        if flushed then (wrote n, record w' { count = 0; last_flush = now }) else (io_error, w'))
    else (wrote n, w)

-- The answers of the file during a write: to making room, to a long write, and to the flush at the end.
pub record Answers : Type 0 where
  pub room : Disk
  pub long : Disk
  pub final : Disk

-- What follows the write of the `BufWriter`.
unfoldable pub counted : ℕ → Disk → IoResult × FlushingWriter → IoResult × FlushingWriter
unfolding after_write
counted now disk (wrote n, w) = after_write now disk n (record w { count = w.count + 1 })
counted now disk (io_error, w) = (io_error, w)

unfoldable pub write : ℕ → Answers → Bytes → FlushingWriter → IoResult × FlushingWriter
unfolding buffered_write counted
write now a [] w = (wrote 0, w)
write now a (b ∷ buf) w = counted now a.final (buffered_write a.room a.long (b ∷ buf) w)

unfoldable pub flush : Disk → FlushingWriter → Bool × FlushingWriter
unfolding flush_buf
flush disk w = flush_buf disk w
