-- ===== src/Server/Relay/Defs.antt =====
-- The relay as a machine: an event is what one direction waits for, a part of a write at a time, or the
-- end of the linger time. The two directions and the timer run interleaved, so their events come in any
-- order: the linger time can end while a write is under way.
use simple_forwarder.Prelude.{
  ℕ, ◌+◌, Bool, true, false, not, ◌&&◌, List, [], ◌∷◌, ◌++◌, ◌==◌, leb, if◌then◌else◌, is_nil,
  length, take, drop, ltb,
}
use simple_forwarder.Text.{Bytes, codes}
use simple_forwarder.Net.Error.{Error, message, error_text}
use simple_forwarder.Stats.{TrafficStats}
use simple_forwarder.Tracker.State.{Tracker, add_u64, set_closed, set_error}

pub data Direction : Type 0 where
  to_target to_client : Direction

-- What a direction waits for may come at any time: so many bytes of its `write_all` go out, the write fails
-- or runs into its timeout, bytes are read, or their end, a failure or the idle timeout; the shutdown of
-- the writer is over, however it ended.
pub data Event : Type 0 where
  put : Direction → ℕ → Event
  write_error : Direction → Error → Event
  write_late : Direction → Event
  receive : Direction → Bytes → Event
  end_of_input : Direction → Event
  read_error : Direction → Error → Event
  idle : Direction → Event
  shutdown_over : Direction → Event
  linger_over : Event

-- One direction: the bytes of the `write_all` under way that have not gone out, at first the leftover; how
-- many of it have gone out, which are counted when it is over; what has been read since the handshake,
-- and all that has gone out. `shutting` is the time of the writer's shutdown, `ended` is `client_done` or
-- `target_done`.
pub record Copy : Type 0 where
  pub pending : Bytes
  pub uncounted : ℕ
  pub received : Bytes
  pub output : Bytes
  pub shutting : Bool
  pub ended : Bool

pub data Progress : Type 0 where
  running closed : Progress
  failed : Error → Progress

pub record Relay : Type 0 where
  pub up : Copy
  pub down : Copy
  pub is_direct : Bool
  pub conn_id : ℕ
  pub stats : TrafficStats
  pub tracker : Tracker
  pub lingering : Bool
  pub progress : Progress

abbrev pub relay_buf_size : ℕ
relay_buf_size = 8192

abbrev pub copy_of : Direction → Relay → Copy
copy_of to_target r = r.up
copy_of to_client r = r.down

abbrev pub with_copy : Direction → Copy → Relay → Relay
with_copy to_target c r = record r { up = c }
with_copy to_client c r = record r { down = c }

abbrev pub opposite : Direction → Direction
opposite to_target = to_client
opposite to_client = to_target

-- The write under way is that of the leftover until something is read.
abbrev pub late_write : Direction → Bytes → Error
late_write to_target [] = message (codes "Target leftover write timeout (30s)")
late_write to_target (c ∷ received) = message (codes "Target write timeout (30s)")
late_write to_client [] = message (codes "Client target-leftover write timeout (30s)")
late_write to_client (c ∷ received) = message (codes "Client write timeout (30s)")

abbrev pub idle_timeout : Direction → Error
idle_timeout to_target = message (codes "Client connection idle timeout")
idle_timeout to_client = message (codes "Target connection idle timeout")

unfoldable pub count_stats : Direction → Bool → ℕ → TrafficStats → TrafficStats
count_stats to_target true n s = record s {
  direct_tx = add_u64 s.direct_tx n;
  traffic_active = true;
}
count_stats to_target false n s = record s {
  upstream_tx = add_u64 s.upstream_tx n;
  traffic_active = true;
}
count_stats to_client true n s = record s {
  direct_rx = add_u64 s.direct_rx n;
  traffic_active = true;
}
count_stats to_client false n s = record s {
  upstream_rx = add_u64 s.upstream_rx n;
  traffic_active = true;
}

unfoldable pub count_connection : Direction → ℕ → ℕ → Tracker → Tracker
count_connection to_target id n t = record t {
  bytes_sent = λ i. if i == id then add_u64 (t.bytes_sent i) n else t.bytes_sent i;
}
count_connection to_client id n t = record t {
  bytes_received = λ i. if i == id then add_u64 (t.bytes_received i) n else t.bytes_received i;
}

-- The counters after n bytes have been written.
unfoldable pub account : Direction → ℕ → Relay → Relay
unfolding count_stats count_connection
account d n r = record r {
  stats = count_stats d r.is_direct n r.stats;
  tracker = count_connection d r.conn_id n r.tracker;
}

-- A direction fails: so does the relay, and the tracker shows the error.
unfoldable pub fail_with : ℕ → Direction → Error → Relay → Relay
fail_with now d e r = record (with_copy d (record (copy_of d r) { ended = true }) r) {
  tracker = set_error now r.conn_id (error_text e) r.tracker;
  progress = failed e;
}

-- Bytes of the write under way go out.
abbrev pub put_out : Direction → ℕ → Relay → Relay
put_out d k r =
    let c = copy_of d r in
    with_copy d
      (record c {
        pending = drop k c.pending;
        uncounted = c.uncounted + k;
        output = c.output ++ take k c.pending;
      })
      r

-- The counters after a write that is over.
abbrev pub count_write : Direction → Relay → Relay
count_write d r =
    account d (copy_of d r).uncounted (with_copy d (record (copy_of d r) { uncounted = 0 }) r)

abbrev pub take_in : Direction → Bytes → Relay → Relay
take_in d b r =
    let c = copy_of d r in with_copy d (record c { pending = b; received = c.received ++ b }) r

abbrev pub shut : Direction → Relay → Relay
shut d r = with_copy d (record (copy_of d r) { shutting = true }) r

unfoldable pub close : ℕ → Relay → Relay
close now r = record r { tracker = set_closed now r.conn_id r.tracker; progress = closed }

-- A direction ends well. The first to end starts the linger time.
unfoldable pub finish : ℕ → Direction → Relay → Relay
unfolding close
finish now d r =
    let r' = with_copy d (record (copy_of d r) { ended = true }) r in
    if (copy_of (opposite d) r).ended then close now r' else record r' { lingering = true }

abbrev pub is_running : Progress → Bool
is_running running = true
is_running closed = false
is_running (failed e) = false

-- What a direction waits for: its write, as long as bytes of it are left; then the reader; then the
-- shutdown of the writer.
abbrev pub writing : Direction → Relay → Bool
writing d r =
    is_running r.progress && (not (copy_of d r).ended && not (is_nil (copy_of d r).pending))

abbrev pub reading : Direction → Relay → Bool
reading d r =
    is_running r.progress
    && (is_nil (copy_of d r).pending && (not (copy_of d r).ended && not (copy_of d r).shutting))

abbrev pub ending : Direction → Relay → Bool
ending d r =
    is_running r.progress
    && (is_nil (copy_of d r).pending && (not (copy_of d r).ended && (copy_of d r).shutting))

abbrev pub is_read : Bytes → Bool
is_read b = not (is_nil b) && leb (length b) relay_buf_size

-- A write puts out a byte at least, and no more than are left.
abbrev pub is_put : ℕ → Bytes → Bool
is_put k b = ltb 0 k && leb k (length b)

-- With its last bytes a write is over, and its bytes are counted before anything else is waited for.
unfoldable pub write_some : Direction → ℕ → Relay → Relay
unfolding account
write_some d k r =
    let r' = put_out d k r in if is_nil (copy_of d r').pending then count_write d r' else r'

-- An event that the code does not wait for in this state leaves the state alone. The first argument is
-- the instant.
unfoldable pub step : ℕ → Event → Relay → Relay
unfolding write_some finish fail_with close
step now (put d k) r = if writing d r && is_put k (copy_of d r).pending then write_some d k r else r
step now (write_error d e) r = if writing d r then fail_with now d e r else r
step now (write_late d) r =
    if writing d r then fail_with now d (late_write d (copy_of d r).received) r else r
step now (receive d b) r = if reading d r && is_read b then take_in d b r else r
step now (end_of_input d) r = if reading d r then shut d r else r
step now (read_error d e) r = if reading d r then fail_with now d e r else r
step now (idle d) r = if reading d r then fail_with now d (idle_timeout d) r else r
step now (shutdown_over d) r = if ending d r then finish now d r else r
step now linger_over r = if is_running r.progress && r.lingering then close now r else r

unfoldable pub run : List (ℕ × Event) → Relay → Relay
unfolding step
run [] r = r
run ((now, e) ∷ events) r = run events (step now e r)

abbrev pub fresh_copy : Bytes → Copy
fresh_copy leftover = record {
  pending = leftover;
  uncounted = 0;
  received = [];
  output = [];
  shutting = false;
  ended = false;
}

-- The relay as it is called after the handshake.
unfoldable pub start : Bool → ℕ → Bytes → Bytes → TrafficStats → Tracker → Relay
start is_direct conn_id leftover target_leftover stats tracker = record {
  up = fresh_copy leftover;
  down = fresh_copy target_leftover;
  is_direct = is_direct;
  conn_id = conn_id;
  stats = stats;
  tracker = tracker;
  lingering = false;
  progress = running;
}
