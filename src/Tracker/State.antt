-- ===== src/Tracker/State.antt =====
-- `ConnectionTracker`: its state and every operation. A lock is held for the whole of an operation, so
-- each is one step on the state, but for `register`, which draws the id before it takes the lock.
use simple_forwarder.Prelude.{
  ℕ, ◌+◌, ◌-◌, ◌%◌, ◌^◌, Bool, true, false, Option, none, some, List, [], ◌∷◌, ◌++◌, ltb, ◌==◌,
  if◌then◌else◌, length, keep, put, is_some, filter_map,
}
use simple_forwarder.Text.{Bytes, codes}
use simple_forwarder.Tracker.Defs.{connecting, connected, closed, error, ConnectionInfo}

abbrev pub Connections : Type 0
Connections = ℕ → Option ConnectionInfo

-- The counters of a connection outlive its entry: the relay holds them too.
pub record Tracker : Type 0 where
  pub connections : Connections
  pub order : List ℕ
  pub next_id : ℕ
  pub snapshot_count : ℕ
  pub bytes_sent : ℕ → ℕ
  pub bytes_received : ℕ → ℕ

abbrev pub max_connections : ℕ
max_connections = 5000

-- five seconds
abbrev pub closed_retention : ℕ
closed_retention = 5000000000

-- `fetch_add` on an AtomicU64
abbrev pub add_u64 : ℕ → ℕ → ℕ
add_u64 a b = (a + b) % 2 ^ 64

unfoldable pub new : Tracker
new = record {
  connections = λ id. none;
  order = [];
  next_id = 1;
  snapshot_count = 0;
  bytes_sent = λ id. 0;
  bytes_received = λ id. 0;
}

-- Copy on write: the entry of the id, if there is one, is replaced by a changed copy.
unfoldable pub modify : ℕ → (ConnectionInfo → ConnectionInfo) → Tracker → Tracker
modify id f t = elim (t.connections id) [
  | none ↦ t
  | some c ↦ record t { connections = put id (some (f c)) t.connections }
]

-- Over `limit` entries, the oldest go. The code's limit is `max_connections`.
unfoldable pub evict : ℕ → List ℕ → Connections → List ℕ × Connections
evict limit [] m = ([], m)
evict limit (oldest_id ∷ order) m = elim (ltb limit (length (oldest_id ∷ order))) [
  | true ↦ evict limit order (put oldest_id none m)
  | false ↦ (oldest_id ∷ order, m)
]

-- The entry of a connection that has just been accepted. The last argument is the local time.
unfoldable pub fresh_info : ℕ → Bytes → Bytes → Bytes → Bytes → ConnectionInfo
fresh_info id source_ip outbound_target proxy_protocol start_time = record {
  id = id;
  source_ip = source_ip;
  outbound_target = outbound_target;
  proxy_protocol = proxy_protocol;
  proxy = codes "connecting...";
  start_time = start_time;
  status = connecting;
  exe_name = [];
  closed_at = none;
}

-- `next_id.fetch_add(1)`, before the lock is taken
abbrev pub draw_id : Tracker → ℕ × Tracker
draw_id t = (t.next_id, record t { next_id = add_u64 t.next_id 1 })

-- The rest of `register`, under the lock; the counters of the id are new.
abbrev pub insert_info : ℕ → Bytes → Bytes → Bytes → Bytes → Tracker → Tracker
insert_info id source_ip outbound_target proxy_protocol start_time t =
    let info = fresh_info id source_ip outbound_target proxy_protocol start_time in
    let (order, connections) =
      evict max_connections (t.order ++ id ∷ []) (put id (some info) t.connections) in
    record t {
      connections = connections;
      order = order;
      bytes_sent = λ i. if i == id then 0 else t.bytes_sent i;
      bytes_received = λ i. if i == id then 0 else t.bytes_received i;
    }

-- The two steps with no other call between them.
unfoldable pub register : Bytes → Bytes → Bytes → Bytes → Tracker → ℕ × Tracker
unfolding evict fresh_info
register source_ip outbound_target proxy_protocol start_time t =
    let (id, t') = draw_id t in
    (id, insert_info id source_ip outbound_target proxy_protocol start_time t')

unfoldable pub set_exe_name : ℕ → Bytes → Tracker → Tracker
unfolding modify
set_exe_name id exe_name = modify id (λ c. record c { exe_name = exe_name })

unfoldable pub set_proxy : ℕ → Bytes → Tracker → Tracker
unfolding modify
set_proxy id proxy = modify id (λ c. record c { proxy = proxy })

unfoldable pub set_outbound_target : ℕ → Bytes → Tracker → Tracker
unfolding modify
set_outbound_target id target = modify id (λ c. record c { outbound_target = target })

unfoldable pub set_proxy_protocol : ℕ → Bytes → Tracker → Tracker
unfolding modify
set_proxy_protocol id protocol = modify id (λ c. record c { proxy_protocol = protocol })

unfoldable pub set_connected : ℕ → Tracker → Tracker
unfolding modify
set_connected id = modify id (λ c. record c { status = connected })

-- The first argument is the instant of the call.
unfoldable pub set_closed : ℕ → ℕ → Tracker → Tracker
unfolding modify
set_closed now id = modify id (λ c. record c { status = closed; closed_at = some now })

unfoldable pub set_error : ℕ → ℕ → Bytes → Tracker → Tracker
unfolding modify
set_error now id err = modify id (λ c. record c { status = error err; closed_at = some now })

-- `closed_at.is_none_or(|t| t.elapsed() < CLOSED_RETENTION)`
unfoldable pub is_retained : ℕ → ConnectionInfo → Bool
is_retained now c = elim c.closed_at [ none ↦ true | some t ↦ ltb (now - t) closed_retention ]

unfoldable pub retain : ℕ → Connections → Connections
unfolding is_retained
retain now m id = elim (m id) [ none ↦ none | some c ↦ if is_retained now c then some c else none ]

-- The first call of every five drops the connections that have long been closed.
unfoldable pub cleanup : ℕ → Tracker → Tracker
unfolding retain
cleanup now t = record t {
  connections = retain now t.connections;
  order = keep (λ id. is_some (retain now t.connections id)) t.order;
}

abbrev pub rows : Tracker → List ConnectionInfo
rows t = filter_map t.connections t.order

abbrev counted : Tracker → Tracker
counted t = record t { snapshot_count = add_u64 t.snapshot_count 1 }

unfoldable pub snapshot : ℕ → Tracker → List ConnectionInfo × Tracker
unfolding cleanup
snapshot now t = elim (t.snapshot_count % 5 == 0) [
  | true ↦ (rows (cleanup now t), cleanup now (counted t))
  | false ↦ (rows t, counted t)
]
