-- ===== src/Resolver/Defs.antt =====
-- `ExeResolver`. Another task may change the caches while a lookup waits for the system, so a lookup is
-- three steps on the caches.
use simple_forwarder.Prelude.{ℕ, Bool, false, Option, none, some, List, ◌==◌, if◌then◌else◌}
use simple_forwarder.Text.{Bytes}
use simple_forwarder.Resolver.Netstat.{Socket, lookup_port_to_pid}
use simple_forwarder.Resolver.Cache.{Cache, get, insert, remove_key, evict_stale_entries}

pub record ExeResolver : Type 0 where
  pub port_to_pid : Cache ℕ
  pub port_to_exe : Cache Bytes
  pub listen_port : ℕ

unfoldable pub new_resolver : ℕ → ExeResolver
new_resolver listen_port = record {
  port_to_pid = List.[];
  port_to_exe = List.[];
  listen_port = listen_port;
}

-- What the caches know of a port.
pub data Known : Type 0 where
  known_exe : Bytes → Known
  known_pid : ℕ → Known
  unknown : Known

unfoldable pub consult : ℕ → ExeResolver → Known
consult remote_port r = elim (get r.port_to_exe remote_port) [
  | some exe ↦ known_exe exe
  | none ↦ elim (get r.port_to_pid remote_port) [ some pid ↦ known_pid pid | none ↦ unknown ]
]

-- A process found by a scan is remembered.
unfoldable pub cache_pid : ℕ → ℕ → ℕ → ExeResolver → ExeResolver
cache_pid now remote_port pid r = record r {
  port_to_pid = evict_stale_entries now (insert remote_port pid now r.port_to_pid);
}

abbrev is_current : ℕ → Option ℕ → Bool
is_current pid none = false
is_current pid (some p) = p == pid

-- The end of `resolve_and_cache_pid`: the name is cached if the process is still that of the port.
unfoldable pub cache_exe : ℕ → ℕ → ℕ → Bytes → ExeResolver → ExeResolver
cache_exe now remote_port pid exe r =
    if is_current pid (get r.port_to_pid remote_port)
    then record r {
      port_to_exe = evict_stale_entries now (insert remote_port exe now r.port_to_exe);
    }
    else r

-- `resolve_and_cache_pid`, undisturbed. The name of a process is asked of the system.
unfoldable pub resolve_and_cache_pid :
    (ℕ → Option Bytes) → ℕ → ℕ → ℕ → ExeResolver → Option Bytes × ExeResolver
unfolding cache_exe
resolve_and_cache_pid exe_of now remote_port pid r = elim (exe_of pid) [
  | none ↦ (none, r)
  | some exe ↦ (some exe, cache_exe now remote_port pid exe r)
]

-- `lookup`, undisturbed.
unfoldable pub lookup :
    (ℕ → Option Bytes) → Option (List Socket) → ℕ → ℕ → ExeResolver → Option Bytes × ExeResolver
unfolding consult lookup_port_to_pid cache_pid resolve_and_cache_pid
lookup exe_of sockets now remote_port r = elim (consult remote_port r) [
  | known_exe exe ↦ (some exe, r)
  | known_pid pid ↦ resolve_and_cache_pid exe_of now remote_port pid r
  | unknown ↦ elim (lookup_port_to_pid sockets r.listen_port remote_port) [
    | none ↦ (none, r)
    | some pid ↦ resolve_and_cache_pid exe_of now remote_port pid (cache_pid now remote_port pid r)
  ]
]

unfoldable pub remove : ℕ → ExeResolver → ExeResolver
remove port r = record r {
  port_to_pid = remove_key port r.port_to_pid;
  port_to_exe = remove_key port r.port_to_exe;
}
