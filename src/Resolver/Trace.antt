-- ===== src/Resolver/Trace.antt =====
-- The callback of the network trace (try_start_etw, Windows only): an event of a new connection tells the
-- process of a port at once, and makes the old name of the port invalid.
use simple_forwarder.Prelude.{ℕ, Bool, ◌&&◌, Option, none, some, ◌==◌, if◌then◌else◌}
use simple_forwarder.Resolver.Cache.{insert, remove_key, evict_stale_entries}
use simple_forwarder.Resolver.Defs.{ExeResolver}

-- An event as the trace's crate hands it over: whether it has a schema, and the two fields, if they parse.
pub record EventRecord : Type 0 where
  pub event_id : ℕ
  pub process_id : ℕ
  pub has_schema : Bool
  pub dport : Option ℕ
  pub sport : Option ℕ

-- The client's port of an event that counts: a connection to the listening port.
unfoldable pub captured_port : ℕ → EventRecord → Option ℕ
captured_port listen_port e =
    if e.event_id == 10 && e.has_schema
    then elim e.dport [
      | none ↦ none
      | some dport ↦
          if dport == listen_port
          then elim e.sport [ none ↦ none | some sport ↦ if sport == 0 then none else some sport ]
          else none
    ]
    else none

unfoldable pub captured : ℕ → ℕ → ℕ → ExeResolver → ExeResolver
captured now sport pid r = record r {
  port_to_pid = evict_stale_entries now (insert sport pid now r.port_to_pid);
  port_to_exe = evict_stale_entries now (remove_key sport r.port_to_exe);
}

unfoldable pub on_event : ℕ → EventRecord → ExeResolver → ExeResolver
unfolding captured_port captured
on_event now e r = elim (captured_port r.listen_port e) [
  | none ↦ r
  | some sport ↦ captured now sport e.process_id r
]
