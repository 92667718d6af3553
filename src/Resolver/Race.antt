-- ===== src/Resolver/Race.antt =====
-- An event of the trace between the two halves of a lookup.
use simple_forwarder.Prelude.{
  ℕ, ◌≡◌, ◌≢◌, refl, Bool, true, false, none, some, [], ◌∷◌, ◌==◌, ==→eq, ltb, if◌then◌else◌, keep,
  length,
}
use simple_forwarder.Text.{Bytes}
use simple_forwarder.Resolver.Cache.{
  Cache, get, remove_key, is_fresh, exe_cache_capacity, evict_stale_entries, get-remove_key,
  get-evict-insert,
}
use simple_forwarder.Resolver.Defs.{ExeResolver, known_pid, consult, cache_exe}
use simple_forwarder.Resolver.Trace.{EventRecord, captured_port, captured, on_event}

get-keep :
    {V : Type 0} (now : ℕ) (m : Cache V) (port : ℕ)
    → get m port ≡ none
    → get (keep (is_fresh now) m) port ≡ none
get-keep now [] port h = refl
get-keep now ((p, v, time) ∷ m) port h =
    go (is_fresh now (p, v, time)) (p == port) refl h (get-keep now m port)
  where
    go :
        (b c : Bool)
        → (p == port) ≡ c
        → (if c then some v else get m port) ≡ none
        → (get m port ≡ none → get (keep (is_fresh now) m) port ≡ none)
        → get (if b then (p, v, time) ∷ keep (is_fresh now) m else keep (is_fresh now) m) port
          ≡ none
    go b true e k rec = absurd cc
    go true false e k rec = rw e (rec k)
    go false false e k rec = rec k

get-evict-none :
    {V : Type 0} (now : ℕ) (m : Cache V) (port : ℕ)
    → get m port ≡ none
    → get (evict_stale_entries now m) port ≡ none
unfolding evict_stale_entries
get-evict-none now m port h = go (ltb exe_cache_capacity (length m))
  where
    go : (b : Bool) → get (if b then keep (is_fresh now) m else m) port ≡ none
    go true = get-keep now m port h
    go false = h

-- A lookup that is still resolving the name of the old process of a port when an event gives the port to
-- another process does not cache that name: the caches know the new process, and no name.
pub consult-on_event :
    (now now' sport old_pid : ℕ) (exe : Bytes) (e : EventRecord) (r : ExeResolver)
    → captured_port r.listen_port e ≡ some sport
    → e.process_id ≢ old_pid
    → consult sport (cache_exe now' sport old_pid exe (on_event now e r)) ≡ known_pid e.process_id
unfolding consult cache_exe on_event captured
consult-on_event now now' sport old_pid exe e r f other =
    rw (f, on_event)
      (rw (get-evict-insert sport e.process_id now r.port_to_pid, cache_exe)
        (rw (different (e.process_id == old_pid) refl) (
          rw
            (
              get-evict-none now (remove_key sport r.port_to_exe) sport
                  (get-remove_key sport r.port_to_exe),
              consult,
            )
            (rw (get-evict-insert sport e.process_id now r.port_to_pid, consult) refl))))
  where
    different : (b : Bool) → (e.process_id == old_pid) ≡ b → (e.process_id == old_pid) ≡ false
    different true h = absurd (other (==→eq e.process_id old_pid h))
    different false h = h

-- An event leaves the caches with its process, and no name for its port.
pub consult-event :
    (now sport : ℕ) (e : EventRecord) (r : ExeResolver)
    → captured_port r.listen_port e ≡ some sport
    → consult sport (on_event now e r) ≡ known_pid e.process_id
unfolding consult on_event captured
consult-event now sport e r f =
    rw (f, on_event)
      (rw
        (
          get-evict-none now (remove_key sport r.port_to_exe) sport
              (get-remove_key sport r.port_to_exe),
          consult,
        )
        (rw (get-evict-insert sport e.process_id now r.port_to_pid, consult) refl))

pub get-event :
    (now sport : ℕ) (e : EventRecord) (r : ExeResolver)
    → captured_port r.listen_port e ≡ some sport
    → get (on_event now e r).port_to_pid sport ≡ some e.process_id
unfolding on_event captured
get-event now sport e r f = rw (f, on_event) (get-evict-insert sport e.process_id now r.port_to_pid)
