-- ===== src/Server/Naming.antt =====
-- The task of `handle_connection` that finds the program of a client in the background: a lookup, and
-- another one 50 ms later if the first finds none.
pub mod Once
use simple_forwarder.Prelude.{
  ℕ, suc, ◌-◌, ◌≤◌, ◌≡◌, ◌≢◌, refl, ap, ◌⊎◌, inl, inr, arith, Option, none, some, List, [], ◌∷◌,
}
use simple_forwarder.Text.{Bytes}
use simple_forwarder.Tracker.State.{Tracker, set_exe_name}
use simple_forwarder.Resolver.Netstat.{Socket}
use simple_forwarder.Resolver.Defs.{
  ExeResolver, known_exe, consult, cache_exe, resolve_and_cache_pid, lookup,
}
use simple_forwarder.Resolver.Lookup.{cache_exe-current}
use simple_forwarder.Resolver.Trace.{EventRecord, captured_port, on_event}
use simple_forwarder.Resolver.Race.{consult-event, get-event}

-- Before the first lookup, in the wait before the second, or done.
pub data Attempt : Type 0 where
  first_lookup retry_later over : Attempt

-- The task with what it shares with the others.
pub record Naming : Type 0 where
  pub attempt : Attempt
  pub resolver : ExeResolver
  pub tracker : Tracker

-- A lookup of the task, undisturbed, or an event of the trace. The answers of the system to a lookup are
-- its arguments.
pub data Turn : Type 0 where
  looks : (ℕ → Option Bytes) → Option (List Socket) → ℕ → Turn
  traced : ℕ → EventRecord → Turn

abbrev pub new_naming : ExeResolver → Tracker → Naming
new_naming r t = record { attempt = first_lookup; resolver = r; tracker = t }

module _ (conn_id sport : ℕ) where
  -- `next` is where the task goes if there is no name.
  unfoldable pub found : Attempt → Option Bytes × ExeResolver → Naming → Naming
  found next (some exe, r) n = record {
    attempt = over;
    resolver = r;
    tracker = set_exe_name conn_id exe n.tracker;
  }
  found next (none, r) n = record n { attempt = next; resolver = r }

  unfoldable pub look : Attempt → (ℕ → Option Bytes) → Option (List Socket) → ℕ → Naming → Naming
  unfolding found
  look first_lookup exe_of sockets now n =
      found retry_later (lookup exe_of sockets now sport n.resolver) n
  look retry_later exe_of sockets now n = found over (lookup exe_of sockets now sport n.resolver) n
  look over exe_of sockets now n = n

  unfoldable pub take_turn : Turn → Naming → Naming
  unfolding look
  take_turn (looks exe_of sockets now) n = look n.attempt exe_of sockets now n
  take_turn (traced now e) n = record n { resolver = on_event now e n.resolver }

  unfoldable pub take_turns : List Turn → Naming → Naming
  unfolding take_turn
  take_turns [] n = n
  take_turns (t ∷ ts) n = take_turns ts (take_turn t n)

  -- A lookup right after an event of the trace finds the event's process.
  lookup-event :
      (exe_of : ℕ → Option Bytes) (sockets : Option (List Socket)) (now now' : ℕ) (e : EventRecord)
      (r : ExeResolver) (exe : Bytes)
      → captured_port r.listen_port e ≡ some sport
      → exe_of e.process_id ≡ some exe
      → lookup exe_of sockets now' sport (on_event now e r)
        ≡ (some exe, cache_exe now' sport e.process_id exe (on_event now e r))
  unfolding lookup resolve_and_cache_pid
  lookup-event exe_of sockets now now' e r exe f g =
      rw (consult-event now sport e r f, lookup) (rw (g, resolve_and_cache_pid) refl)

  found-none :
      (next : Attempt) (x : Option Bytes × ExeResolver) (n : Naming)
      → x.0 ≡ none
      → found next x n ≡ record n { attempt = next; resolver = x.1 }
  unfolding found
  found-none next (some exe, r) n h = absurd cc
  found-none next (none, r) n h = refl

  -- The trace reports the connection after the first lookup, which finds nothing: then the second lookup
  -- finds the program of the reported process, whatever the sockets show; the connection's row gets its
  -- name, the task is over, and the next lookup of the port has the name from the caches.
  pub take_turns-traced :
      (exe_of exe_of' : ℕ → Option Bytes) (sockets sockets' : Option (List Socket))
      (now now' now'' : ℕ) (e : EventRecord) (r : ExeResolver) (t : Tracker) (exe : Bytes)
      → (lookup exe_of sockets now sport r).0 ≡ none
      → captured_port (lookup exe_of sockets now sport r).1.listen_port e ≡ some sport
      → exe_of' e.process_id ≡ some exe
      → (let n =
            take_turns
              (looks exe_of sockets now ∷ traced now' e ∷ looks exe_of' sockets' now'' ∷ [])
              (new_naming r t) in
          (n.attempt ≡ over)
          × (n.tracker ≡ set_exe_name conn_id exe t)
          × (consult sport n.resolver ≡ known_exe exe))
  unfolding take_turns
  take_turns-traced exe_of exe_of' sockets sockets' now now' now'' e r t exe h f g =
      let r' = (lookup exe_of sockets now sport r).1 in
      rw (found-none retry_later (lookup exe_of sockets now sport r) (new_naming r t) h) (
        rw (lookup-event exe_of' sockets' now' now'' e r' exe f g) (
          refl,
          refl,
          cache_exe-current now'' sport e.process_id exe (on_event now' e r')
              (get-event now' sport e r' f),
        ))
