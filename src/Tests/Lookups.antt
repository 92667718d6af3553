-- ===== src/Tests/Lookups.antt =====
-- The resolver at concrete inputs.
use simple_forwarder.Prelude.{◌≡◌, refl, true, false, none, some, [], ◌∷◌, arith, ℕ, Option, ◌⊎◌}
use simple_forwarder.Text.{Bytes, codes}
use simple_forwarder.Resolver.Netstat.{
  TcpSocket, tcp, Owns, is_system, lookup_port_to_pid, scan, client_pid, lookup_port_to_pid-Owns,
}
use simple_forwarder.Resolver.Defs.{new_resolver, consult, cache_exe, known_pid, known_exe, lookup}
use simple_forwarder.Tracker.State as Trackers
use simple_forwarder.Tracker.State.{Tracker, register, set_exe_name}
use simple_forwarder.Resolver.Lookup.{lookup-twice}
use simple_forwarder.Server.Naming.Once.{take_turns-over}
use simple_forwarder.Server.Naming.{looks, traced, over, take_turns, new_naming, take_turns-traced}
use simple_forwarder.Resolver.Trace.{EventRecord, captured_port, on_event}
use simple_forwarder.Resolver.Race.{consult-on_event}

abbrev client_socket : TcpSocket
client_socket = record { local_port = 50000; remote_port = 1080; associated_pids = 77 ∷ [] }

socket_example : Owns 1080 50000 77 (tcp client_socket ∷ []) × (is_system 77 ≡ false)
unfolding lookup_port_to_pid scan client_pid
socket_example = lookup_port_to_pid-Owns (tcp client_socket ∷ []) 1080 50000 77 refl

abbrev names : ℕ → Option Bytes
names pid = some (codes "curl")

cached_example :
    ((lookup names (some (tcp client_socket ∷ [])) 1 50000 (new_resolver 1080)).0
      ≡ some (codes "curl"))
    × (lookup
          (λ pid. none)
          none
          2
          50000
          (lookup names (some (tcp client_socket ∷ [])) 1 50000 (new_resolver 1080)).1
        ≡ (
          some (codes "curl"),
          (lookup names (some (tcp client_socket ∷ [])) 1 50000 (new_resolver 1080)).1,
        ))
unfolding new_resolver consult lookup_port_to_pid scan client_pid
cached_example =
    lookup-twice names (λ pid. none) (some (tcp client_socket ∷ [])) none 1 2 50000
      (new_resolver 1080) (codes "curl") 77 refl refl refl

abbrev listed : Tracker
listed = (register (codes "a") (codes "b") (codes "c") (codes "d") Trackers.new).1

abbrev new_connection : EventRecord
new_connection = record {
  event_id = 10;
  process_id = 78;
  has_schema = true;
  dport = some 1080;
  sport = some 50000;
}

race_example :
    consult 50000
      (cache_exe 3 50000 77 (codes "curl") (on_event 2 new_connection (new_resolver 1080)))
    ≡ known_pid 78
unfolding captured_port new_resolver
race_example =
    consult-on_event 2 3 50000 77 (codes "curl") new_connection (new_resolver 1080) refl
      (omega arith)

traced_example :
    (let n =
        take_turns 1 50000
          (looks names none 1 ∷ traced 2 new_connection ∷ looks names none 3 ∷ [])
          (new_naming (new_resolver 1080) listed) in
      (n.attempt ≡ over)
      × (n.tracker ≡ set_exe_name 1 (codes "curl") listed)
      × (consult 50000 n.resolver ≡ known_exe (codes "curl")))
unfolding captured_port new_resolver lookup consult lookup_port_to_pid
traced_example =
    take_turns-traced 1 50000 names names none none 1 2 3 new_connection (new_resolver 1080) listed
      (codes "curl") refl refl refl

over_example :
    (let n =
        take_turns 1 50000
          (looks names none 1 ∷ traced 2 new_connection ∷ looks names none 3 ∷ [])
          (new_naming (new_resolver 1080) listed) in
      (n.attempt ≡ over)
      × ((n.tracker ≡ listed) ⊎ ((exe : Bytes) × (n.tracker ≡ set_exe_name 1 exe listed))))
over_example =
    take_turns-over 1 50000 (looks names none 1 ∷ traced 2 new_connection ∷ looks names none 3 ∷ [])
      (new_resolver 1080) listed (omega arith)
