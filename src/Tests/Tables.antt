-- ===== src/Tests/Tables.antt =====
-- The table of connections, the relay and the resolver at concrete inputs.
use simple_forwarder.Prelude.{◌≡◌, refl, true, false, none, some, List, [], ◌∷◌, arith, inl}
use simple_forwarder.Text.{codes}
use simple_forwarder.Tracker.State as Trackers
use simple_forwarder.Tracker.State.{Tracker, register, modify, evict, fresh_info, is_retained}
use simple_forwarder.Tracker.Invariant.{IsTracker}
use simple_forwarder.Tracker.Operations.{new-IsTracker, register-IsTracker}
use simple_forwarder.Tracker.Runs.{register_lem}
use simple_forwarder.Tracker.Overlap as Overlap
use simple_forwarder.Tracker.Overlap.{
  Operation, draws, inserts, sets_connected, sets_closed, takes_snapshot, perform_all, IsShared,
  perform_all-IsShared,
}
use simple_forwarder.Resolver.Defs.{new_resolver, consult}
use simple_forwarder.Server.Relay.Defs.{
  to_target, to_client, put, receive, end_of_input, shutdown_over, linger_over, run, start, Relay,
}
use simple_forwarder.Server.Relay.Delivery.{Delivers}
use simple_forwarder.Server.Relay.Runs.{both, run-start-Delivers}
use simple_forwarder.Server.Connection.Defs.{handle_connection, Circumstances, Shared}
use simple_forwarder.Server.Relay.Accounts.{Accounts}
use simple_forwarder.Server.Relay.Settled.{Settled}
use simple_forwarder.Server.Relay.Sums.{Fits, run-start-Accounts}
use simple_forwarder.Server.Connection.Failures.{handle_connection-failure}
use simple_forwarder.Server.Connection.Defs.{timed, late_handshake}
use simple_forwarder.Net.Error.{message, error_text}
use simple_forwarder.Net.Addr.{show_socket_addr}
use simple_forwarder.Outcome.{failed}
use simple_forwarder.Stats.{new_stats}
use simple_forwarder.Tracker.Defs.{error}
use simple_forwarder.Resolver.Defs.{unknown}
use simple_forwarder.Tests.Samples.{
  peer, local, plain_crates, open_network, fresh_stats, one_client,
}

one_client-IsTracker : IsTracker one_client
unfolding Trackers.new
one_client-IsTracker =
    register-IsTracker (codes "a") (codes "b") (codes "c") (codes "d") Trackers.new new-IsTracker
      (omega arith)

abbrev nothing_yet : Overlap.Shared
nothing_yet = record { tracker = Trackers.new; drawn = [] }

nothing_yet-IsShared : IsShared nothing_yet
unfolding Trackers.new
nothing_yet-IsShared = record {
  table = record {
    held = tt;
    listed = λ i h. refl;
    distinct = tt;
    under = tt;
    waiting = tt;
    away = λ i h. refl;
  };
  bounded = omega arith;
}

-- Two clients come at once, and the later id is inserted first; the table is shown in between.
abbrev busy_hour : List Operation
busy_hour =
    draws
    ∷ draws
    ∷ inserts 2 (codes "a") (codes "b") (codes "c") (codes "d")
    ∷ inserts 1 (codes "e") (codes "f") (codes "g") (codes "h")
    ∷ sets_connected 1
    ∷ takes_snapshot 7
    ∷ sets_closed 8 1
    ∷ []

operations_example : IsShared (perform_all busy_hour nothing_yet)
unfolding Trackers.new
operations_example = perform_all-IsShared busy_hour nothing_yet nothing_yet-IsShared (omega arith)

busy_order : (perform_all busy_hour nothing_yet).tracker.order ≡ 2 ∷ 1 ∷ []
unfolding perform_all Trackers.new
busy_order = refl

abbrev busy : Tracker
busy = (perform_all busy_hour nothing_yet).tracker

registered_example :
    (one_client.connections one_client.next_id ≡ none)
    × ((register (codes "e") (codes "f") (codes "g") (codes "h") one_client).0 ≡ one_client.next_id)
    × ((register (codes "e") (codes "f") (codes "g") (codes "h") one_client).1.connections
          one_client.next_id
        ≡ some (fresh_info one_client.next_id (codes "e") (codes "f") (codes "g") (codes "h")))
    × ((register (codes "e") (codes "f") (codes "g") (codes "h") one_client).1.connections 1
        ≡ one_client.connections 1)
unfolding register evict Trackers.new fresh_info
registered_example =
    register_lem (codes "e") (codes "f") (codes "g") (codes "h") one_client 1 one_client-IsTracker
      (omega arith) (inl (omega arith))

relay_example : Delivers (both (codes "hi") []) (
    run
      ((0, put to_target 1)
        ∷ (1, receive to_client (codes "ok"))
        ∷ (2, put to_client 2)
        ∷ (3, end_of_input to_client)
        ∷ (4, shutdown_over to_client)
        ∷ (5, linger_over)
        ∷ [])
      (start true 1 (codes "hi") [] fresh_stats one_client))
relay_example = run-start-Delivers true 1 (codes "hi") [] fresh_stats one_client (
    (0, put to_target 1)
    ∷ (1, receive to_client (codes "ok"))
    ∷ (2, put to_client 2)
    ∷ (3, end_of_input to_client)
    ∷ (4, shutdown_over to_client)
    ∷ (5, linger_over)
    ∷ [])

abbrev idle_program : Shared
idle_program = record { tracker = Trackers.new; resolver = new_resolver 1080; stats = fresh_stats }

counts_fit : Fits 1 true one_client fresh_stats
unfolding register evict new_stats Trackers.new
counts_fit to_target = (omega arith, omega arith)
counts_fit to_client = (omega arith, omega arith)

abbrev counted_relay : Relay
counted_relay =
    run ((0, put to_target 1) ∷ (1, receive to_client (codes "ok")) ∷ (2, put to_client 2) ∷ [])
      (start true 1 (codes "hi") [] fresh_stats one_client)

relay_counts_example : Accounts 1 true one_client fresh_stats counted_relay × Settled counted_relay
relay_counts_example =
    run-start-Accounts true 1 (codes "hi") [] fresh_stats one_client
      ((0, put to_target 1) ∷ (1, receive to_client (codes "ok")) ∷ (2, put to_client 2) ∷ [])
      counts_fit

abbrev slow : Circumstances
slow = record { now = 5; local_time = codes "noon"; in_time = false; events = [] }

late_example :
    ((handle_connection plain_crates open_network [] slow local (peer []) idle_program).0
      ≡ some (failed (message late_handshake)))
    × ((handle_connection plain_crates open_network [] slow local
            (peer [])
            idle_program).1.tracker.connections
          1
        ≡ some
            (record (fresh_info 1
              (show_socket_addr local)
              (codes "resolving...")
              (codes "detecting...")
              (codes "noon")) {
                status = error (error_text (message late_handshake));
                closed_at = some 5;
              }))
    × (consult 1080
          (handle_connection plain_crates open_network [] slow local
            (peer [])
            idle_program).1.resolver
        ≡ unknown)
unfolding Trackers.new timed
late_example =
    handle_connection-failure plain_crates open_network [] slow local (peer []) idle_program
      (message late_handshake) new-IsTracker refl
