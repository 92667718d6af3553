-- ===== src/Lib.antt =====
-- Simple Forwarder: a local proxy that takes SOCKS4, SOCKS4a, SOCKS5 and HTTP clients and
-- forwards each, by rules on the host, to an upstream proxy or directly to its target. This
-- library models the program's code as functions on explicit state and proves what makes its
-- parts correct.
--
-- The parts, and how they work together. A client is accepted and its first byte tells the
-- protocol (src/proxy_server.rs, handle_connection). The handler of the protocol reads a request
-- from the client's stream, connect_to_target goes through the rules (src/matcher.rs) and dials
-- either the rule's proxy (src/proxy_client.rs) or the target, and the client is told the
-- outcome. Then the relay copies bytes both ways. The connection is shown in a table
-- (src/connection_tracker.rs) and its traffic counted (src/stats.rs); a resolver finds the local
-- program behind it (src/etw_resolver.rs).
--
-- Prelude, Text, Outcome: shared lists, maps, tests, and the texts of the standard library that
-- the program uses (decimal numbers, lossy UTF-8, trimming and splitting at white space;
-- Text.Pieces and Text.Words.Plain say how a text splits).
-- Net: addresses, errors, and the stream of a peer: the bytes to come in the segments in which
-- they arrive, what comes behind them, and what has been sent. read, read_exact and write_all
-- are functions on it. Net.HeaderLoop is the loop that src/proxy_server.rs (read_http_headers)
-- and src/proxy_client.rs (http_connect) share in all but its limit and messages.
-- Util: find_header_separator of src/util.rs. Util.Separator says what it finds, Util.Prefix how
-- that depends on bytes that arrive later.
-- Matcher: RuleMatcher of src/matcher.rs.
-- Client: ProxyConfig, connect, socks5_connect and http_connect of src/proxy_client.rs.
-- Server: src/proxy_server.rs. Replies, Target (connect_to_target), Handshake (HandshakeResult),
-- Socks4 (handle_socks4), Socks5 (handle_socks5), Headers (filter_hop_by_hop_headers), Http
-- (read_http_headers and handle_http; Http.Serves has the whole handler, Http.ConnectText and
-- Http.Tunnel put the client's CONNECT to it), Relay (relay_data), Connection
-- (handle_connection), Accept (the accept loop and its semaphore), Naming (the background task
-- of handle_connection that finds the client's program).
-- Tracker: ConnectionTracker of src/connection_tracker.rs, its operations (Tracker.State), what
-- a whole register and a snapshot do (Tracker.Runs, Tracker.Snapshots), runs of operations that
-- overlap (Tracker.Overlap, over the tables of Tracker.Distinct and Tracker.Tables) and the
-- comparison of rows (Tracker.Equal); Stats: TrafficStats and format_bytes (Stats.Sizes) of
-- src/stats.rs; Resolver: netstat_fallback, the caches, ExeResolver and the callback of the
-- network trace of src/etw_resolver.rs.
-- Window: src/traffic_window.rs (run_traffic_window): the cells of a row, the tick with its
-- notifications of rows, and its highlights (recompute_highlights). The rows that the table
-- shows are read back by interpreting the notifications.
-- Tray: src/tray.rs: the menu and the message loop (Tray.Menu: handle_menu_event,
-- run_message_loop), the start with the system (Tray.Autostart), the status dialog (Tray.Status,
-- Commas, Duration), the activity watch (Tray.Activity: check_activity, post_icon_update), and
-- the flags that guard the window and the dialogs (Tray.Gates).
-- Reload: the watcher of the configuration and the task that reloads the rules, of src/main.rs,
-- as steps over events in any order.
-- Log: the writer of src/logger.rs, over a buffered file whose calls may fail.
-- Config: the records of src/config.rs, from_file with its errors (Config.Load), get_listen_addr
-- and dialog_text, and parse_rules of src/main.rs.
-- Text.Utf16: the conversions between text and UTF-16 that the registry needs.
-- Crates, Outside: what the program takes from the crates wildmatch, ipnet and http, and from
-- the network. They are arguments of the definitions that use them.
-- Tests: runs of the definitions, and the theorems at concrete inputs.
--
-- State and concurrency. A handler is a function from a stream to a result and the stream behind
-- it; waiting for a byte that never comes is a result of its own, which a timeout turns into an
-- error. An operation on the table runs under one lock and is one step, but for register, which
-- draws the id before it takes the lock; Tracker.Overlap has its two steps apart, with other
-- calls between them, and a handler calls it undisturbed. The two directions of a relay and its
-- linger timer run interleaved, so the relay is a machine over a list of events in any order; a
-- write_all goes out a part at a time, so the linger time or a failure of the other direction
-- can come between; an event that the code does not wait for in a state does nothing. A handler
-- that other clients interrupt is modelled undisturbed. The counters of a connection are held by
-- its relay and its table entry at once, so they stand in the table's state under the
-- connection's id.
--
-- Bounds and fuel. Numbers are natural numbers; counters wrap around at 2 ^ 64, ports are read
-- from two bytes. The header loop and the SOCKS4 field loop run on fuel, one more than the bytes
-- still to come; that is enough, since each round but the last reads a byte at least. Instants
-- are natural numbers of nanoseconds.
--
-- Not modelled: calls of Windows, of the tray library and of the window library, with the
-- tooltip and the icon's pixels (src/tray.rs, src/traffic_window.rs), the parser of the
-- configuration file (serde_yaml, which src/config.rs calls), the set-up of the logging crate
-- (src/logger.rs), the start of the program (src/main.rs), and the start of the network trace
-- (src/etw_resolver.rs). The conversion to lower case of check_autostart_status is an argument,
-- since its table is not written out. Log messages and TCP_NODELAY are left out everywhere. The
-- reads of a stream by the operating system's buffer sizes are covered by the choice of the
-- segments.
pub mod Prelude
pub mod Text
pub mod Util
pub mod Net
pub mod Crates
pub mod Outcome
pub mod Outside
pub mod Matcher
pub mod Client
pub mod Stats
pub mod Tracker
pub mod Resolver
pub mod Server
pub mod Config
pub mod Window
pub mod Tray
pub mod Reload
pub mod Log
mod Tests
