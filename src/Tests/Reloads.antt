-- ===== src/Tests/Reloads.antt =====
-- The reload of the rules, and the accept loop, at concrete inputs.
use simple_forwarder.Prelude.{◌+◌, ◌≡◌, refl, true, false, none, some, List, [], ◌∷◌, length}
use simple_forwarder.Text.{codes}
use simple_forwarder.Server.Target.{Rules}
use simple_forwarder.Config.Defs.{parse_rules}
use simple_forwarder.Config.Load.{Config, Serde, nowhere, parsed, from_file}
use simple_forwarder.Client.Url.{from_url}
use simple_forwarder.Text.Words.{trim, trim_matches}
use simple_forwarder.Matcher.{new}
use simple_forwarder.Reload.Defs.{
  Watched, receiving, Happening, file_changes, watcher_called, message_received, file_read,
  result_applied, happen_all,
}
use simple_forwarder.Reload.Current.{happen_all-current}
use simple_forwarder.Reload.Live.{steps_of_task, watcher_called-current}
use simple_forwarder.Server.Accept.{
  Arrival, accepted, accept_error, handler_ended, serve_all, new_server, arrive, max_connections,
  Admits, serve_all-Admits,
}
use simple_forwarder.Tests.Samples.{local, plain_crates, rule_for, upstream}

-- Every file has the same rule.
abbrev one_rule : Config
one_rule = record {
  log = record {
    log_type = nowhere;
    log_file = none;
    level = codes "warn";
    flush_interval_secs = 5;
    flush_count = 100;
  };
  listen = record { addr = codes "127.0.0.1"; port = 1080 };
  rules =
      record { match_patterns = codes "a" ∷ []; forward_to = codes "http://10.0.0.1:8080" } ∷ [];
}

abbrev any_file : Serde
any_file = λ content. parsed one_rule

abbrev started : Watched
started = record {
  content = none;
  unreported = 0;
  queued = false;
  phase = receiving;
  rules = [];
  errors = record { dialog_open = false; dialogs = [] };
}

abbrev edited : List Happening
edited =
    file_changes (some (codes "x"))
    ∷ watcher_called true
    ∷ message_received
    ∷ file_read
    ∷ result_applied
    ∷ []

abbrev new_rules : Rules
new_rules = (rule_for (codes "a"), upstream) ∷ []

reload_example :
    (happen_all plain_crates any_file (codes "config.yaml") edited started).rules ≡ new_rules
unfolding happen_all from_file parse_rules from_url trim_matches trim new
reload_example =
    happen_all-current plain_crates any_file (codes "config.yaml") edited started new_rules tt
      (λ u q. λ rs want. absurd cc) refl refl refl refl

abbrev changed : Watched
changed = record started { content = some (codes "x") }

notified_example :
    (happen_all plain_crates any_file
      (codes "config.yaml")
      (watcher_called true ∷ steps_of_task)
      changed).rules
    ≡ new_rules
unfolding happen_all from_file parse_rules from_url trim_matches trim new
notified_example =
    watcher_called-current plain_crates any_file (codes "config.yaml") changed new_rules refl

abbrev visits : List Arrival
visits = accepted local ∷ accept_error ∷ accepted local ∷ handler_ended 0 ∷ []

accept_example :
    ((serve_all visits new_server).permits + length (serve_all visits new_server).handlers
      ≡ max_connections)
    × Admits local
        (serve_all visits new_server)
        (arrive (accepted local) (serve_all visits new_server))
accept_example = serve_all-Admits visits local
