-- ===== src/Tests/Targets.antt =====
-- The choice of the target and the matcher at concrete inputs.
use simple_forwarder.Prelude.{◌≡◌, refl, true, false, none, [], ◌∷◌, any}
use simple_forwarder.Text.{codes}
use simple_forwarder.Net.Addr.{parse_ip}
use simple_forwarder.Matcher.{
  new, matches, push_patterns, push_pattern, parse_pattern, matches_any, match_pattern, resolved,
}
use simple_forwarder.Matcher.Laws.{accepts, matches-new}
use simple_forwarder.Server.Target.{connect_to_target, via_proxy}
use simple_forwarder.Text.Words.{trim, trim_matches, ws_width}
use simple_forwarder.Outcome.{done}
use simple_forwarder.Client.Url.{ProxyConfig, socks5h, http, from_url}
use simple_forwarder.Config.Defs.{Rule, parse_rules}
use simple_forwarder.Config.Rules.{takes, connect_to_target-parse_rules}
use simple_forwarder.Server.Target.{Rules}
use simple_forwarder.Server.Target.Laws.{
  Reported, connect_to_target_first, connect_to_target-Reported,
}
use simple_forwarder.Tests.Samples.{
  peer, plain_crates, open_network, closed_network, to_host, rule_for, upstream,
}

misses : matches plain_crates (rule_for (codes "b")) (codes "a") none ≡ false
unfolding matches new matches_any match_pattern push_patterns push_pattern parse_pattern parse_ip
misses = refl

hits : matches plain_crates (rule_for (codes "a")) (codes "a") none ≡ true
unfolding matches new matches_any match_pattern push_patterns push_pattern parse_pattern parse_ip
hits = refl

first_rule_example :
    connect_to_target plain_crates open_network
      ((rule_for (codes "b"), upstream) ∷ (rule_for (codes "a"), upstream) ∷ [])
      (to_host (codes "a"))
      true
    ≡ via_proxy open_network upstream (to_host (codes "a")) true
first_rule_example =
    connect_to_target_first plain_crates open_network (to_host (codes "a")) true
      ((rule_for (codes "b"), upstream) ∷ []) [] (rule_for (codes "a")) upstream (misses, tt) hits

failure_example :
    Reported true
      (peer [])
      (connect_to_target plain_crates closed_network [] (to_host (codes "a")) true (peer []))
failure_example =
    connect_to_target-Reported plain_crates closed_network [] (to_host (codes "a")) true (peer [])

matches-new_example :
    matches plain_crates (new plain_crates (codes "*.a" ∷ codes "b" ∷ [])) (codes "a") none
    ≡ any
        (accepts plain_crates (codes "a") (resolved (codes "a") none))
        (codes "*.a" ∷ codes "b" ∷ [])
matches-new_example = matches-new plain_crates (codes "*.a" ∷ codes "b" ∷ []) (codes "a") none

abbrev b_rule : Rule
b_rule = record { match_patterns = codes "b" ∷ []; forward_to = codes "http://b:1" }

abbrev a_rule : Rule
a_rule = record { match_patterns = codes "*.a" ∷ []; forward_to = codes " socks5h://a:2 " }

abbrev a_proxy : ProxyConfig
a_proxy = record { proxy_type = socks5h; addr = codes "a:2" }

abbrev two_rules : Rules
two_rules =
    (new plain_crates (codes "b" ∷ []), record { proxy_type = http; addr = codes "b:1" })
    ∷ (new plain_crates (codes "*.a" ∷ []), a_proxy)
    ∷ []

two_rules_parsed : parse_rules plain_crates (b_rule ∷ a_rule ∷ []) ≡ done two_rules
unfolding parse_rules from_url trim trim_matches ws_width
two_rules_parsed = refl

b_misses : takes plain_crates (to_host (codes "a")) b_rule ≡ false
unfolding parse_pattern parse_ip match_pattern
b_misses = refl

a_hits : takes plain_crates (to_host (codes "a")) a_rule ≡ true
unfolding parse_pattern parse_ip match_pattern
a_hits = refl

a_proxy_read : from_url (codes " socks5h://a:2 ") ≡ done a_proxy
unfolding from_url trim trim_matches ws_width
a_proxy_read = refl

configured_example :
    connect_to_target plain_crates open_network two_rules (to_host (codes "a")) true
    ≡ via_proxy open_network a_proxy (to_host (codes "a")) true
configured_example =
    connect_to_target-parse_rules plain_crates open_network (to_host (codes "a")) true (b_rule ∷ [])
      [] a_rule a_proxy two_rules two_rules_parsed (b_misses, tt) a_hits a_proxy_read
