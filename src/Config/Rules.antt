-- ===== src/Config/Rules.antt =====
-- Which rule of a configuration decides on a request.
use simple_forwarder.Prelude.{◌≡◌, refl, ap, Bool, true, false, List, [], ◌∷◌, ◌++◌, any, All}
use simple_forwarder.Outcome.{Outcome, done, failed, ◌>>=◌}
use simple_forwarder.Crates.{Crates}
use simple_forwarder.Outside.{Outside}
use simple_forwarder.Matcher.{new, resolved}
use simple_forwarder.Matcher.Laws.{accepts, matches-new}
use simple_forwarder.Client.Url.{ProxyConfig, from_url}
use simple_forwarder.Server.Target.{Rules, Request, connect_to_target, via_proxy}
use simple_forwarder.Config.Defs.{Rule, parse_rules}

-- A parsed list of rules: the first rule's proxy, and the others parsed.
record Parsed (c : Crates) (rule : Rule) (rules : List Rule) (rs : Rules) : Type 0 where
  config : ProxyConfig
  rest : Rules
  is_config : from_url rule.forward_to ≡ done config
  is_rest : parse_rules c rules ≡ done rest
  is_all : rs ≡ (new c rule.match_patterns, config) ∷ rest

parse_rules-Parsed :
    (c : Crates) (rule : Rule) (rules : List Rule) (rs : Rules)
    → parse_rules c (rule ∷ rules) ≡ done rs
    → Parsed c rule rules rs
unfolding parse_rules
parse_rules-Parsed c rule rules rs e =
    go (from_url rule.forward_to) refl (parse_rules c rules) refl e
  where
    go :
        (x : Outcome ProxyConfig)
        → from_url rule.forward_to ≡ x
        → (y : Outcome Rules) → parse_rules c rules ≡ y
        → (x >>= (λ proxy_config.
            y >>= (λ rest. done ((new c rule.match_patterns, proxy_config) ∷ rest))))
          ≡ done rs
        → Parsed c rule rules rs
    go (done config) f (done rest) g h = record {
      config = config;
      rest = rest;
      is_config = f;
      is_rest = g;
      is_all = cc;
    }
    go (done config) f (failed x) g h = absurd cc
    go (failed x) f y g h = absurd cc

-- One of the patterns of the rule accepts the request.
abbrev pub takes : Crates → Request → Rule → Bool
takes c r rule = any (accepts c r.host (resolved r.host r.ip)) rule.match_patterns

module _ (c : Crates) (o : Outside) (r : Request) (is_socks : Bool) where
  -- With the rules of a configuration, the first rule with a pattern that accepts the request decides: it
  -- is sent by the proxy that this rule names, whatever rules stand behind it.
  pub connect_to_target-parse_rules :
      (before after : List Rule) (rule : Rule) (config : ProxyConfig) (rs : Rules)
      → parse_rules c (before ++ rule ∷ after) ≡ done rs
      → All (λ (other : Rule). takes c r other ≡ false) before
      → takes c r rule ≡ true
      → from_url rule.forward_to ≡ done config
      → connect_to_target c o rs r is_socks ≡ via_proxy o config r is_socks
  unfolding connect_to_target
  connect_to_target-parse_rules [] after rule config rs e misses hit f =
      let p = parse_rules-Parsed c rule after rs e in
      let same : p.config ≡ config = cc (p.is_config, f) in
      rw (p.is_all) (
        rw (matches-new c rule.match_patterns r.host r.ip, hit)
          (ap (λ (x : ProxyConfig). via_proxy o x r is_socks) same))
  connect_to_target-parse_rules (other ∷ before) after rule config rs e misses hit f =
      let p = parse_rules-Parsed c other (before ++ rule ∷ after) rs e in
      rw (p.is_all) (
        rw (matches-new c other.match_patterns r.host r.ip, misses.0)
          (connect_to_target-parse_rules before after rule config p.rest p.is_rest misses.1 hit f))
