-- ===== src/Matcher.antt =====
-- src/matcher.rs: patterns, their expansion, and the match of a host or an address.
pub mod Laws
use mathlib.Core.Option
use simple_forwarder.Prelude.{
  ℕ, Bool, true, false, ◌&&◌, Option, none, some, List, [], ◌∷◌, ◌++◌, ltb, if◌then◌else◌, length,
  drop,
}
use simple_forwarder.Text.{Bytes, codes, contains, starts_with}
use simple_forwarder.Net.Addr.{IpAddr, parse_ip, eq_ip}
use simple_forwarder.Crates.{Crates, IpNet}

pub data Pattern : Type 0 where
  domain : Bytes → Pattern
  ip : IpAddr → Pattern
  cidr : IpNet → Pattern

pub record RuleMatcher : Type 0 where
  pub patterns : List Pattern

-- `if let Some(pat) = … { parsed_patterns.push(pat) }`
abbrev pub push : List Pattern → Option Pattern → List Pattern
push ps none = ps
push ps (some p) = ps ++ p ∷ []

abbrev pub is_expanded : Bytes → Bool
is_expanded p = starts_with (codes "*.") p && ltb 2 (length p)

-- `ip.or_else(|| host.parse().ok())`
abbrev pub resolved : Bytes → Option IpAddr → Option IpAddr
resolved host none = parse_ip host
resolved host (some a) = some a

module _ (c : Crates) where
  unfoldable pub parse_pattern : Bytes → Option Pattern
  parse_pattern pattern =
      if contains pattern b'/'
      then Option.map cidr (c.parse_net pattern)
      else elim (parse_ip pattern) [ some a ↦ some (ip a) | none ↦ some (domain pattern) ]

  unfoldable pub push_pattern : List Pattern → Bytes → List Pattern
  push_pattern ps p =
      if is_expanded p
      then push (push ps (parse_pattern p)) (parse_pattern (drop 2 p))
      else push ps (parse_pattern p)

  unfoldable pub push_patterns : List Pattern → List Bytes → List Pattern
  push_patterns ps [] = ps
  push_patterns ps (p ∷ rest) = push_patterns (push_pattern ps p) rest

  unfoldable pub new : List Bytes → RuleMatcher
  new patterns = record { patterns = push_patterns [] patterns }

  unfoldable pub match_pattern : Pattern → Bytes → Option IpAddr → Bool
  match_pattern (domain pattern) host a = c.wild_matches pattern host
  match_pattern (ip p) host none = false
  match_pattern (ip p) host (some a) = eq_ip a p
  match_pattern (cidr net) host none = false
  match_pattern (cidr net) host (some a) = c.net_contains net a

  unfoldable pub matches_any : List Pattern → Bytes → Option IpAddr → Bool
  matches_any [] host a = false
  matches_any (p ∷ ps) host a = if match_pattern p host a then true else matches_any ps host a

  unfoldable pub matches : RuleMatcher → Bytes → Option IpAddr → Bool
  matches m host a = matches_any m.patterns host (resolved host a)
