-- ===== src/Matcher/Laws.antt =====
-- What a matcher accepts, in terms of the configured patterns.
use simple_forwarder.Prelude.{
  ◌≡◌, refl, ◌∙◌, Bool, false, ◌&&◌, ◌||◌, Option, none, some, List, [], ◌∷◌, ◌++◌, arith, drop,
  any,
}
use simple_forwarder.Text.{Bytes}
use simple_forwarder.Net.Addr.{IpAddr}
use simple_forwarder.Crates.{Crates}
use simple_forwarder.Matcher.{
  Pattern, parse_pattern, push, is_expanded, push_pattern, push_patterns, new, match_pattern,
  matches_any, resolved, matches,
}

module _ (c : Crates) (host : Bytes) (a : Option IpAddr) where
  -- A pattern that does not parse accepts nothing.
  abbrev pub accepts_parsed : Option Pattern → Bool
  accepts_parsed none = false
  accepts_parsed (some p) = match_pattern c p host a

  -- A configured pattern accepts by itself or, as `*.rest`, by the rest.
  abbrev pub accepts : Bytes → Bool
  accepts p =
      accepts_parsed (parse_pattern c p)
      || (is_expanded p && accepts_parsed (parse_pattern c (drop 2 p)))

  matches_any-append :
      (ps qs : List Pattern)
      → matches_any c (ps ++ qs) host a ≡ matches_any c ps host a || matches_any c qs host a
  unfolding matches_any
  matches_any-append [] qs = refl
  matches_any-append (p ∷ ps) qs = ground (arith, matches_any-append ps qs)

  matches_any-push :
      (ps : List Pattern) (o : Option Pattern)
      → matches_any c (push ps o) host a ≡ matches_any c ps host a || accepts_parsed o
  unfolding matches_any
  matches_any-push ps none = ground arith
  matches_any-push ps (some p) = matches_any-append ps (p ∷ []) ∙ ground arith

  matches_any-push_pattern :
      (ps : List Pattern) (p : Bytes)
      → matches_any c (push_pattern c ps p) host a ≡ matches_any c ps host a || accepts p
  unfolding push_pattern
  matches_any-push_pattern ps p = ground (
    arith,
    matches_any-push ps (parse_pattern c p),
    matches_any-push (push ps (parse_pattern c p)) (parse_pattern c (drop 2 p)),
  )

  matches_any-push_patterns :
      (ps : List Pattern) (texts : List Bytes)
      → matches_any c (push_patterns c ps texts) host a
        ≡ matches_any c ps host a || any accepts texts
  unfolding push_patterns
  matches_any-push_patterns ps [] = ground arith
  matches_any-push_patterns ps (p ∷ rest) =
      ground
        (arith, matches_any-push_patterns (push_pattern c ps p) rest, matches_any-push_pattern ps p)

-- A rule accepts a request exactly if one of its configured patterns does, by itself or by the
-- root domain that `*.` adds; the address is the given one, or the host read as an address.
pub matches-new :
    (c : Crates) (texts : List Bytes) (host : Bytes) (a : Option IpAddr)
    → matches c (new c texts) host a ≡ any (accepts c host (resolved host a)) texts
unfolding matches new matches_any
matches-new c texts host a = matches_any-push_patterns c host (resolved host a) [] texts
