-- ===== src/Config/Defs.antt =====
-- The rules and the listening address of a configuration, and the texts of a parse error. The file itself
-- is parsed by a crate.
use simple_forwarder.Prelude.{ℕ, Option, none, some, List, [], ◌∷◌, ◌++◌}
use simple_forwarder.Text.{Bytes, codes}
use simple_forwarder.Text.Decimal.{show_dec}
use simple_forwarder.Net.Addr.{SocketAddr, parse_ip}
use simple_forwarder.Net.Error.{message}
use simple_forwarder.Outcome.{Outcome, done, failed, ◌>>=◌}
use simple_forwarder.Crates.{Crates}
use simple_forwarder.Matcher.{new}
use simple_forwarder.Client.Url.{from_url}
use simple_forwarder.Server.Target.{Rules}

pub record ListenConfig : Type 0 where
  pub addr : Bytes
  pub port : ℕ

pub record Rule : Type 0 where
  pub match_patterns : List Bytes
  pub forward_to : Bytes

-- `get_listen_addr`
unfoldable pub get_listen_addr : ListenConfig → Outcome SocketAddr
get_listen_addr listen = elim (parse_ip listen.addr) [
  | none ↦ failed (message (codes "Invalid listen address: " ++ listen.addr))
  | some ip ↦ done (record { ip = ip; port = listen.port })
]

pub record YamlParseError : Type 0 where
  pub path : Bytes
  pub line : Option ℕ
  pub column : Option ℕ
  pub message_text : Bytes

unfoldable pub located_text : YamlParseError → ℕ → ℕ → Bytes
located_text e line column =
    codes "A syntax error was found in:\n\n"
    ++ (e.path
        ++ (codes "\n\nLine: "
            ++ (show_dec line
                ++ (codes "\nColumn: " ++ (show_dec column ++ (codes "\n\n" ++ e.message_text))))))

unfoldable pub dialog_text : YamlParseError → Bytes
unfolding located_text
dialog_text e = elim e.line [
  | some line ↦ elim e.column [
    | some column ↦ located_text e line column
    | none ↦ codes "Failed to parse:\n\n" ++ (e.path ++ (codes "\n\n" ++ e.message_text))
  ]
  | none ↦ codes "Failed to parse:\n\n" ++ (e.path ++ (codes "\n\n" ++ e.message_text))
]

-- `parse_rules`: the first rule whose proxy cannot be read ends it.
unfoldable pub parse_rules : Crates → List Rule → Outcome Rules
parse_rules c [] = done []
parse_rules c (rule ∷ rules) = do
  proxy_config ← from_url rule.forward_to
  rest ← parse_rules c rules
  done ((new c rule.match_patterns, proxy_config) ∷ rest)
