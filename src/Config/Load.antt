-- ===== src/Config/Load.antt =====
-- `Config` and how it is read: `parse_yaml`, `from_file`, and the error text for the log. The YAML itself is
-- parsed by the crate `serde_yaml`.
use simple_forwarder.Prelude.{ℕ, Option, none, some, List, ◌++◌}
use simple_forwarder.Text.{Bytes, codes}
use simple_forwarder.Text.Decimal.{show_dec}
use simple_forwarder.Config.Defs.{ListenConfig, Rule, YamlParseError}

pub data LogType : Type 0 where
  console file nowhere : LogType

pub record LogConfig : Type 0 where
  pub log_type : LogType
  pub log_file : Option Bytes
  pub level : Bytes
  pub flush_interval_secs : ℕ
  pub flush_count : ℕ

pub record Config : Type 0 where
  pub log : LogConfig
  pub listen : ListenConfig
  pub rules : List Rule

-- `serde_yaml::Error`: its location, as a line and a column, and its text.
pub record SerdeError : Type 0 where
  pub location : Option (ℕ × ℕ)
  pub description : Bytes

pub data Parsed : Type 0 where
  parsed : Config → Parsed
  unparsed : SerdeError → Parsed

-- `serde_yaml::from_str`
abbrev pub Serde : Type 0
Serde = Bytes → Parsed

unfoldable pub from_serde : Bytes → SerdeError → YamlParseError
from_serde path err = record {
  path = path;
  line = elim err.location [ none ↦ none | some (line, column) ↦ some line ];
  column = elim err.location [ none ↦ none | some (line, column) ↦ some column ];
  message_text = err.description;
}

-- `fmt::Display` of the error.
unfoldable pub show_yaml_error : YamlParseError → Bytes
show_yaml_error e = elim e.line [
  | some line ↦ elim e.column [
    | some column ↦
        codes "Failed to parse "
        ++ (e.path
            ++ (codes ": syntax error at line "
                ++ (show_dec line
                    ++ (codes ", column " ++ (show_dec column ++ (codes ": " ++ e.message_text))))))
    | none ↦ codes "Failed to parse " ++ (e.path ++ (codes ": " ++ e.message_text))
  ]
  | none ↦ codes "Failed to parse " ++ (e.path ++ (codes ": " ++ e.message_text))
]

-- What `from_file` ends with: a configuration, a file that cannot be read, or one that cannot be parsed.
pub data Loaded : Type 0 where
  loaded : Config → Loaded
  unreadable : Loaded
  malformed : YamlParseError → Loaded

unfoldable pub parse_yaml : Serde → Bytes → Bytes → Loaded
unfolding from_serde
parse_yaml serde path content = elim (serde content) [
  | parsed config ↦ loaded config
  | unparsed err ↦ malformed (from_serde path err)
]

-- The last argument is the content of the file, if it can be read.
unfoldable pub from_file : Serde → Bytes → Option Bytes → Loaded
unfolding parse_yaml
from_file serde path none = unreadable
from_file serde path (some content) = parse_yaml serde path content
