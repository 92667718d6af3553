-- ===== src/Client/Url.antt =====
-- `ProxyType`, `ProxyConfig` and `ProxyConfig::from_url`.
use simple_forwarder.Prelude.{not, Option, none, some, ◌++◌, if◌then◌else◌}
use simple_forwarder.Text.{Bytes, codes, contains, strip_prefix}
use simple_forwarder.Text.Words.{trim, trim_matches}
use simple_forwarder.Net.Error.{message}
use simple_forwarder.Outcome.{Outcome, done, failed}

pub data ProxyType : Type 0 where
  socks5 socks5h http : ProxyType

abbrev pub show_proxy_type : ProxyType → Bytes
show_proxy_type socks5 = codes "socks5"
show_proxy_type socks5h = codes "socks5h"
show_proxy_type http = codes "http"

pub record ProxyConfig : Type 0 where
  pub proxy_type : ProxyType
  pub addr : Bytes

-- The scheme and what follows it.
unfoldable pub split_scheme : Bytes → Option (ProxyType × Bytes)
split_scheme url = elim (strip_prefix (codes "socks5h://") url) [
  | some rest ↦ some (socks5h, rest)
  | none ↦ elim (strip_prefix (codes "socks5://") url) [
    | some rest ↦ some (socks5, rest)
    | none ↦ elim (strip_prefix (codes "http://") url) [
      | some rest ↦ some (http, rest)
      | none ↦ none
    ]
  ]
]

-- The url without the white space, back quotes and quotes around it.
abbrev pub bare : Bytes → Bytes
bare url = trim_matches b'"' (trim_matches b'`' (trim url))

unfoldable pub from_bare : Bytes → Outcome ProxyConfig
unfolding split_scheme
from_bare url = elim (split_scheme url) [
  | none ↦ failed (message (codes "Unsupported proxy URL: " ++ url))
  | some (proxy_type, rest) ↦
      if not (contains rest b':')
      then failed (message (codes "Proxy address must include a port: " ++ rest))
      else done (record { proxy_type = proxy_type; addr = rest })
]

unfoldable pub from_url : Bytes → Outcome ProxyConfig
unfolding from_bare
from_url url = from_bare (bare url)

unfoldable pub show_config : ProxyConfig → Bytes
show_config c = show_proxy_type c.proxy_type ++ (codes "://" ++ c.addr)
