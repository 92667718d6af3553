-- ===== src/Server/Target.antt =====
-- `connect_to_target`: the first rule that matches chooses the proxy; without one the connection
-- is direct.
pub mod Laws
use simple_forwarder.Prelude.{
  ℕ, Bool, true, false, Option, none, some, List, [], ◌∷◌, ◌++◌, if◌then◌else◌,
}
use simple_forwarder.Text.{Bytes, codes}
use simple_forwarder.Net.Addr.{IpAddr}
use simple_forwarder.Net.Error.{
  Error, io, unexpected_eof, connection_reset, connection_refused, message,
}
use simple_forwarder.Net.Stream.{Stream, Res, ok, err, hang, M, bind, ignore}
use simple_forwarder.Crates.{Crates}
use simple_forwarder.Outcome.{Outcome, done, failed}
use simple_forwarder.Outside.{Outside, Dial, connected, dial_error, dial_timeout}
use simple_forwarder.Matcher.{RuleMatcher, matches}
use simple_forwarder.Client.Url.{ProxyConfig, show_config}
use simple_forwarder.Client.Connect.{connect}
use simple_forwarder.Server.Replies.{send_error_reply}

abbrev pub Rules : Type 0
Rules = List (RuleMatcher × ProxyConfig)

pub record Target : Type 0 where
  pub stream : Stream
  pub proxy_desc : Bytes
  pub is_direct : Bool
  pub leftover : Bytes

pub record Request : Type 0 where
  pub host : Bytes
  pub port : ℕ
  pub resolve_hostname : Bool
  pub ip : Option IpAddr

-- An error reply goes to a SOCKS5 client only, and a failure to send it is ignored.
unfoldable pub refuse : Bool → ℕ → Error → M Target
refuse is_socks code e s =
    if is_socks then bind (ignore (send_error_reply code s)) (λ u t. err e t) else err e s

unfoldable pub via_proxy : Outside → ProxyConfig → Request → Bool → M Target
unfolding refuse
via_proxy o config r is_socks s = elim (connect o config r.host r.port r.resolve_hostname) [
  | done (target, leftover) ↦
      ok
        (record {
          stream = target;
          proxy_desc = show_config config;
          is_direct = false;
          leftover = leftover;
        })
        s
  | failed e ↦ refuse is_socks 0x01 e s
]

abbrev pub dial_code : Error → ℕ
dial_code connection_refused = 0x05
dial_code (io text) = 0x04
dial_code unexpected_eof = 0x04
dial_code connection_reset = 0x04
dial_code (message text) = 0x04

unfoldable pub directly : Outside → Request → Bool → M Target
unfolding refuse
directly o r is_socks s = elim (o.dial r.host r.port) [
  | connected target ↦
      ok (record { stream = target; proxy_desc = codes "direct"; is_direct = true; leftover = [] })
        s
  | dial_error e ↦ refuse is_socks (dial_code e) e s
  | dial_timeout ↦ refuse is_socks 0x06 (message (codes "Connection timed out")) s
]

unfoldable pub connect_to_target : Crates → Outside → Rules → Request → Bool → M Target
unfolding via_proxy directly
connect_to_target c o [] r is_socks = directly o r is_socks
connect_to_target c o ((m, config) ∷ rules) r is_socks =
    if matches c m r.host r.ip
    then via_proxy o config r is_socks
    else connect_to_target c o rules r is_socks
