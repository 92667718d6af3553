-- ===== src/Client/Connect.antt =====
-- `ProxyClient::connect`: dialling the proxy, resolving the host, and the handshake.
use simple_forwarder.Prelude.{
  ℕ, Bool, true, false, not, ◌&&◌, none, some, [], ◌∷◌, ◌++◌, if◌then◌else◌,
}
use simple_forwarder.Text.{Bytes, codes}
use simple_forwarder.Text.Decimal.{show_dec}
use simple_forwarder.Net.Addr.{show_ip}
use simple_forwarder.Net.Error.{message}
use simple_forwarder.Net.Stream.{Stream, Res, ok, err, hang}
use simple_forwarder.Outcome.{Outcome, done, failed}
use simple_forwarder.Outside.{Outside, connected, dial_error, dial_timeout}
use simple_forwarder.Client.Url.{ProxyType, socks5, socks5h, http, ProxyConfig}
use simple_forwarder.Client.Socks5.{socks5_connect}
use simple_forwarder.Client.HttpConnect.{http_connect}

abbrev pub should_resolve : ProxyType → Bool
should_resolve socks5 = true
should_resolve socks5h = false
should_resolve http = true

-- The first address that the name resolves to; the name itself if there is none.
unfoldable pub resolve_host : Outside → Bytes → ℕ → Bytes
resolve_host o host port = elim (o.lookup_host (host ++ b':' ∷ show_dec port)) [
  | some (a ∷ rest) ↦ show_ip a.ip
  | some [] ↦ host
  | none ↦ host
]

unfoldable pub final_host : Outside → ProxyType → Bytes → ℕ → Bool → Bytes
unfolding resolve_host
final_host o t host port resolve_hostname =
    if should_resolve t && resolve_hostname then resolve_host o host port else host

-- The timeout turns a handshake that waits for ever into an error.
abbrev pub within_timeout {ℓ} : {A : Type ℓ} → Res A → Outcome (Stream × A)
within_timeout (ok a s) = done (s, a)
within_timeout (err e s) = failed e
within_timeout (hang s) = failed (message (codes "Handshake with proxy timed out"))

-- A SOCKS5 handshake reads nothing past its reply: `Bytes::new()`.
abbrev pub no_leftover : Res (Unit {0}) → Res Bytes
no_leftover (ok u t) = ok [] t
no_leftover (err e t) = err e t
no_leftover (hang t) = hang t

unfoldable pub handshake : ProxyConfig → Bytes → ℕ → Stream → Outcome (Stream × Bytes)
handshake c host port s = elim c.proxy_type [
  | socks5 ↦ within_timeout (no_leftover (socks5_connect host port (not (should_resolve socks5)) s))
  | socks5h ↦
      within_timeout (no_leftover (socks5_connect host port (not (should_resolve socks5h)) s))
  | http ↦ within_timeout (http_connect host port s)
]

unfoldable pub connect : Outside → ProxyConfig → Bytes → ℕ → Bool → Outcome (Stream × Bytes)
unfolding final_host handshake
connect o c host port resolve_hostname = elim (o.dial_addr c.addr) [
  | connected s ↦ handshake c (final_host o c.proxy_type host port resolve_hostname) port s
  | dial_error e ↦ failed (message (codes "Failed to connect to proxy " ++ c.addr))
  | dial_timeout ↦ failed (message (codes "Proxy connection timed out: " ++ c.addr))
]
