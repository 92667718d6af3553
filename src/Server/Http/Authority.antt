-- ===== src/Server/Http/Authority.antt =====
-- The authority of a CONNECT request, as the program's own client writes it and its server reads it.
use simple_forwarder.Prelude.{
  ℕ, suc, ◌<◌, ◌≡◌, refl, ap, true, false, none, some, [], ◌∷◌, ◌++◌, arith, append_assoc, length,
  drop, position, position_found, take-length-append, Bool-cases, inl, inr,
}
use simple_forwarder.Text.{Bytes, codes, contains, starts_with}
use simple_forwarder.Text.Decimal.{
  show_dec, parse_u16, parse_unsigned-show_dec, show_dec-IsDigits, IsDigits, parse_unsigned_nil,
}
use simple_forwarder.Outcome.{done}
use simple_forwarder.Client.HttpConnect.{format_host}
use simple_forwarder.Server.Http.Parse.{
  connect_authority, plain_authority, bracketed_authority, bracket_port, rsplit_colon, port_or,
}

digits_no_colon : (s : Bytes) → IsDigits s → rsplit_colon s ≡ none
unfolding rsplit_colon
digits_no_colon [] h = refl
digits_no_colon (c ∷ s) h = ground (arith, digits_no_colon s h.2)

rsplit_colon_last :
    (host p : Bytes) → rsplit_colon p ≡ none → rsplit_colon (host ++ b':' ∷ p) ≡ some (host, p)
unfolding rsplit_colon
rsplit_colon_last [] p h = rw h
rsplit_colon_last (c ∷ host) p h = rw (rsplit_colon_last host p h)

port_or-show_dec : (port : ℕ) → port < 65536 → port_or 443 (show_dec port) ≡ port
port_or-show_dec port h = rw (parse_unsigned-show_dec 65535 port (omega arith))

bracket_port-show_dec : (port : ℕ) → port < 65536 → bracket_port (b':' ∷ show_dec port) ≡ port
bracket_port-show_dec port h =
    go (show_dec port) (port_or-show_dec port h) (parse_unsigned-show_dec 65535 port (omega arith))
  where
    go :
        (s : Bytes)
        → port_or 443 s ≡ port
        → parse_u16 s ≡ some port
        → bracket_port (b':' ∷ s) ≡ port
    go [] e k = absurd (cc (k, parse_unsigned_nil 65535))
    go (c ∷ s) e k = unfold bracket_port in e

-- A host name or address that can stand in a request.
pub record IsHost (host : Bytes) : Type 0 where
  pub no_bracket : position b']' host ≡ none
  pub no_front_bracket : starts_with (codes "[") host ≡ false
  pub not_empty : 0 < length host

no_bracket-append :
    (host s : Bytes)
    → starts_with (codes "[") host ≡ false
    → 0 < length host
    → starts_with (codes "[") (host ++ s) ≡ false
no_bracket-append [] s h pos = absurd (omega arith)
no_bracket-append (c ∷ host) s h pos = ground arith

bracketed_authority_lem :
    (host : Bytes) (port : ℕ)
    → IsHost host
    → port < 65536
    → bracketed_authority (b'[' ∷ host ++ b']' ∷ b':' ∷ show_dec port)
      ≡ done (record { host = host; port = port })
unfolding bracketed_authority
bracketed_authority_lem host port h small = rw (
  position_found b']' host (b':' ∷ show_dec port) h.no_bracket,
  bracketed_authority,
  take-length-append host (b']' ∷ b':' ∷ show_dec port),
  drop_bracket host (b':' ∷ show_dec port),
  bracket_port-show_dec port small,
)
  where
    drop_bracket : (x t : Bytes) → drop (suc (length x)) (x ++ b']' ∷ t) ≡ t
    drop_bracket [] t = refl
    drop_bracket (c ∷ x) t = drop_bracket x t

format_host_colon :
    (host : Bytes)
    → contains host b':' ≡ true
    → starts_with (codes "[") host ≡ false
    → format_host host ≡ b'[' ∷ host ++ b']' ∷ []
unfolding format_host
format_host_colon host h k = rw (h, k)

format_host_plain : (host : Bytes) → contains host b':' ≡ false → format_host host ≡ host
unfolding format_host
format_host_plain host h = rw h

connect_authority_bracket :
    (s : Bytes) → connect_authority (b'[' ∷ s) ≡ bracketed_authority (b'[' ∷ s)
unfolding connect_authority
connect_authority_bracket s = refl

plain_authority_lem :
    (host : Bytes) (port : ℕ)
    → port < 65536
    → plain_authority (host ++ b':' ∷ show_dec port) ≡ record { host = host; port = port }
unfolding plain_authority
plain_authority_lem host port small = rw (
  rsplit_colon_last host (show_dec port) (digits_no_colon _ (show_dec-IsDigits port)),
  plain_authority,
  port_or-show_dec port small,
)

-- The server reads back the host and the port of the authority that the client writes, an IPv6
-- address in brackets included.
pub connect_authority-format_host :
    (host : Bytes) (port : ℕ)
    → IsHost host
    → port < 65536
    → connect_authority (format_host host ++ b':' ∷ show_dec port)
      ≡ done (record { host = host; port = port })
unfolding connect_authority
connect_authority-format_host host port h small = elim (Bool-cases (contains host b':')) [
  | inl colon ↦
      rw
        (
          format_host_colon host colon h.no_front_bracket,
          append_assoc (b'[' ∷ host) (b']' ∷ []) (b':' ∷ show_dec port),
        )
        (bracketed_authority_lem host port h small)
  | inr plain ↦
      rw
        (
          format_host_plain host plain,
          no_bracket-append host (b':' ∷ show_dec port) h.no_front_bracket h.not_empty,
        )
        (ap done (plain_authority_lem host port small))
]
