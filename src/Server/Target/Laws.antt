-- ===== src/Server/Target/Laws.antt =====
-- Which rule decides, and what the client is told.
use simple_forwarder.Prelude.{
  ℕ, ◌≡◌, refl, ◌∙◌, ◌⊎◌, inl, inr, Bool, true, false, [], ◌∷◌, ◌++◌, arith, if◌then◌else◌, All,
  Bool-cases,
}
use simple_forwarder.Text.{codes}
use simple_forwarder.Net.Error.{Error, message}
use simple_forwarder.Net.Stream.{Stream, Res, ok, err, hang, write_all}
use simple_forwarder.Crates.{Crates}
use simple_forwarder.Outcome.{done, failed}
use simple_forwarder.Outside.{Outside, Dial, connected, dial_error, dial_timeout}
use simple_forwarder.Matcher.{RuleMatcher, matches}
use simple_forwarder.Client.Url.{ProxyConfig, show_config}
use simple_forwarder.Client.Connect.{connect}
use simple_forwarder.Server.Replies.{error_reply}
use simple_forwarder.Server.Target.{
  Rules, Target, Request, refuse, via_proxy, directly, dial_code, connect_to_target,
}

module _ (c : Crates) (o : Outside) (r : Request) (is_socks : Bool) where
  -- No rule of the list matches the request.
  abbrev pub Passes : Rules → Type 0
  Passes = All (λ (rule : RuleMatcher × ProxyConfig). matches c rule.0 r.host r.ip ≡ false)

  -- Rules that do not match are passed over, in order.
  connect_to_target-skip :
      (before rules : Rules)
      → Passes before
      → connect_to_target c o (before ++ rules) r is_socks ≡ connect_to_target c o rules r is_socks
  unfolding connect_to_target
  connect_to_target-skip [] rules h = refl
  connect_to_target-skip ((m, config) ∷ before) rules h =
      rw h.0 (connect_to_target-skip before rules h.1)

  -- The first rule that matches decides, whatever stands behind it.
  pub connect_to_target_first :
      (before after : Rules) (m : RuleMatcher) (config : ProxyConfig)
      → Passes before
      → matches c m r.host r.ip ≡ true
      → connect_to_target c o (before ++ (m, config) ∷ after) r is_socks
        ≡ via_proxy o config r is_socks
  unfolding connect_to_target
  connect_to_target_first before after m config h hit =
      connect_to_target-skip before ((m, config) ∷ after) h ∙ rw hit

-- The reply codes that a failed connection is reported with.
abbrev pub IsFailureCode : ℕ → Type 0
IsFailureCode code = (code ≡ 0x01) ⊎ (code ≡ 0x04) ⊎ (code ≡ 0x05) ⊎ (code ≡ 0x06)

-- A connection leaves the client's stream alone. A failure sends a SOCKS5 client one error reply,
-- if it takes it, and another client nothing.
abbrev pub Reported : Bool → Stream → Res Target → Type 0
Reported is_socks s (ok t s') = s' ≡ s
Reported false s (err e s') = s' ≡ s
Reported true s (err e s') =
    (code : ℕ) × (s' ≡ (if s.writable then record s { sent = s.sent ++ error_reply code } else s))
    × IsFailureCode code
Reported is_socks s (hang s') = ⊥

refuse_lem :
    (code : ℕ) (e : Error) (s : Stream)
    → refuse true code e s
      ≡ err e (if s.writable then record s { sent = s.sent ++ error_reply code } else s)
unfolding refuse write_all
refuse_lem code e s = ground arith

refuse-Reported :
    (is_socks : Bool) (code : ℕ) (e : Error) (s : Stream)
    → IsFailureCode code
    → Reported is_socks s (refuse is_socks code e s)
refuse-Reported false code e s h = unfold refuse in refl
refuse-Reported true code e s h = rw (refuse_lem code e s) (code, refl, h)

dial_code-IsFailureCode : (e : Error) → IsFailureCode (dial_code e)
dial_code-IsFailureCode e = ground arith

via_proxy-Reported :
    (o : Outside) (config : ProxyConfig) (r : Request) (is_socks : Bool) (s : Stream)
    → Reported is_socks s (via_proxy o config r is_socks s)
unfolding via_proxy
via_proxy-Reported o config r is_socks s =
    elim (connect o config r.host r.port r.resolve_hostname)
      as (λ x. Reported is_socks s (elim x [
        | done (target, leftover) ↦
            ok
              (record {
                stream = target;
                proxy_desc = show_config config;
                is_direct = false;
                leftover = leftover;
              })
              s
        | failed e ↦ refuse is_socks 0x01 e s
      ])) [ done p ↦ refl | failed e ↦ refuse-Reported is_socks 0x01 e s (inl refl) ]

directly-Reported :
    (o : Outside) (r : Request) (is_socks : Bool) (s : Stream)
    → Reported is_socks s (directly o r is_socks s)
unfolding directly
directly-Reported o r is_socks s = go (o.dial r.host r.port) refl
  where
    go : (d : Dial) → o.dial r.host r.port ≡ d → Reported is_socks s (directly o r is_socks s)
    go (connected target) e = rw (e, directly) refl
    go (dial_error x) e =
        rw (e, directly) (refuse-Reported is_socks (dial_code x) x s (dial_code-IsFailureCode x))
    go dial_timeout e =
        rw (e, directly)
          (refuse-Reported is_socks 0x06 (message (codes "Connection timed out")) s
            (inr (inr (inr refl))))

-- The attempt to connect always ends. It leaves the client's stream alone when it succeeds; when
-- it fails, a SOCKS5 client is sent one error reply, if its stream takes it, and another client
-- nothing.
pub connect_to_target-Reported :
    (c : Crates) (o : Outside) (rules : Rules) (r : Request) (is_socks : Bool) (s : Stream)
    → Reported is_socks s (connect_to_target c o rules r is_socks s)
unfolding connect_to_target
connect_to_target-Reported c o [] r is_socks s = directly-Reported o r is_socks s
connect_to_target-Reported c o ((m, config) ∷ rules) r is_socks s =
    elim (Bool-cases (matches c m r.host r.ip)) [
      | inl hit ↦ rw hit (via_proxy-Reported o config r is_socks s)
      | inr miss ↦ rw miss (connect_to_target-Reported c o rules r is_socks s)
    ]
