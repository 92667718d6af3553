-- ===== src/Server/Socks4/Scan.antt =====
-- The search for the two terminators: later bytes change nothing that was found.
use simple_forwarder.Prelude.{
  ℕ, ◌+◌, ◌<◌, ◌≡◌, refl, sym, ap, ◌∙◌, inl, inr, Bool, true, false, Option, none, some, [], ◌∷◌,
  ◌++◌, arith, append-nil, append_assoc, length, drop, length-append, drop-length-append, position,
  position_found, position-lt, position-append_some, position-append_none, overlap, Option-cases,
}
use simple_forwarder.Text.{Bytes}
use simple_forwarder.Util.Separator.{drop-append}
use simple_forwarder.Server.Socks4.Defs.{
  Ends, scan_user_id, scan_domain, scan, is_complete, no_ends,
}

-- What the client sends behind the address: its user id and, for SOCKS4a, the host, each with the
-- terminator 0.
abbrev pub fields : Bool → Bytes → Bytes → Bytes
fields false user domain = user ++ 0 ∷ []
fields true user domain = user ++ 0 ∷ (domain ++ 0 ∷ [])

-- Where its terminators stand.
abbrev pub ends : Bool → Bytes → Bytes → Ends
ends is_socks4a user domain = record {
  user_id_end = some (length user);
  domain_end = elim is_socks4a [ false ↦ none | true ↦ some (length user + 1 + length domain) ];
}

pub drop_user : (user t : Bytes) → drop (length user + 1) (user ++ 0 ∷ t) ≡ t
drop_user user t =
    let e : length user + 1 ≡ length (user ++ 0 ∷ []) =
      omega (arith, length-append user (0 ∷ [])) in
    rw e (rw (← append_assoc user (0 ∷ []) t) (drop-length-append (user ++ 0 ∷ []) t))

pub scan-fields :
    (is_socks4a : Bool) (user domain t : Bytes)
    → position 0 user ≡ none
    → position 0 domain ≡ none
    → scan is_socks4a no_ends (fields is_socks4a user domain ++ t) ≡ ends is_socks4a user domain
unfolding scan scan_user_id scan_domain
scan-fields false user domain t h k = rw (append_assoc user (0 ∷ []) t, position_found 0 user t h)
scan-fields true user domain t h k = rw (
  append_assoc user (0 ∷ (domain ++ 0 ∷ [])) t,
  position_found 0 user ((domain ++ 0 ∷ []) ++ t) h,
  drop_user user ((domain ++ 0 ∷ []) ++ t),
  append_assoc domain (0 ∷ []) t,
  position_found 0 domain t k,
)

-- A text that stops in front of its last terminator is not complete.
abbrev pub scanned : Bool → Bytes → Bool
scanned is_socks4a b = is_complete is_socks4a (scan is_socks4a no_ends b)

no_zero_cut :
    (x b : Bytes) (c : ℕ) (left : Bytes)
    → position 0 x ≡ none
    → x ++ 0 ∷ [] ≡ b ++ c ∷ left
    → position 0 b ≡ none
no_zero_cut x b c left h e = elim (overlap b (c ∷ left) x (0 ∷ []) (sym e)) [
  | inl ([], p, q) ↦ rw (p, append-nil) h
  | inl (d ∷ more, p, q) ↦
      absurd (omega (arith, ap (λ (l : Bytes). length l) q, length-append more (c ∷ left)))
  | inr (d, left', p) ↦ position-append_none 0 b (d ∷ left') (sym (ap (position 0) p) ∙ h)
]

scanned_no_user :
    (is_socks4a : Bool) (b : Bytes) → position 0 b ≡ none → scanned is_socks4a b ≡ false
unfolding scan scan_user_id scan_domain
scanned_no_user false b h = rw h
scanned_no_user true b h = rw h

scanned_no_domain :
    (user more : Bytes)
    → position 0 user ≡ none
    → position 0 more ≡ none
    → scanned true (user ++ 0 ∷ more) ≡ false
unfolding scan scan_user_id scan_domain
scanned_no_domain user more h k = rw (position_found 0 user more h, drop_user user more, k)

pub scanned_cut :
    (is_socks4a : Bool) (user domain b : Bytes) (c : ℕ) (left : Bytes)
    → position 0 user ≡ none
    → position 0 domain ≡ none
    → fields is_socks4a user domain ≡ b ++ c ∷ left
    → scanned is_socks4a b ≡ false
scanned_cut false user domain b c left h k e =
    scanned_no_user false b (no_zero_cut user b c left h e)
scanned_cut true user domain b c left h k e =
    elim (overlap b (c ∷ left) (user ++ 0 ∷ []) (domain ++ 0 ∷ [])
      (sym e ∙ sym (append_assoc user (0 ∷ []) (domain ++ 0 ∷ [])))) [
        | inl (more, p, q) ↦
            rw (p, append_assoc user (0 ∷ []) more)
              (scanned_no_domain user more h (no_zero_cut domain more c left k (sym q)))
        | inr (d, left', p) ↦ scanned_no_user true b (no_zero_cut user b d left' h p)
      ]

-- Terminators that were found on an earlier text are found on a longer one.
abbrev pub IsStale : Bool → Ends → Bytes → Type 0
IsStale is_socks4a e b = (t : Bytes) → scan is_socks4a e (b ++ t) ≡ scan is_socks4a no_ends (b ++ t)

user_again : (b t : Bytes) → scan_user_id (position 0 b) (b ++ t) ≡ position 0 (b ++ t)
unfolding scan_user_id
user_again b t = elim (Option-cases (position 0 b)) [
  | inl e ↦ rw e
  | inr (p, e) ↦ rw (e, position-append_some 0 b t e)
]

domain_again :
    (u : ℕ) (b t : Bytes)
    → u < length b
    → scan_domain true (some u) (scan_domain true (some u) none b) (b ++ t)
      ≡ scan_domain true (some u) none (b ++ t)
unfolding scan_domain
domain_again u b t h = elim (Option-cases (position 0 (drop (u + 1) b))) [
  | inl e ↦ rw e
  | inr (q, e) ↦
      rw (e, drop-append (u + 1) b t (omega arith), position-append_some 0 (drop (u + 1) b) t e)
]

domains_again :
    (is_socks4a : Bool) (b t : Bytes)
    → scan_domain is_socks4a
        (position 0 (b ++ t))
        (scan_domain is_socks4a (position 0 b) none b)
        (b ++ t)
      ≡ scan_domain is_socks4a (position 0 (b ++ t)) none (b ++ t)
domains_again false b t = unfold scan_domain in refl
domains_again true b t = elim (Option-cases (position 0 b)) [
  | inl e ↦ rw e (unfold scan_domain in refl)
  | inr (u, e) ↦ rw (e, position-append_some 0 b t e) (domain_again u b t (position-lt 0 b e))
]

scan_again :
    (is_socks4a : Bool) (b t : Bytes)
    → scan is_socks4a (scan is_socks4a no_ends b) (b ++ t) ≡ scan is_socks4a no_ends (b ++ t)
unfolding scan
scan_again is_socks4a b t = rw (user_again b t) (go (domains_again is_socks4a b t))
  where
    go :
        {d e : Option ℕ}
        → d ≡ e
        → ◌≡◌ {A = Ends}
            (record { user_id_end = position 0 (b ++ t); domain_end = d })
            (record { user_id_end = position 0 (b ++ t); domain_end = e })
    go p = cc

pub scan-IsStale :
    (is_socks4a : Bool) (e : Ends) (b : Bytes)
    → IsStale is_socks4a e b
    → (scan is_socks4a e b ≡ scan is_socks4a no_ends b) × IsStale is_socks4a (scan is_socks4a e b) b
scan-IsStale is_socks4a e b h =
    let same : scan is_socks4a e b ≡ scan is_socks4a no_ends b = rw append-nil at (h []) in
    (same, rw same (scan_again is_socks4a b))
