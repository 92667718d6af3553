-- ===== src/Net/Ipv4.antt =====
-- The text of an IPv4 address.
use simple_forwarder.Prelude.{
  ℕ, Option, none, some, List, [], ◌∷◌, ◌++◌, ◌==◌, if◌then◌else◌, ◌≡◌, refl,
}
use simple_forwarder.Text.{Bytes, codes, split}
use simple_forwarder.Text.Decimal.{show_dec, digits_value}

-- The octets with dots between them.
unfoldable pub show_ipv4 : Bytes → Bytes
unfolding show_dec
show_ipv4 [] = []
show_ipv4 (o ∷ []) = show_dec o
show_ipv4 (o ∷ p ∷ os) = show_dec o ++ b'.' ∷ show_ipv4 (p ∷ os)

-- One octet: one to three digits, no leading zero, at most 255.
unfoldable pub parse_octet : Bytes → Option ℕ
unfolding digits_value
parse_octet [] = none
parse_octet (a ∷ []) = digits_value 255 0 (a ∷ [])
parse_octet (a ∷ b ∷ []) = if a == b'0' then none else digits_value 255 0 (a ∷ b ∷ [])
parse_octet (a ∷ b ∷ c ∷ []) = if a == b'0' then none else digits_value 255 0 (a ∷ b ∷ c ∷ [])
parse_octet _ = none

infixl 5 ◌>>=◌
abbrev ◌>>=◌ {ℓ κ} : {A : Type ℓ} {B : Type κ} → Option A → (A → Option B) → Option B
none >>= f = none
some a >>= f = f a

parse_four : List Bytes → Option Bytes
parse_four (a ∷ b ∷ c ∷ d ∷ []) = do
  x ← parse_octet a
  y ← parse_octet b
  z ← parse_octet c
  w ← parse_octet d
  some (x ∷ y ∷ z ∷ w ∷ [])
parse_four _ = none

unfoldable pub parse_ipv4 : Bytes → Option Bytes
unfolding parse_octet parse_four
parse_ipv4 s = parse_four (split b'.' s)

read_back : parse_ipv4 (show_ipv4 (192 ∷ 168 ∷ 0 ∷ 1 ∷ [])) ≡ some (192 ∷ 168 ∷ 0 ∷ 1 ∷ [])
unfolding parse_ipv4 show_ipv4
read_back = refl

refused : parse_ipv4 (codes "192.168.01.1") ≡ none
unfolding parse_ipv4
refused = refl
