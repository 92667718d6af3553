-- ===== src/Tray/Commas.antt =====
-- `format_with_commas`.
use mathlib.Core.Path.{◌≡⟨◌⟩◌, ◌∎}
use simple_forwarder.Prelude.{
  ℕ, ◌+◌, ◌-◌, ◌/◌, ◌%◌, ◌*◌, ◌^◌, suc, ◌≤◌, ◌<◌, ◌≡◌, refl, sym, ap, ◌∙◌, true, ◌&&◌, [], ◌∷◌,
  ◌++◌, append_assoc, arith, ltb, ltb→lt, ltb→le, ◌==◌, if◌then◌else◌, length, length-append,
  Bool-cases, inl, inr,
}
use simple_forwarder.Text.{Bytes}
use simple_forwarder.Text.Decimal.{show_dec, show_dec_small, show_dec_step}

-- The loop over the digits: their number, the index of the first, and the digits to come.
with_commas : ℕ → ℕ → Bytes → Bytes
with_commas len i [] = []
with_commas len i (b ∷ s) =
    (if ltb 0 i && (len - i) % 3 == 0 then b',' ∷ [] else []) ++ b ∷ with_commas len (i + 1) s

unfoldable pub format_with_commas : ℕ → Bytes
unfolding with_commas
format_with_commas n = let s = show_dec n in with_commas (length s) 0 s

with_commas-append :
    (len i : ℕ) (s t : Bytes)
    → with_commas len i (s ++ t) ≡ with_commas len i s ++ with_commas len (i + length s) t
unfolding with_commas
with_commas-append len i [] t = ap (λ (j : ℕ). with_commas len j t) (omega arith)
with_commas-append len i (b ∷ s) t =
    ap (λ (r : Bytes). comma ++ b ∷ r)
      (with_commas-append len (i + 1) s t
        ∙ ap (λ (j : ℕ). with_commas len (i + 1) s ++ with_commas len j t) (omega arith))
    ∙ sym (append_assoc comma (b ∷ with_commas len (i + 1) s) _)
  where
    comma : Bytes
    comma = if ltb 0 i && (len - i) % 3 == 0 then b',' ∷ [] else []

-- Three digits more behind the text leave its commas where they are.
with_commas_longer :
    (len i : ℕ) (s : Bytes) → i + length s ≤ len → with_commas (len + 3) i s ≡ with_commas len i s
unfolding with_commas
with_commas_longer len i [] h = refl
with_commas_longer len i (b ∷ s) h =
    let same : (len + 3 - i) % 3 ≡ (len - i) % 3 = omega arith in
    rw same (
      ap (λ (r : Bytes). (if ltb 0 i && (len - i) % 3 == 0 then b',' ∷ [] else []) ++ b ∷ r)
        (with_commas_longer len (i + 1) s (omega arith)))

-- The last three digits get a comma in front of them.
with_commas_three :
    (l x y z : ℕ) → 0 < l → with_commas (l + 3) l (x ∷ y ∷ z ∷ []) ≡ b',' ∷ x ∷ y ∷ z ∷ []
unfolding with_commas
with_commas_three l x y z h =
    let a : l + 3 - l ≡ 3 = omega arith in
    let b : l + 3 - (l + 1) ≡ 2 = omega arith in
    let c : l + 3 - (l + 1 + 1) ≡ 1 = omega arith in
    let later : ltb 0 (l + 1) ≡ true = ground arith in ground arith

show_dec-length : (n : ℕ) → 0 < length (show_dec n)
show_dec-length n = elim (Bool-cases (ltb n 10)) [
  | inl small ↦ rw (show_dec_small n (ltb→lt n 10 small)) (omega arith)
  | inr big ↦
      rw (show_dec_step n (ltb→le n 10 big))
        (omega (arith, length-append (show_dec (n / 10)) ((b'0' + n % 10) ∷ [])))
]

-- The three digits of a number below a thousand.
abbrev pub three_digits : ℕ → Bytes
three_digits n = (b'0' + n / 100) ∷ (b'0' + n / 10 % 10) ∷ (b'0' + n % 10) ∷ []

show_dec-thousands :
    (n : ℕ) → 1000 ≤ n → show_dec n ≡ show_dec (n / 1000) ++ three_digits (n % 1000)
show_dec-thousands n h =
    show_dec n
    ≡⟨ show_dec_step n (omega arith) ⟩ show_dec (n / 10) ++ last n
    ≡⟨ ap (λ (r : Bytes). r ++ last n) (show_dec_step (n / 10) (omega arith)) ⟩
      (show_dec (n / 10 / 10) ++ last (n / 10)) ++ last n
    ≡⟨ ap (λ (r : Bytes). (r ++ last (n / 10)) ++ last n)
        (show_dec_step (n / 10 / 10) (omega arith)) ⟩
      ((show_dec (n / 10 / 10 / 10) ++ last (n / 10 / 10)) ++ last (n / 10)) ++ last n
    ≡⟨ (simp append_assoc) ⟩ show_dec (n / 10 / 10 / 10) ++ digits
    ≡⟨ ap (λ (m : ℕ). show_dec m ++ digits) (omega arith) ⟩ show_dec (n / 1000) ++ digits
    ≡⟨ ap (◌++◌ (show_dec (n / 1000))) (ground arith) ⟩
      show_dec (n / 1000) ++ three_digits (n % 1000) ∎
  where
    last : ℕ → Bytes
    last m = (b'0' + m % 10) ∷ []

    digits : Bytes
    digits = (b'0' + n / 10 / 10 % 10) ∷ (b'0' + n / 10 % 10) ∷ (b'0' + n % 10) ∷ []

-- A text of three digits at most has no comma.
with_commas_none : (len i : ℕ) (s : Bytes) → len ≤ 3 → i + length s ≤ len → with_commas len i s ≡ s
unfolding with_commas
with_commas_none len i [] h k = refl
with_commas_none len i (b ∷ s) h k = ground (arith, with_commas_none len (i + 1) s)

show_dec-length_step :
    (n k : ℕ)
    → n < 10 * 10 ^ k
    → ((m : ℕ) → m < 10 ^ k → length (show_dec m) ≤ k)
    → 0 < k
    → length (show_dec n) ≤ suc k
show_dec-length_step n k h below pos = elim (Bool-cases (ltb n 10)) [
  | inl small ↦ rw (show_dec_small n (ltb→lt n 10 small)) (omega arith)
  | inr big ↦ rw (show_dec_step n (ltb→le n 10 big)) (
      omega (
        arith,
        below (n / 10) (omega arith),
        length-append (show_dec (n / 10)) ((b'0' + n % 10) ∷ []),
      ))
]

show_dec-length_le : (n : ℕ) → n < 1000 → length (show_dec n) ≤ 3
show_dec-length_le n h =
    show_dec-length_step n 2 h
      (λ m k.
        show_dec-length_step m 1 k (λ j l. rw (show_dec_small j l) (omega arith)) (omega arith))
      (omega arith)

-- Below a thousand a number has no comma; above, it is the printed thousands, a comma, and three digits.
pub format_with_commas_lem :
    (n : ℕ)
    → format_with_commas n ≡ (
        if ltb n 1000
        then show_dec n
        else format_with_commas (n / 1000) ++ b',' ∷ three_digits (n % 1000))
unfolding format_with_commas
format_with_commas_lem n = elim (Bool-cases (ltb n 1000)) [
  | inl small ↦ rw small (
      with_commas_none (length (show_dec n)) 0 (show_dec n)
        (show_dec-length_le n (ltb→lt n 1000 small)) (omega arith))
  | inr big ↦ rw big (
      let t = show_dec (n / 1000) in
      let whole = show_dec-thousands n (ltb→le n 1000 big) in
      rw whole (
        rw (length-append t (three_digits (n % 1000))) (
          with_commas-append (length t + 3) 0 t (three_digits (n % 1000))
          ∙ ap
              (λ (r : Bytes).
                r ++ with_commas (length t + 3) (0 + length t) (three_digits (n % 1000)))
              (with_commas_longer (length t) 0 t (omega arith))
          ∙ ap
              (λ (j : ℕ).
                with_commas (length t) 0 t
                ++ with_commas (length t + 3) j (three_digits (n % 1000)))
              (omega arith)
          ∙ ap (◌++◌ (with_commas (length t) 0 t))
              (with_commas_three (length t) _ _ _ (show_dec-length (n / 1000))))))
]
