-- ===== src/Text/Words/Plain.antt =====
-- Words of visible ASCII characters between single spaces.
use simple_forwarder.Prelude.{
  ℕ, ◌<◌, ◌≡◌, refl, sym, ap, ◌∙◌, List, [], ◌∷◌, ◌++◌, append_assoc, append-nil, arith, All,
}
use simple_forwarder.Text.Slices.{Bytes}
use simple_forwarder.Text.Words.{
  ws_width, trim_start_from, trim_end_from, before, trim, flush, words_from, split_whitespace,
}

abbrev pub IsVisible : ℕ → Type 0
IsVisible c = (0x20 < c) × (c < 0x7F)

-- At least one character, and all are visible.
abbrev pub IsWord : Bytes → Type 0
IsWord [] = ⊥
IsWord (c ∷ w) = IsVisible c × All IsVisible w

ws_width-visible : (c : ℕ) (s : Bytes) → IsVisible c → ws_width (c ∷ s) ≡ 0
unfolding ws_width
ws_width-visible c [] h = ground arith
ws_width-visible c (d ∷ []) h = ground arith
ws_width-visible c (d ∷ e ∷ s) h = ground arith

ws_width-space : (s : Bytes) → ws_width (32 ∷ s) ≡ 1
unfolding ws_width
ws_width-space [] = refl
ws_width-space (d ∷ []) = refl
ws_width-space (d ∷ e ∷ s) = refl

trim_start-visible : (c : ℕ) (s : Bytes) → IsVisible c → trim_start_from 0 (c ∷ s) ≡ c ∷ s
unfolding trim_start_from
trim_start-visible c s h = rw (ws_width-visible c s h, trim_start_from) refl

trim_end-append :
    (w s : Bytes) → All IsVisible w → trim_end_from 0 (w ++ s) ≡ w ++ trim_end_from 0 s
unfolding trim_end_from
trim_end-append [] s h = refl
trim_end-append (c ∷ w) s h =
    rw (ws_width-visible c (w ++ s) h.0, trim_end_from) (ap (◌∷◌ c) (trim_end-append w s h.1))

trim_end-space : (s : Bytes) → trim_end_from 0 (32 ∷ s) ≡ before 32 (trim_end_from 0 s)
unfolding trim_end_from
trim_end-space s = rw (ws_width-space s, trim_end_from) refl

line_end : trim_end_from 0 (13 ∷ 10 ∷ []) ≡ []
unfolding trim_end_from ws_width
line_end = refl

before-word : (w s : Bytes) → IsWord w → before 32 (w ++ s) ≡ 32 ∷ (w ++ s)
before-word [] s h = absurd h
before-word (c ∷ w) s h = refl

IsWord-IsVisible : (w : Bytes) → IsWord w → All IsVisible w
IsWord-IsVisible [] h = absurd h
IsWord-IsVisible (c ∷ w) h = h

trim_start-word : (w s : Bytes) → IsWord w → trim_start_from 0 (w ++ s) ≡ w ++ s
trim_start-word [] s h = absurd h
trim_start-word (c ∷ w) s h = trim_start-visible c (w ++ s) h.0

-- Three words and the end of a line.
abbrev pub three_words : Bytes → Bytes → Bytes → Bytes
three_words a b c = a ++ 32 ∷ (b ++ 32 ∷ c)

pub trim-three_words :
    (a b c : Bytes)
    → IsWord a
    → IsWord b
    → IsWord c
    → trim (a ++ 32 ∷ (b ++ 32 ∷ (c ++ 13 ∷ 10 ∷ []))) ≡ three_words a b c
unfolding trim
trim-three_words a b c ha hb hc =
    ap (trim_end_from 0) (trim_start-word a _ ha)
    ∙ trim_end-append a _ (IsWord-IsVisible a ha)
    ∙ ap (◌++◌ a) (
        trim_end-space (b ++ 32 ∷ (c ++ 13 ∷ 10 ∷ []))
        ∙ ap (before 32) (
            trim_end-append b (32 ∷ (c ++ 13 ∷ 10 ∷ [])) (IsWord-IsVisible b hb)
            ∙ ap (◌++◌ b) (
                trim_end-space (c ++ 13 ∷ 10 ∷ [])
                ∙ ap (before 32) (
                    trim_end-append c (13 ∷ 10 ∷ []) (IsWord-IsVisible c hc) ∙ ap (◌++◌ c) line_end)
                ∙ before-word c [] hc
                ∙ ap (λ (r : Bytes). 32 ∷ r) (append-nil c)))
        ∙ before-word b (32 ∷ c) hb)

words_from-append :
    (word w s : Bytes) → All IsVisible w → words_from 0 word (w ++ s) ≡ words_from 0 (word ++ w) s
unfolding words_from
words_from-append word [] s h = ap (λ (x : Bytes). words_from 0 x s) (sym (append-nil word))
words_from-append word (c ∷ w) s h =
    rw (ws_width-visible c (w ++ s) h.0, words_from)
      (words_from-append (word ++ c ∷ []) w s h.1
        ∙ ap (λ (x : Bytes). words_from 0 x s) (append_assoc word (c ∷ []) w))

words_from-space : (word s : Bytes) → words_from 0 word (32 ∷ s) ≡ flush word (words_from 0 [] s)
unfolding words_from
words_from-space word s = rw (ws_width-space s, words_from) refl

flush-word : (w : Bytes) (ws : List Bytes) → IsWord w → flush w ws ≡ w ∷ ws
flush-word [] ws h = absurd h
flush-word (c ∷ w) ws h = refl

words_from-word : (w s : Bytes) → IsWord w → words_from 0 [] (w ++ 32 ∷ s) ≡ w ∷ words_from 0 [] s
words_from-word w s h =
    words_from-append [] w (32 ∷ s) (IsWord-IsVisible w h) ∙ words_from-space w s ∙ flush-word w _ h

words_from-last : (w : Bytes) → IsWord w → words_from 0 [] w ≡ w ∷ []
unfolding words_from
words_from-last w h =
    ap (words_from 0 []) (sym (append-nil w))
    ∙ words_from-append [] w [] (IsWord-IsVisible w h)
    ∙ flush-word w [] h

pub split_whitespace-three_words :
    (a b c : Bytes)
    → IsWord a
    → IsWord b
    → IsWord c
    → split_whitespace (three_words a b c) ≡ a ∷ b ∷ c ∷ []
unfolding split_whitespace
split_whitespace-three_words a b c ha hb hc =
    words_from-word a _ ha ∙ ap (◌∷◌ a) (words_from-word b c hb ∙ ap (◌∷◌ b) (words_from-last c hc))
