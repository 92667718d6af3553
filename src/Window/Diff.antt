-- ===== src/Window/Diff.antt =====
-- What the notifications of a tick make of the rows that a table shows.
use simple_forwarder.Prelude.{
  ℕ, ◌+◌, ◌≡◌, refl, sym, ap, ◌∙◌, Bool, true, false, List, [], ◌∷◌, ◌++◌, append_assoc,
  if◌then◌else◌, keep, arith, length, length-append, get_or, remove_at,
}
use simple_forwarder.Text.{contains}
use simple_forwarder.Tracker.Defs.{ConnectionInfo}
use simple_forwarder.Window.Defs.{
  Notice, row_deleted, row_inserted, row_changed, deletions, insertions, changes, insert_at, set,
  show, each, ids,
}

module _ {ℓ} {A : Type ℓ} where
  remove_at-length :
      (pre : List A) (x : A) (xs : List A) → remove_at (length pre) (pre ++ x ∷ xs) ≡ pre ++ xs
  remove_at-length [] x xs = refl
  remove_at-length (p ∷ pre) x xs = ap (◌∷◌ p) (remove_at-length pre x xs)

  insert_at-length :
      (pre : List A) (y : A) (xs : List A) → insert_at (length pre) y (pre ++ xs) ≡ pre ++ y ∷ xs
  insert_at-length [] y xs = refl
  insert_at-length (p ∷ pre) y xs = ap (◌∷◌ p) (insert_at-length pre y xs)

  set-length :
      (pre : List A) (x y : A) (xs : List A) → set (pre ++ x ∷ xs) (length pre) y ≡ pre ++ y ∷ xs
  set-length [] x y xs = refl
  set-length (p ∷ pre) x y xs = ap (◌∷◌ p) (set-length pre x y xs)

  get_or-length :
      (pre : List A) (x : A) (xs : List A) (blank : A)
      → get_or (pre ++ x ∷ xs) (length pre) blank ≡ x
  get_or-length [] x xs blank = refl
  get_or-length (p ∷ pre) x xs blank = get_or-length pre x xs blank

  next_index : (pre : List A) (x : A) → length pre + 1 ≡ length (pre ++ x ∷ [])
  next_index pre x = sym (length-append pre (x ∷ []))

  snoc : (pre : List A) (x : A) (xs : List A) → (pre ++ x ∷ []) ++ xs ≡ pre ++ x ∷ xs
  snoc pre x xs = append_assoc pre (x ∷ []) xs

  longer :
      (xs ys : List A) (x y : A)
      → length xs ≡ length ys
      → length (xs ++ x ∷ []) ≡ length (ys ++ y ∷ [])
  longer xs ys x y e = omega (arith, length-append xs (x ∷ []), length-append ys (y ∷ []))

  module _ (blank : A) where
    pub show-append :
        (source : List A) (ns ms : List Notice) (view : List A)
        → show blank source (ns ++ ms) view ≡ show blank source ms (show blank source ns view)
    unfolding show
    show-append source [] ms view = refl
    show-append source (row_deleted i ∷ ns) ms view = show-append source ns ms (remove_at i view)
    show-append source (row_inserted i ∷ ns) ms view =
        show-append source ns ms (insert_at i (get_or source i blank) view)
    show-append source (row_changed i ∷ ns) ms view =
        show-append source ns ms (set view i (get_or source i blank))

    -- The deletions leave the rows of the ids that are among the new.
    pub show-deletions :
        (f : ℕ → A) (source : List A) (new : List ℕ) (pre : List A) (is : List ℕ)
        → show blank source (deletions new (length pre) is) (pre ++ each f is)
          ≡ pre ++ each f (keep (contains new) is)
    unfolding show deletions
    show-deletions f source new pre [] = refl
    show-deletions f source new pre (id ∷ is) =
        show-append source (deletions new (length pre + 1) is) _ (pre ++ f id ∷ each f is)
        ∙ ap (show blank source last) (
            rw (next_index pre (f id)) (
              rw (sym (snoc pre (f id) (each f is))) (
                show-deletions f source new (pre ++ f id ∷ []) is
                ∙ snoc pre (f id) (each f (keep (contains new) is)))))
        ∙ drops (contains new id)
      where
        last : List Notice
        last = if contains new id then [] else row_deleted (length pre) ∷ []

        drops :
            (b : Bool)
            → show blank source
                (if b then [] else row_deleted (length pre) ∷ [])
                (pre ++ f id ∷ each f (keep (contains new) is))
              ≡ pre ++ each f (if b then id ∷ keep (contains new) is else keep (contains new) is)
        drops true = refl
        drops false = remove_at-length pre (f id) (each f (keep (contains new) is))

    -- The insertions add a row read from the source for every connection that was not among the old.
    pub show-insertions :
        (f : ℕ → A) (h : ConnectionInfo → A) (old : List ℕ) (pre spre : List A)
        (cs : List ConnectionInfo)
        → length spre ≡ length pre
        → show blank
            (spre ++ each h cs)
            (insertions old (length pre) (ids cs))
            (pre ++ each f (keep (contains old) (ids cs)))
          ≡ pre ++ each (λ c. if contains old c.id then f c.id else h c) cs
    unfolding show insertions
    show-insertions f h old pre spre [] e = refl
    show-insertions f h old pre spre (c ∷ cs) e = go (contains old c.id) (
        rw (next_index pre row) (
          rw (sym (snoc spre (h c) (each h cs)), sym (snoc pre row kept))
            (show-insertions f h old (pre ++ row ∷ []) (spre ++ h c ∷ []) cs
                (longer spre pre (h c) row e)
              ∙ snoc pre row rest)))
      where
        row : A
        row = if contains old c.id then f c.id else h c

        source : List A
        source = spre ++ h c ∷ each h cs

        later : List Notice
        later = insertions old (length pre + 1) (ids cs)

        kept : List A
        kept = each f (keep (contains old) (ids cs))

        rest : List A
        rest = each (λ c. if contains old c.id then f c.id else h c) cs

        go :
            (b : Bool)
            → show blank source later (pre ++ (if b then f c.id else h c) ∷ kept)
              ≡ pre ++ (if b then f c.id else h c) ∷ rest
            → show blank source (if b then later else row_inserted (length pre) ∷ later) (
                pre
                ++ each f (
                    if b
                    then c.id ∷ keep (contains old) (ids cs)
                    else keep (contains old) (ids cs)))
              ≡ pre ++ (if b then f c.id else h c) ∷ rest
        go true ih = ih
        go false ih =
            ap (λ (r : A). show blank source later (insert_at (length pre) r (pre ++ kept)))
              (ap (λ (i : ℕ). get_or source i blank) (sym e)
                ∙ get_or-length spre (h c) (each h cs) blank)
            ∙ ap (show blank source later) (insert_at-length pre (h c) kept)
            ∙ ih

    -- The change notifications read the rows anew for which the test holds.
    pub show-changes :
        (p : ConnectionInfo → Bool) (g h : ConnectionInfo → A) (pre spre : List A)
        (cs : List ConnectionInfo)
        → length spre ≡ length pre
        → show blank (spre ++ each h cs) (changes p (length pre) cs) (pre ++ each g cs)
          ≡ pre ++ each (λ c. if p c then h c else g c) cs
    unfolding show changes
    show-changes p g h pre spre [] e = refl
    show-changes p g h pre spre (c ∷ cs) e = go (p c) (
        rw (next_index pre row) (
          rw (sym (snoc spre (h c) (each h cs)), sym (snoc pre row (each g cs)))
            (show-changes p g h (pre ++ row ∷ []) (spre ++ h c ∷ []) cs
                (longer spre pre (h c) row e)
              ∙ snoc pre row rest)))
      where
        row : A
        row = if p c then h c else g c

        source : List A
        source = spre ++ h c ∷ each h cs

        later : List Notice
        later = changes p (length pre + 1) cs

        rest : List A
        rest = each (λ c. if p c then h c else g c) cs

        go :
            (b : Bool)
            → show blank source later (pre ++ (if b then h c else g c) ∷ each g cs)
              ≡ pre ++ (if b then h c else g c) ∷ rest
            → show blank source
                (if b then row_changed (length pre) ∷ later else later)
                (pre ++ g c ∷ each g cs)
              ≡ pre ++ (if b then h c else g c) ∷ rest
        go true ih =
            ap (λ (r : A). show blank source later (set (pre ++ g c ∷ each g cs) (length pre) r))
              (ap (λ (i : ℕ). get_or source i blank) (sym e)
                ∙ get_or-length spre (h c) (each h cs) blank)
            ∙ ap (show blank source later) (set-length pre (g c) (h c) (each g cs))
            ∙ ih
        go false ih = ih
