-- ===== src/Text/Laws.antt =====
-- Trimming, splitting and finding words in texts that are made of plain parts.
use stream_flow.Prelude.{
  ℕ, ◌≡◌, refl, sym, ap, ◌∙◌, Bool, false, [], ◌∷◌, ◌++◌, Bytes, All, ◌==◌, arith,
}
use mathlib.Core.List.{append_assoc, append-nil}
use stream_flow.Text.{
  is_space, is_blank, trim_left, trim_right, drop_if_blank, trim_space, split_by, cons_first,
  words_from, is_quote, trim_quotes_left, trim_quotes_right, drop_if_quote, trim_quotes,
}

-- No byte meets a test.
abbrev pub IsFree : (ℕ → Bool) → Bytes → Type 0
IsFree p s = All (λ c. p c ≡ false) s

pub trim_right-IsFree : (s : Bytes) → IsFree is_space s → trim_right s ≡ s
unfolding trim_right
trim_right-IsFree [] h = refl
trim_right-IsFree (c ∷ []) h = ground (arith, h.0)
trim_right-IsFree (c ∷ d ∷ s) h = ap (drop_if_blank c) (trim_right-IsFree (d ∷ s) h.1)

-- A text that ends in a text without white space at its end.
pub trim_right-append :
    (a s : Bytes) → is_blank s ≡ false → trim_right s ≡ s → trim_right (a ++ s) ≡ a ++ s
unfolding trim_right
trim_right-append [] s h e = e
trim_right-append (c ∷ a) s h e =
    ap (drop_if_blank c) (trim_right-append a s h e) ∙ drop_if_blank-append c a s h
  where
    drop_if_blank-append :
        (c : ℕ) (a s : Bytes) → is_blank s ≡ false → drop_if_blank c (a ++ s) ≡ c ∷ (a ++ s)
    drop_if_blank-append c [] [] h = absurd (cc)
    drop_if_blank-append c [] (d ∷ s) h = refl
    drop_if_blank-append c (d ∷ a) s h = refl

pub trim_space-append :
    (a m s : Bytes)
    → is_blank a ≡ false
    → IsFree is_space a
    → is_blank s ≡ false
    → IsFree is_space s
    → trim_space (a ++ (m ++ s)) ≡ a ++ (m ++ s)
unfolding trim_space trim_left
trim_space-append [] m s h k h' k' = absurd (cc)
trim_space-append (c ∷ a) m s h k h' k' = rw k.0 (
    ap trim_right (sym (append_assoc (c ∷ a) m s))
    ∙ trim_right-append ((c ∷ a) ++ m) s h' (trim_right-IsFree s k')
    ∙ append_assoc (c ∷ a) m s)

pub trim_space-IsFree : (s : Bytes) → IsFree is_space s → trim_space s ≡ s
unfolding trim_space trim_left trim_right
trim_space-IsFree [] h = refl
trim_space-IsFree (c ∷ s) h = rw h.0 (trim_right-IsFree (c ∷ s) h)

pub split_by-part :
    (sep : ℕ) (p rest : Bytes)
    → IsFree (λ c. c == sep) p
    → split_by sep (p ++ (sep ∷ rest)) ≡ p ∷ split_by sep rest
unfolding split_by
split_by-part sep [] rest h = ground arith
split_by-part sep (c ∷ p) rest h = rw h.0 (ap (cons_first c) (split_by-part sep p rest h.1))

pub split_by-last : (sep : ℕ) (p : Bytes) → IsFree (λ c. c == sep) p → split_by sep p ≡ p ∷ []
unfolding split_by
split_by-last sep [] h = refl
split_by-last sep (c ∷ p) h = rw h.0 (ap (cons_first c) (split_by-last sep p h.1))

pub words_from-word :
    (word w rest : Bytes)
    → is_blank (word ++ w) ≡ false
    → IsFree is_space w
    → words_from word (w ++ (32 ∷ rest)) ≡ (word ++ w) ∷ words_from [] rest
unfolding words_from
words_from-word word [] rest h k =
    let e : is_blank word ≡ false = ap is_blank (sym (append-nil word)) ∙ h in
    rw (append-nil word, e) refl
words_from-word word (c ∷ w) rest h k =
    let same = append_assoc word (c ∷ []) w in
    rw k.0 (
      words_from-word (word ++ (c ∷ [])) w rest (ap is_blank same ∙ h) k.1
      ∙ ap (λ l. l ∷ words_from [] rest) same)

pub words_from-last :
    (word w : Bytes)
    → is_blank (word ++ w) ≡ false
    → IsFree is_space w
    → words_from word w ≡ (word ++ w) ∷ []
unfolding words_from
words_from-last word [] h k =
    let e : is_blank word ≡ false = ap is_blank (sym (append-nil word)) ∙ h in
    rw (append-nil word, e) refl
words_from-last word (c ∷ w) h k =
    let same = append_assoc word (c ∷ []) w in
    rw k.0 (words_from-last (word ++ (c ∷ [])) w (ap is_blank same ∙ h) k.1 ∙ ap (λ l. l ∷ []) same)

trim_quotes_right-IsFree : (s : Bytes) → IsFree is_quote s → trim_quotes_right s ≡ s
unfolding trim_quotes_right
trim_quotes_right-IsFree [] h = refl
trim_quotes_right-IsFree (c ∷ []) h = ground (arith, h.0)
trim_quotes_right-IsFree (c ∷ d ∷ s) h = ap (drop_if_quote c) (trim_quotes_right-IsFree (d ∷ s) h.1)

pub trim_quotes-IsFree : (s : Bytes) → IsFree is_quote s → trim_quotes s ≡ s
unfolding trim_quotes trim_quotes_left trim_quotes_right
trim_quotes-IsFree [] h = refl
trim_quotes-IsFree (c ∷ s) h = rw h.0 (trim_quotes_right-IsFree (c ∷ s) h)
