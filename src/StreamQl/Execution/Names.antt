-- ===== src/StreamQl/Execution/Names.antt =====
-- Fields that are plain names, and not calls of the functions that a query aggregates with.
use stream_flow.Prelude.{
  ◌==◌, ==_iff, All, ascii, sym, ◌∙◌, ℕ, ◌≡◌, ◌⊎◌, inl, inr, refl, ap, Bool, true, false, List, [],
  ◌∷◌, Bytes, filter, bytes_key, arith, Bool-cases,
}
use stream_flow.Text.Laws.{IsFree}
use stream_flow.Text.{to_lower, has_prefix}
use stream_flow.StreamQl.Queries.{Query, is_aggregate}

-- No field is a call of a function.
abbrev pub AllNames : List Bytes → Type 0
AllNames fs = All (IsFree (λ c. c == b'(')) fs

has_prefix-IsFree :
    (p : ℕ → Bool) (s pre : Bytes) → has_prefix s pre ≡ true → IsFree p s → IsFree p pre
unfolding has_prefix
has_prefix-IsFree p s [] h k = tt
has_prefix-IsFree p [] (c ∷ pre) h k = absurd (cc)
has_prefix-IsFree p (d ∷ s) (c ∷ pre) h k = (
  ap p (sym ((==_iff d c).0 (ground (arith, h)))) ∙ k.0,
  has_prefix-IsFree p s pre (ground (arith, h)) k.1,
)

to_lower-IsFree : (s : Bytes) → IsFree (λ c. c == b'(') s → IsFree (λ c. c == b'(') (to_lower s)
to_lower-IsFree [] h = tt
to_lower-IsFree (c ∷ s) h = (ground (arith, h.0), to_lower-IsFree s h.1)

no_call :
    (s pre : Bytes)
    → IsFree (λ c. c == b'(') s
    → (IsFree (λ c. c == b'(') pre → true ≡ false)
    → has_prefix (to_lower s) pre ≡ false
no_call s pre h call = elim (Bool-cases (has_prefix (to_lower s) pre)) [
  | inl e ↦
      absurd
        (cc (call (has_prefix-IsFree (λ c. c == b'(') (to_lower s) pre e (to_lower-IsFree s h))))
  | inr e ↦ e
]

names_only : (fs : List Bytes) → AllNames fs → filter is_aggregate fs ≡ []
names_only [] h = refl
names_only (f ∷ fs) h =
    let a = no_call f (ascii "count(") h.0 (λ k. k.1.1.1.1.1.0) in
    let b = no_call f (ascii "sum(") h.0 (λ k. k.1.1.1.0) in
    let c = no_call f (ascii "avg(") h.0 (λ k. k.1.1.1.0) in rw (a, b, c) (names_only fs h.1)

pub no_aggregates :
    (q : Query)
    → AllNames q.select ⊎ (q.group_by ≡ [])
    → (filter is_aggregate q.select ≡ []) ⊎ (q.group_by ≡ [])
no_aggregates q (inl h) = inl (names_only q.select h)
no_aggregates q (inr h) = inr h
