-- ===== src/Processor/Operators/Counts.antt =====
-- The count of a text is the number of records whose field reads so, on 64 bits.
use stream_flow.Prelude.{
  ℕ, ◌+◌, ◌%◌, ◌^◌, ◌<◌, ◌≡◌, refl, ap, ◌∙◌, Option, none, some, [], ◌∷◌, Bytes, bytes_key,
  same_bytes, same_bytes_iff, arith, if◌then◌else◌,
}
use stream_flow.Dict.{Dict, lookup}
use stream_flow.Dict.Laws.{lookup-insert}
use stream_flow.Processor.Values.{Floats, Stream, Printer, field_text}
use stream_flow.Processor.Operators.{
  or_zero, increment, count_text, count_record, count_loop, counts_record, aggregate_operator,
}

abbrev pub reads : Option Bytes → Bytes → ℕ
reads none s = 0
reads (some t) s = if same_bytes t s then 1 else 0

or_zero-count_text :
    (o : Option Bytes) (s : Bytes) (c : Dict Bytes ℕ)
    → or_zero (lookup s c) < 2 ^ 64
    → or_zero (lookup s (count_text o c)) ≡ (or_zero (lookup s c) + reads o s) % 2 ^ 64
unfolding increment
or_zero-count_text none s c h = omega arith
or_zero-count_text (some t) s c h = ground (
  arith,
  lookup-insert t s ((or_zero (lookup t c) + 1) % 2 ^ 64) c,
  same_bytes_iff t s,
  ap (λ (x : Bytes). or_zero (lookup x c)),
)

module _ (w : Floats) (print : Printer w) (key : Bytes) where
  -- The number of records whose field reads `s`.
  abbrev pub occurrences : Bytes → Stream w → ℕ
  occurrences s [] = 0
  occurrences s (r ∷ rs) = reads (field_text w print key r) s + occurrences s rs

  or_zero-count_loop :
      (s : Bytes) (c : Dict Bytes ℕ) (rs : Stream w)
      → or_zero (lookup s c) < 2 ^ 64
      → or_zero (lookup s (count_loop w print key c rs))
        ≡ (or_zero (lookup s c) + occurrences s rs) % 2 ^ 64
  unfolding count_loop
  or_zero-count_loop s c [] h = omega arith
  or_zero-count_loop s c (r ∷ rs) h =
      let one = or_zero-count_text (field_text w print key r) s c h in
      let rest = or_zero-count_loop s (count_record w print key r c) rs (omega (arith, one)) in
      omega (arith, one, rest)

  -- The aggregate operator gives one record of counts, in which the count of any text is, modulo 2
  -- ^ 64, the number of records whose field reads so.
  pub aggregate_operator-counts :
      (s : Bytes) (rs : Stream w)
      → (c : Dict Bytes ℕ) × (aggregate_operator w print key rs ≡ counts_record w c ∷ [])
        × (or_zero (lookup s c) ≡ occurrences s rs % 2 ^ 64)
  unfolding aggregate_operator lookup
  aggregate_operator-counts s rs = (
    count_loop w print key [] rs,
    refl,
    or_zero-count_loop s [] rs (omega arith) ∙ ap (λ n. n % 2 ^ 64) (omega arith),
  )
