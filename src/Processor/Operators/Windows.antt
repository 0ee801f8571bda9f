-- ===== src/Processor/Operators/Windows.antt =====
-- A window of a number of records: each full window is counted on its own, and the rest at the end.
use stream_flow.Prelude.{
  Bool, any, Option, some, none, Option-cases, inl, inr, bytes_key, if◌then◌else◌, ℕ, suc, ◌+◌, ◌%◌,
  ◌^◌, ◌<◌, ◌≡◌, refl, ap, ◌∙◌, true, false, List, [], ◌∷◌, ◌++◌, Bytes, map, concat, length, All,
  arith,
}
use mathlib.Core.List.{append_assoc}
use stream_flow.Dict.{Dict, lookup}
use stream_flow.Processor.Values.{Floats, Record, Stream, Printer, field_text, text_of}
use stream_flow.Int64.{add}
use stream_flow.Dict.Laws.{is_present, lookup-insert, lookup-insert_self}
use stream_flow.Processor.Operators.{
  aggregate_operator, count_text, increment, or_zero, counts_record, count_record, count_loop,
  is_full, last_counts, window_loop, window_aggregate_operator,
}

mod_step : (s n : ℕ) → s % n + 1 < n → suc s % n ≡ s % n + 1
mod_step s n h = grind arith

mod_round : (s n : ℕ) → 0 < n → s % n + 1 ≡ n → suc s % n ≡ 0
mod_round s n p h = grind arith

module _ (w : Floats) (print : Printer w) (key : Bytes) (size : ℕ) (some_size : 0 < size)
    (size_bound : size < 2 ^ 63) where
  -- Whether a record has the field.
  abbrev pub has_field : Record w → Bool
  has_field r = is_present (lookup key r)

  -- The counts of the records of one window.
  abbrev pub window_counts : Stream w → Record w
  window_counts rs = counts_record w (count_loop w print key [] rs)

  not_yet : (s : ℕ) → s % size + 1 < size → is_full size (suc s) ≡ false
  not_yet s h = ground (arith, mod_step s size h)

  now_full : (s : ℕ) → s % size + 1 ≡ size → is_full size (suc s) ≡ true
  now_full s h = ground (arith, mod_round s size some_size h)

  window_loop-full :
      (c : Dict Bytes ℕ) (s : ℕ) (r : Record w) (rs rest : Stream w)
      → s % size + length (r ∷ rs) ≡ size
      → window_loop w print key size c s ((r ∷ rs) ++ rest)
        ≡ counts_record w (count_loop w print key c (r ∷ rs))
          ∷ window_loop w print key size [] (s + length (r ∷ rs)) rest
  unfolding window_loop count_loop
  window_loop-full c s r [] rest h =
      let next : s + 1 ≡ suc s = omega arith in rw (now_full s (omega arith), next) refl
  window_loop-full c s r (x ∷ xs) rest h =
      let l : s % size + 1 < size = omega arith in
      let ih =
        window_loop-full (count_record w print key r c) (suc s) x xs rest
          (omega (arith, mod_step s size l)) in
      let next : s + suc (suc (length xs)) ≡ suc s + suc (length xs) = omega arith in
      rw (not_yet s l, next) ih

  window_loop-rest :
      (c : Dict Bytes ℕ) (s : ℕ) (rs : Stream w)
      → s % size + length rs < size
      → window_loop w print key size c s rs ≡ last_counts w (count_loop w print key c rs)
  unfolding window_loop count_loop
  window_loop-rest c s [] h = refl
  window_loop-rest c s (r ∷ rs) h =
      let l : s % size + 1 < size = omega arith in
      rw (not_yet s l) (
        window_loop-rest (count_record w print key r c) (suc s) rs
          (omega (arith, mod_step s size l)))

  window_loop-chunk :
      (s : ℕ) (chunk rest : Stream w)
      → s % size ≡ 0
      → length chunk ≡ size
      → window_loop w print key size [] s (chunk ++ rest)
        ≡ window_counts chunk ∷ window_loop w print key size [] (s + size) rest
  window_loop-chunk s [] rest z h = absurd (omega arith)
  window_loop-chunk s (r ∷ rs) rest z h =
      window_loop-full [] s r rs rest (omega arith)
      ∙ ap (λ n. window_counts (r ∷ rs) ∷ window_loop w print key size [] (s + n) rest) h

  window_loop-chunks :
      (s : ℕ) (chunks : List (Stream w)) (rest : Stream w)
      → s % size ≡ 0
      → All (λ c. length c ≡ size) chunks
      → length rest < size
      → window_loop w print key size [] s (concat chunks ++ rest)
        ≡ map window_counts chunks ++ last_counts w (count_loop w print key [] rest)
  window_loop-chunks s [] rest z h l = window_loop-rest [] s rest (omega arith)
  window_loop-chunks s (c ∷ cs) rest z h l =
      ap (window_loop w print key size [] s) (append_assoc c (concat cs) rest)
      ∙ window_loop-chunk s c (concat cs ++ rest) z h.0
      ∙ ap (λ l. window_counts c ∷ l) (window_loop-chunks (s + size) cs rest (grind arith) h.1 l)

  map-window_counts :
      (chunks : List (Stream w))
      → map window_counts chunks ≡ concat (map (aggregate_operator w print key) chunks)
  unfolding aggregate_operator
  map-window_counts [] = refl
  map-window_counts (c ∷ cs) = ap (λ l. window_counts c ∷ l) (map-window_counts cs)

  last_counts-counted :
      (c : Dict Bytes ℕ)
      → (k : Bytes) × (is_present (lookup k c) ≡ true)
      → last_counts w c ≡ counts_record w c ∷ []
  unfolding lookup
  last_counts-counted [] (k, h) = absurd (cc)
  last_counts-counted (x ∷ c) h = refl

  is_present-increment :
      (s : Bytes) (c : Dict Bytes ℕ) → is_present (lookup s (increment s c)) ≡ true
  unfolding increment
  is_present-increment s c = ap is_present (lookup-insert_self s (add (or_zero (lookup s c)) 1) c)

  is_present-count_text :
      (k : Bytes) (o : Option Bytes) (c : Dict Bytes ℕ)
      → is_present (lookup k c) ≡ true
      → is_present (lookup k (count_text o c)) ≡ true
  unfolding increment
  is_present-count_text k none c h = h
  is_present-count_text k (some s) c h =
      ap is_present (lookup-insert s k (add (or_zero (lookup s c)) 1) c) ∙ ground (arith, h)

  -- A text that is counted stays counted.
  is_present-count_loop :
      (k : Bytes) (c : Dict Bytes ℕ) (rs : Stream w)
      → is_present (lookup k c) ≡ true
      → is_present (lookup k (count_loop w print key c rs)) ≡ true
  unfolding count_loop
  is_present-count_loop k c [] h = h
  is_present-count_loop k c (r ∷ rs) h =
      is_present-count_loop k (count_record w print key r c) rs
        (is_present-count_text k (field_text w print key r) c h)

  last_counts-any :
      (rs : Stream w)
      → last_counts w (count_loop w print key [] rs)
        ≡ (if any has_field rs then aggregate_operator w print key rs else [])
  unfolding count_loop aggregate_operator
  last_counts-any [] = refl
  last_counts-any (r ∷ rs) = elim (Option-cases (lookup key r)) [
    | inl e ↦ rw e (last_counts-any rs)
    | inr (v, e) ↦ rw e (
        last_counts-counted (count_loop w print key (count_text (some (text_of w print v)) []) rs) (
          text_of w print v,
          is_present-count_loop (text_of w print v) (count_text (some (text_of w print v)) []) rs
              (is_present-increment (text_of w print v) []),
        ))
  ]

  -- With a window of a positive size below 2 ^ 63, a stream made of chunks of this size and a
  -- shorter rest gives what the aggregate operator gives for each chunk alone, and then what it
  -- gives for the rest if a record in it has the field.
  pub window_aggregate_operator-chunks :
      (chunks : List (Stream w)) (rest : Stream w)
      → All (λ c. length c ≡ size) chunks
      → length rest < size
      → window_aggregate_operator w print key size (concat chunks ++ rest)
        ≡ concat (map (aggregate_operator w print key) chunks)
          ++ (if any has_field rest then aggregate_operator w print key rest else [])
  unfolding window_aggregate_operator aggregate_operator
  window_aggregate_operator-chunks chunks rest h l =
      let zero_mod : 0 % size ≡ 0 = grind arith in
      window_loop-chunks 0 chunks rest zero_mod h l
      ∙ ap (λ l. l ++ last_counts w (count_loop w print key [] rest)) (map-window_counts chunks)
      ∙ ap (λ l. concat (map (aggregate_operator w print key) chunks) ++ l) (last_counts-any rest)
