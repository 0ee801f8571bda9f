-- ===== src/Processor/Operators.antt =====
-- processor/op.go and processor/runtime.go: the operators that map, filter, count and join, as
-- functions on finite streams, and the runtime.
pub mod Counts
pub mod Windows
pub mod Joins
use stream_flow.Prelude.{
  ℕ, suc, ◌%◌, Bool, true, false, ◌&&◌, not, Option, none, some, List, [], ◌∷◌, ◌++◌, Bytes, ascii,
  bytes_key, ◌==◌, if◌then◌else◌,
}
use stream_flow.Dict.{Dict, lookup, insert}
use stream_flow.Int64.{add, is_not_positive}
use stream_flow.Processor.Values.{
  Floats, Value, counts, Record, Stream, Printer, field_text, or_blank,
}

abbrev pub or_zero : Option ℕ → ℕ
or_zero none = 0
or_zero (some n) = n

-- `counts[s]++`
unfoldable pub increment : Bytes → Dict Bytes ℕ → Dict Bytes ℕ
increment s c = insert s (add (or_zero (lookup s c)) 1) c

abbrev pub count_text : Option Bytes → Dict Bytes ℕ → Dict Bytes ℕ
count_text none c = c
count_text (some s) c = increment s c

-- `seen` is the number of records read, which stays below 2 ^ 63.
abbrev pub is_full : ℕ → ℕ → Bool
is_full size seen = not (is_not_positive size) && (seen % size == 0)

module _ (w : Floats) where
  -- A function that returns `none` gives nil.
  unfoldable pub map_operator : (Record w → Option (Record w)) → Stream w → Stream w
  map_operator fn [] = []
  map_operator fn (r ∷ rs) =
      let rest = map_operator fn rs in elim (fn r) [ none ↦ rest | some nr ↦ nr ∷ rest ]

  unfoldable pub filter_operator : (Record w → Bool) → Stream w → Stream w
  filter_operator pred [] = []
  filter_operator pred (r ∷ rs) =
      let rest = filter_operator pred rs in if pred r then r ∷ rest else rest

  abbrev pub counts_record : Dict Bytes ℕ → Record w
  counts_record c = (ascii "counts", counts c) ∷ []

  abbrev pub last_counts : Dict Bytes ℕ → Stream w
  last_counts [] = []
  last_counts (x ∷ c) = counts_record (x ∷ c) ∷ []

  -- `for k, v := range r { merged[k] = v }`
  unfoldable pub merge : Record w → Record w → Record w
  merge merged [] = merged
  merge merged ((k, v) ∷ r) = merge (insert k v merged) r

  abbrev pub joined : Record w → Option (Record w) → Option (Record w)
  joined l none = none
  joined l (some r) = some (merge (merge [] l) r)

  module _ (print : Printer w) where
    abbrev pub count_record : Bytes → Record w → Dict Bytes ℕ → Dict Bytes ℕ
    count_record key r c = count_text (field_text w print key r) c

    unfoldable pub count_loop : Bytes → Dict Bytes ℕ → Stream w → Dict Bytes ℕ
    count_loop key c [] = c
    count_loop key c (r ∷ rs) = count_loop key (count_record key r c) rs

    unfoldable pub aggregate_operator : Bytes → Stream w → Stream w
    unfolding count_loop
    aggregate_operator key rs = counts_record (count_loop key [] rs) ∷ []

    unfoldable pub window_loop : Bytes → ℕ → Dict Bytes ℕ → ℕ → Stream w → Stream w
    window_loop key size c seen [] = last_counts c
    window_loop key size c seen (r ∷ rs) =
        let c' = count_record key r c in
        let emitted = counts_record c' ∷ window_loop key size [] (suc seen) rs in
        let going = window_loop key size c' (suc seen) rs in
        if is_full size (suc seen) then emitted else going

    unfoldable pub window_aggregate_operator : Bytes → ℕ → Stream w → Stream w
    unfolding window_loop
    window_aggregate_operator key size rs = window_loop key size [] 0 rs

    unfoldable pub join_operator : Bytes → Dict Bytes (Record w) → Stream w → Stream w
    unfolding map_operator
    join_operator left_key right_map rs =
        map_operator (λ l. joined l (lookup (or_blank (field_text w print left_key l)) right_map))
          rs

  -- `Runtime.Run` of operators on a finite stream.
  unfoldable pub run : List (Stream w → Stream w) → Stream w → Stream w
  run [] ch = ch
  run (op ∷ ops) ch = run ops (op ch)
