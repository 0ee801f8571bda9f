-- ===== src/Processor/Aggregates.antt =====
-- processor/op.go: sums, averages and counts by group, over a whole stream or over the records
-- between two ticks of a clock.
pub mod TimeWindows
use stream_flow.Prelude.{
  ℕ, Bool, true, false, ◌&&◌, ◌||◌, Option, none, some, List, [], ◌∷◌, ◌++◌, Bytes, ascii, any,
  bytes_key, same_bytes, ◌==◌, if◌then◌else◌,
}
use stream_flow.Dict.{Dict, lookup, insert}
use stream_flow.Processor.Values.{
  Floats, Aggregate, total, count, Value, text, int, float, opaque, counts, groups, Record, Stream,
  Printer, field_text, or_blank,
}
use stream_flow.Processor.Operators.{or_zero, increment}

pub record AggSpec : Type 0 where
  pub func : Bytes
  pub field : Bytes
  pub alias : Bytes

abbrev pub alias_or : AggSpec → Bytes → Bytes
alias_or spec [] = spec.func ++ (b'_' ∷ spec.field)
alias_or spec (c ∷ cs) = c ∷ cs

abbrev pub alias_of : AggSpec → Bytes
alias_of spec = alias_or spec spec.alias

abbrev pub or_nil {ℓ κ} : {K : Type ℓ} {V : Type κ} → Option (Dict K V) → Dict K V
or_nil none = []
or_nil (some m) = m

abbrev pub is_nil {ℓ} : {A : Type ℓ} → List A → Bool
is_nil [] = true
is_nil (x ∷ xs) = false

module _ (w : Floats) where
  open w use {Float, zero_float, plus, divide, of_int}

  pub record Tally : Type 0 where
    pub sums : Dict Bytes (Dict Bytes Float)
    pub counted : Dict Bytes (Dict Bytes ℕ)

  abbrev pub no_tally : Tally
  no_tally = record { sums = []; counted = [] }

  abbrev pub or_zero_float : Option Float → Float
  or_zero_float none = zero_float
  or_zero_float (some x) = x

  unfoldable pub open_group : Bytes → Tally → Tally
  open_group g t = elim (lookup g t.sums) [
    | some s ↦ t
    | none ↦ record t { sums = insert g [] t.sums; counted = insert g [] t.counted }
  ]

  -- `counts[g][alias]++`
  unfoldable pub count_alias : Bytes → Bytes → Tally → Tally
  count_alias g alias t = record t {
    counted = insert g (increment alias (or_nil (lookup g t.counted))) t.counted;
  }

  -- `sums[g][alias] += x` and the count beside it.
  unfoldable pub add_alias : Bytes → Bytes → Float → Tally → Tally
  unfolding count_alias
  add_alias g alias x t =
      let s = or_nil (lookup g t.sums) in
      count_alias g alias (record t {
        sums = insert g (insert alias (plus (or_zero_float (lookup alias s)) x) s) t.sums;
      })

  abbrev pub add_value : Bytes → Bytes → Option (Value w) → Tally → Tally
  add_value g alias none t = t
  add_value g alias (some (int n)) t = add_alias g alias (of_int n) t
  add_value g alias (some (float x)) t = add_alias g alias x t
  add_value g alias (some (text s)) t = t
  add_value g alias (some (opaque o)) t = t
  add_value g alias (some (counts c)) t = t
  add_value g alias (some (groups gs)) t = t

  abbrev pub is_sum : AggSpec → Bool
  is_sum spec = same_bytes spec.func (ascii "sum") || same_bytes spec.func (ascii "avg")

  unfoldable pub tally_spec : Bytes → Record w → AggSpec → Tally → Tally
  unfolding add_alias
  tally_spec g r spec t =
      if same_bytes spec.func (ascii "count")
      then count_alias g (alias_of spec) t
      else if is_sum spec
      then add_value g (alias_of spec) (lookup spec.field r) t
      else t

  unfoldable pub tally_specs : Bytes → Record w → List AggSpec → Tally → Tally
  tally_specs g r [] t = t
  tally_specs g r (spec ∷ specs) t = tally_specs g r specs (tally_spec g r spec t)

  -- The value of an alias that is in the sums.
  abbrev pub is_avg : List AggSpec → Bytes → Bool
  is_avg specs alias =
      any (λ spec. same_bytes (alias_of spec) alias && same_bytes spec.func (ascii "avg")) specs

  abbrev pub finish_sum : List AggSpec → Bytes → Float → ℕ → Aggregate w
  finish_sum specs alias sum c =
      if c == 0
      then total sum
      else if is_avg specs alias
      then total (divide sum (of_int c))
      else total sum

  unfoldable pub finish_sums :
      List AggSpec
      → Dict Bytes ℕ
      → Dict Bytes Float
      → Dict Bytes (Aggregate w)
      → Dict Bytes (Aggregate w)
  finish_sums specs cs [] out = out
  finish_sums specs cs ((alias, sum) ∷ s) out =
      finish_sums specs cs s
        (insert alias (finish_sum specs alias sum (or_zero (lookup alias cs))) out)

  abbrev pub count_unless :
      Option Float → Bytes → ℕ → Dict Bytes (Aggregate w) → Dict Bytes (Aggregate w)
  count_unless none alias c out = insert alias (count c) out
  count_unless (some x) alias c out = out

  unfoldable pub finish_counts :
      Dict Bytes Float → Dict Bytes ℕ → Dict Bytes (Aggregate w) → Dict Bytes (Aggregate w)
  finish_counts s [] out = out
  finish_counts s ((alias, c) ∷ cs) out =
      finish_counts s cs (count_unless (lookup alias s) alias c out)

  unfoldable pub finish_groups :
      List AggSpec
      → Dict Bytes (Dict Bytes ℕ)
      → Dict Bytes (Dict Bytes Float)
      → Dict Bytes (Dict Bytes (Aggregate w))
      → Dict Bytes (Dict Bytes (Aggregate w))
  unfolding finish_sums finish_counts
  finish_groups specs cs [] out = out
  finish_groups specs cs ((g, s) ∷ gs) out =
      let c = or_nil (lookup g cs) in
      finish_groups specs cs gs (insert g (finish_counts s c (finish_sums specs c s [])) out)

  unfoldable pub report : List AggSpec → Tally → Record w
  unfolding finish_groups
  report specs t = (ascii "groups", groups (finish_groups specs t.counted t.sums [])) ∷ []

  -- What the loop over the input and the ticker receives, in this order.
  pub data Event : Type 0 where
    arrives : Record w → Event
    ticks : Event

  module _ (print : Printer w) (key : Bytes) (specs : List AggSpec) where
    -- What is done with one record.
    unfoldable pub tally_record : Record w → Tally → Tally
    unfolding open_group tally_specs
    tally_record r t =
        let g = or_blank (field_text w print key r) in tally_specs g r specs (open_group g t)

    unfoldable pub tally_loop : Tally → Stream w → Tally
    tally_loop t [] = t
    tally_loop t (r ∷ rs) = tally_loop (tally_record r t) rs

    unfoldable pub aggregate_funcs_operator : Stream w → Stream w
    unfolding tally_loop report
    aggregate_funcs_operator rs = report specs (tally_loop no_tally rs) ∷ []

    unfoldable pub flush : Tally → Stream w
    unfolding report
    flush t = if is_nil t.sums && is_nil t.counted then [] else report specs t ∷ []

    unfoldable pub time_loop : Tally → List Event → Stream w
    unfolding flush
    time_loop t [] = flush t
    time_loop t (arrives r ∷ es) = time_loop (tally_record r t) es
    time_loop t (ticks ∷ es) = flush t ++ time_loop no_tally es

    -- With a duration of at least one millisecond, as the ticker wants it.
    unfoldable pub time_window_operator : List Event → Stream w
    unfolding time_loop
    time_window_operator es = time_loop no_tally es
