-- ===== src/StreamQl/Execution.antt =====
-- streamql/executor.go: the operators of a plan, and running it.
pub mod Names
pub mod Rows
use stream_flow.Prelude.{
  ℕ, Bool, true, false, ◌&&◌, not, Option, none, some, List, [], ◌∷◌, ◌++◌, Bytes, ascii, bytes_key,
  map, same_bytes, if◌then◌else◌,
}
use stream_flow.Dict.{lookup, insert}
use stream_flow.Int64.{is_not_positive}
use stream_flow.Text.{trim_space, to_lower, is_blank}
use stream_flow.Processor.Values.{Floats, Value, Record, Stream, Printer}
use stream_flow.Processor.Operators.{map_operator, filter_operator, aggregate_operator, run}
use stream_flow.Processor.Aggregates.{
  AggSpec, Event, arrives, aggregate_funcs_operator, time_window_operator,
}
use stream_flow.StreamQl.Queries.{Plan, Patterns, AggregateMatch}
use stream_flow.StreamQl.Predicates.{compile_predicate}

abbrev pub add_spec : Option AggregateMatch → List AggSpec → List AggSpec
add_spec none specs = specs
add_spec (some m) specs =
    record { func = to_lower m.func_text; field = m.field_text; alias = m.alias_text } ∷ specs

-- What does not match is left out.
unfoldable pub specs_of : Patterns → List Bytes → List AggSpec
specs_of patterns [] = []
specs_of patterns (a ∷ as') = add_spec (patterns.match_aggregate a) (specs_of patterns as')

abbrev pub is_count_star : List AggSpec → Bool
is_count_star [] = false
is_count_star (s ∷ []) = same_bytes s.func (ascii "count") && same_bytes s.field (ascii "*")
is_count_star (s ∷ t ∷ ss) = false

abbrev pub is_star : List Bytes → Bool
is_star [] = true
is_star (f ∷ []) = same_bytes f (ascii "*")
is_star (f ∷ g ∷ fs) = false

module _ (w : Floats) where
  abbrev pub copy_field : Bytes → Option (Value w) → Record w → Record w
  copy_field f none out = out
  copy_field f (some v) out = insert f v out

  unfoldable pub project_loop : List Bytes → Record w → Record w → Record w
  project_loop [] r out = out
  project_loop (f ∷ fs) r out = project_loop fs r (copy_field f (lookup f r) out)

  unfoldable pub project : List Bytes → Record w → Record w
  unfolding project_loop
  project projections r = if is_star projections then r else project_loop projections r []

  pub data Operator : Type 0 where
    filters : (Record w → Bool) → Operator
    projects : List Bytes → Operator
    counts_by : Bytes → Operator
    aggregates_by : Bytes → List AggSpec → Operator
    windows_by : ℕ → Bytes → List AggSpec → Operator

  -- The last operator of a plan with aggregates by `key`.
  unfoldable pub aggregate_part : ℕ → Bytes → List AggSpec → Operator
  aggregate_part window_ms key specs =
      if is_count_star specs
      then counts_by key
      else if not (is_not_positive window_ms)
      then windows_by window_ms key specs
      else aggregates_by key specs

  abbrev pub last_part : Patterns → Plan → List Bytes → List Bytes → Operator
  last_part patterns p [] keys = projects p.projections
  last_part patterns p (a ∷ as') [] = projects p.projections
  last_part patterns p (a ∷ as') (key ∷ keys) =
      aggregate_part p.window_ms key (specs_of patterns (a ∷ as'))

  unfoldable pub build_operators : Patterns → Plan → List Operator
  unfolding aggregate_part specs_of
  build_operators patterns p =
      let last : Operator = last_part patterns p p.aggregates p.group_by in
      if is_blank (trim_space p.filter_text)
      then last ∷ []
      else filters (compile_predicate w p.filter_text) ∷ last ∷ []

  -- `schedule` tells where in a stream the ticks of a time window come.
  module _ (print : Printer w) (schedule : ℕ → Stream w → List (Event w)) where
    unfoldable pub process : Operator → Stream w → Stream w
    process (filters pred) rs = filter_operator w pred rs
    process (projects fields) rs = map_operator w (λ r. some (project fields r)) rs
    process (counts_by key) rs = aggregate_operator w print key rs
    process (aggregates_by key specs) rs = aggregate_funcs_operator w print key specs rs
    process (windows_by ms key specs) rs = time_window_operator w print key specs (schedule ms rs)

    unfoldable pub run_plan : Patterns → Plan → Stream w → Stream w
    unfolding build_operators process
    run_plan patterns p src = run w (map process (build_operators patterns p)) src
