-- ===== src/Tests/Queries.antt =====
-- Queries at concrete plans and records; the floats are numbers.
use stream_flow.Prelude.{◌≡◌, refl, inr, none, some, [], ◌∷◌, ascii, bytes_key, map}
use stream_flow.Dict.{lookup, insert}
use stream_flow.Text.{
  trim_space, split_by, has_prefix, fields, parse_int64, trim_quotes, join_words,
}
use stream_flow.Processor.Values.{int, Record}
use stream_flow.Processor.Operators.{map_operator, filter_operator, run}
use stream_flow.Processor.Aggregates.{arrives}
use stream_flow.StreamQl.Queries.{Patterns, Query, parse, planify}
use stream_flow.StreamQl.Predicates.{compile_predicate}
use stream_flow.StreamQl.Execution.{project, run_plan}
use stream_flow.StreamQl.Execution.Rows.{AreRows, run_plan-planify}
use stream_flow.StreamQl.Predicates.Conditions.{Condition, more, IsPlain}
use stream_flow.Tests.Operators.{numbers, print}

-- What the expression finds in `SELECT x, group FROM src WHERE x > 1`.
abbrev patterns : Patterns
patterns = record {
  match_query = λ input. some (record {
    select_text = ascii "x, group";
    from_text = ascii "src";
    where_text = ascii "x > 1";
    group_text = [];
    window_text = [];
    unit_text = [];
  });
  match_aggregate = λ s. none;
}

abbrev query : Query
query = record {
  select = ascii "x" ∷ ascii "group" ∷ [];
  from_source = ascii "src";
  condition = ascii "x > 1";
  group_by = [];
  window_ms = 0;
}

abbrev row : Record numbers
row = (ascii "x", int 2) ∷ (ascii "y", int 5) ∷ []

abbrev low_row : Record numbers
low_row = (ascii "x", int 1) ∷ []

abbrev above_one : Condition
above_one = record { field = ascii "x"; comparison = more; operand = ascii "1" }

above_one-IsPlain : IsPlain above_one
above_one-IsPlain = record {
  named = refl;
  one_name = (refl, tt);
  given = refl;
  one_operand = (refl, tt);
  unquoted = (refl, tt);
}

run_plan-planify_example :
    AreRows numbers (ascii "x" ∷ ascii "group" ∷ []) (row ∷ []) (
      run_plan numbers print
        (λ ms rs. map arrives rs)
        patterns
        (planify query)
        (row ∷ low_row ∷ []))
unfolding lookup parse_int64
run_plan-planify_example =
    run_plan-planify numbers print (λ ms rs. map arrives rs) patterns query (row ∷ low_row ∷ [])
      (some above_one) refl above_one-IsPlain (inr refl)

parsed : parse patterns (ascii "SELECT x, group FROM src WHERE x > 1") ≡ some query
unfolding parse split_by trim_space
parsed = refl

executed :
    run_plan numbers print (λ ms rs. map arrives rs) patterns (planify query) (row ∷ low_row ∷ [])
    ≡ ((ascii "x", int 2) ∷ []) ∷ []
unfolding run_plan planify compile_predicate filter_operator map_operator lookup run trim_space
    has_prefix fields parse_int64 trim_quotes join_words project insert
executed = refl
