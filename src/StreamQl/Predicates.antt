-- ===== src/StreamQl/Predicates.antt =====
-- streamql/executor.go: `compilePredicate`.
pub mod Conditions
use stream_flow.Prelude.{
  ℕ, Bool, true, false, ◌||◌, Option, none, some, List, [], ◌∷◌, Bytes, ascii, bytes_key,
  same_bytes, ◌==◌, if◌then◌else◌,
}
use stream_flow.Dict.{lookup}
use stream_flow.Int64.{less}
use stream_flow.Text.{trim_space, fields, join_words, trim_quotes, parse_int64}
use stream_flow.Processor.Values.{Floats, Value, text, int, float, opaque, counts, groups, Record}

abbrev pub is_equals : Bytes → Bool
is_equals op = same_bytes op (ascii "=") || same_bytes op (ascii "==")

abbrev pub compare_int : Bytes → ℕ → ℕ → Bool
compare_int op t iv =
    if is_equals op
    then t == iv
    else if same_bytes op (ascii ">")
    then less iv t
    else if same_bytes op (ascii "<")
    then less t iv
    else false

abbrev pub compare_if : Bytes → ℕ → Option ℕ → Bool
compare_if op t none = false
compare_if op t (some iv) = compare_int op t iv

module _ (w : Floats) where
  unfoldable pub test_value : Bytes → Bytes → Option (Value w) → Bool
  test_value op val none = false
  test_value op val (some (int t)) = compare_if op t (parse_int64 val)
  test_value op val (some (text t)) = if is_equals op then same_bytes t val else false
  test_value op val (some (float x)) = false
  test_value op val (some (opaque o)) = false
  test_value op val (some (counts c)) = false
  test_value op val (some (groups g)) = false

  -- Fewer than three words are no condition.
  unfoldable pub predicate_of : List Bytes → Record w → Bool
  unfolding test_value
  predicate_of [] r = true
  predicate_of (f ∷ []) r = true
  predicate_of (f ∷ op ∷ []) r = true
  predicate_of (f ∷ op ∷ v ∷ vs) r = test_value op (trim_quotes (join_words (v ∷ vs))) (lookup f r)

  unfoldable pub compile_predicate : Bytes → Record w → Bool
  unfolding predicate_of
  compile_predicate expr = predicate_of (fields (trim_space expr))
