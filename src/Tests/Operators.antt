-- ===== src/Tests/Operators.antt =====
-- The stream operators at concrete streams; floats are numbers here.
use stream_flow.Prelude.{
  ◌++◌, map, concat, ℕ, subst, ◌+◌, ◌/◌, ◌≡◌, refl, some, List, [], ◌∷◌, Bytes, ascii, arith,
  bytes_key, concat, map,
}
use stream_flow.Dict.{lookup, IsDistinct}
use stream_flow.Processor.Values.{Floats, text, Record, Printer}
use stream_flow.Processor.Operators.{
  counts_record, aggregate_operator, window_aggregate_operator, or_zero,
}
use stream_flow.Processor.Operators.Counts.{aggregate_operator-counts}
use stream_flow.Processor.Operators.Joins.{Joined, join_operator-Joined}
use stream_flow.Processor.Operators.Windows.{window_aggregate_operator-chunks}
use stream_flow.Processor.Aggregates.{AggSpec, Event, arrives, ticks, time_window_operator}
use stream_flow.Processor.Aggregates.TimeWindows.{batch, time_window_operator-batches}

abbrev pub numbers : Floats
numbers = record {
  Float = ℕ;
  Opaque = Unit {0};
  zero_float = 0;
  plus = λ a b. a + b;
  divide = λ a b. a / b;
  of_int = λ n. n;
}

abbrev pub print : Printer numbers
print v = []

abbrev in_group : Bytes → Record numbers
in_group g = (ascii "group", text g) ∷ []

abbrev a_record : Record numbers
a_record = in_group (ascii "a")

abbrev b_record : Record numbers
b_record = in_group (ascii "b")

aggregate_operator-counts_example :
    (c : List (Bytes × ℕ)) × (aggregate_operator numbers print
        (ascii "group")
        (a_record ∷ b_record ∷ a_record ∷ [])
      ≡ counts_record numbers c ∷ [])
    × (or_zero (lookup (ascii "a") c) ≡ 2)
unfolding lookup
aggregate_operator-counts_example =
    aggregate_operator-counts numbers print (ascii "group") (ascii "a")
      (a_record ∷ b_record ∷ a_record ∷ [])

window_aggregate_operator-chunks_example :
    window_aggregate_operator numbers print (ascii "group") 2 (a_record ∷ b_record ∷ a_record ∷ [])
    ≡ concat
        (map (aggregate_operator numbers print (ascii "group")) ((a_record ∷ b_record ∷ []) ∷ []))
      ++ aggregate_operator numbers print (ascii "group") (a_record ∷ [])
unfolding lookup
window_aggregate_operator-chunks_example =
    window_aggregate_operator-chunks numbers print (ascii "group") 2 (omega arith) (omega arith)
      ((a_record ∷ b_record ∷ []) ∷ []) (a_record ∷ []) (refl, tt) (omega arith)

abbrev users : List (Bytes × Record numbers)
users = (ascii "a", (ascii "name", text (ascii "Alice")) ∷ []) ∷ []

a_record-IsDistinct : IsDistinct a_record
unfolding lookup
a_record-IsDistinct = (refl, tt)

users-IsDistinct : (r : Record numbers) → lookup (ascii "a") users ≡ some r → IsDistinct r
unfolding lookup
users-IsDistinct r e =
    subst IsDistinct {x = (ascii "name", text (ascii "Alice")) ∷ []} (cc) (refl, tt)

join_operator-Joined_example :
    Joined numbers print (ascii "group") users a_record (b_record ∷ []) (ascii "name")
unfolding lookup
join_operator-Joined_example =
    join_operator-Joined numbers print (ascii "group") users a_record (b_record ∷ []) (ascii "name")
      a_record-IsDistinct users-IsDistinct

abbrev sum_of_x : AggSpec
sum_of_x = record { func = ascii "sum"; field = ascii "x"; alias = [] }

abbrev events : List (Event numbers)
events = arrives a_record ∷ ticks ∷ ticks ∷ arrives b_record ∷ []

time_window_operator-batches_example :
    time_window_operator numbers print (ascii "group") (sum_of_x ∷ []) events
    ≡ concat (
        map
          (batch numbers print (ascii "group") (sum_of_x ∷ []))
          ((a_record ∷ []) ∷ [] ∷ (b_record ∷ []) ∷ []))
time_window_operator-batches_example =
    time_window_operator-batches numbers print (ascii "group") (sum_of_x ∷ []) events
