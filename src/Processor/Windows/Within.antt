-- ===== src/Processor/Windows/Within.antt =====
-- processor/advanced_streaming.go: `StreamJoinWithin`, the join of timed records whose times are
-- near, and the key texts of `ApplyLateDataPipeline`. How floats and other values compare is a
-- parameter; `none` says that comparing two values of an uncomparable type panics.
pub mod Distances
use stream_flow.Prelude.{
  ℕ, Bool, true, false, not, ◌==◌, Option, none, some, List, [], ◌∷◌, ◌++◌, Bytes, ascii, bytes_key,
  same_bytes, if◌then◌else◌,
}
use stream_flow.Prelude.Int.{ℤ, pos, negsuc, ltb_ℤ, ◌-ℤ◌}
use stream_flow.Dict.{Dict, lookup, insert}
use stream_flow.Processor.Values.{Floats, Value, Record, text, int, float, opaque, counts, groups}
use stream_flow.Processor.Windows.{TimedRecord, sub, min_duration}
use stream_flow.Time.{Time, Duration}

abbrev pub LateDataResult : Type 0
LateDataResult = Bytes × Bytes

-- The keys of the retraction and of the upsert.
unfoldable pub apply_late_data_pipeline : Bytes → LateDataResult
apply_late_data_pipeline primary_key =
    (primary_key ++ ascii ":retract", primary_key ++ ascii ":upsert")

-- `-d`, which leaves the least duration as it is.
abbrev pub negate : Duration → Duration
negate d = if ltb_ℤ min_duration d then pos 0 -ℤ d else d

-- `|delta| <= bound`, as it is computed.
unfoldable pub is_small : Duration → Duration → Bool
is_small bound delta = not (ltb_ℤ bound (if ltb_ℤ delta (pos 0) then negate delta else delta))

unfoldable pub is_near : Duration → Time → Time → Bool
unfolding is_small
is_near bound t u = is_small bound (sub t u)

module _ (w : Floats) (same_float : w.Float → w.Float → Bool)
    (same_opaque : w.Opaque → w.Opaque → Option Bool) where
  -- `==` of two interface values.
  unfoldable pub same_value : Value w → Value w → Option Bool
  same_value (text s) (text t) = some (same_bytes s t)
  same_value (int m) (int n) = some (m == n)
  same_value (float x) (float y) = some (same_float x y)
  same_value (opaque o) (opaque p) = same_opaque o p
  same_value (counts c) (counts d) = none
  same_value (groups g) (groups h) = none
  same_value a b = some false

  -- The fields of a record put into another under a prefix.
  unfoldable pub add_prefixed : Bytes → Record w → Record w → Record w
  add_prefixed prefix [] m = m
  add_prefixed prefix ((k, v) ∷ fields) m = add_prefixed prefix fields (insert (prefix ++ k) v m)

  abbrev pub joined_fields : Record w → Record w → Record w
  joined_fields l r = add_prefixed (ascii "right.") r (add_prefixed (ascii "left.") l [])

  -- The rounds over the records on the right.
  unfoldable pub join_right :
      Bytes → Duration → TimedRecord w → Value w → List (TimedRecord w) → Option (List (Record w))
  unfolding is_near same_value add_prefixed
  join_right key bound l lv [] = some []
  join_right key bound l lv (r ∷ rs) =
      let rest = join_right key bound l lv rs in
      elim (lookup key r.payload) [
        | none ↦ rest
        | some rv ↦ elim (same_value rv lv) [
          | none ↦ none
          | some false ↦ rest
          | some true ↦
              if is_near bound l.at_time r.at_time
              then elim rest [
                | none ↦ none
                | some out ↦ some (joined_fields l.payload r.payload ∷ out)
              ]
              else rest
        ]
      ]

  unfoldable pub stream_join_within :
      List (TimedRecord w) → List (TimedRecord w) → Bytes → Duration → Option (List (Record w))
  unfolding join_right
  stream_join_within [] right key bound = some []
  stream_join_within (l ∷ ls) right key bound =
      let rest = stream_join_within ls right key bound in
      elim (lookup key l.payload) [
        | none ↦ rest
        | some lv ↦ elim (join_right key bound l lv right) [
          | none ↦ none
          | some out ↦ elim rest [ none ↦ none | some more ↦ some (out ++ more) ]
        ]
      ]
