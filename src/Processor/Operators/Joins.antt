-- ===== src/Processor/Operators/Joins.antt =====
-- A joined record has the fields of the record on the right, and behind them those on the left.
use stream_flow.Prelude.{
  ◌≡◌, refl, ap, ◌∙◌, Option, none, some, [], ◌∷◌, Bytes, bytes_key, same_bytes_iff, arith,
  Option-cases, inl, inr,
}
use stream_flow.Dict.{Dict, lookup, insert, IsDistinct}
use stream_flow.Dict.Laws.{lookup-insert}
use stream_flow.Processor.Values.{Floats, Record, Stream, Printer, field_text, or_blank}
use stream_flow.Processor.Operators.{map_operator, merge, join_operator}

abbrev pub or_else {ℓ} : {A : Type ℓ} → Option A → Option A → Option A
or_else none b = b
or_else (some a) b = some a

or_else-none {ℓ} : {A : Type ℓ} (a : Option A) → or_else a none ≡ a
or_else-none none = refl
or_else-none (some a) = refl

module _ (w : Floats) where
  lookup-merge :
      (k : Bytes) (m r : Record w)
      → IsDistinct r
      → lookup k (merge w m r) ≡ or_else (lookup k r) (lookup k m)
  unfolding merge lookup
  lookup-merge k m [] d = refl
  lookup-merge k m ((j, v) ∷ r) d = ground (
    arith,
    lookup-merge k (insert j v m) r d.1,
    lookup-insert j k v m,
    same_bytes_iff j k,
    ap (λ (x : Bytes). lookup x r),
  )

  module _ (print : Printer w) (left_key : Bytes) (right_map : Dict Bytes (Record w)) where
    -- The text by which a record on the left is joined, empty if it has no such field.
    abbrev pub join_text : Record w → Bytes
    join_text l = or_blank (field_text w print left_key l)

    abbrev join : Stream w → Stream w
    join = join_operator w print left_key right_map

    -- What a record on the left gives, in front of what `rest` gives: nothing, or a record that
    -- holds `v` for `k`.
    pub data Joined (l : Record w) (rest : Stream w) (k : Bytes) : Type 0 where
      unmatched :
          lookup (join_text l) right_map ≡ none → join (l ∷ rest) ≡ join rest → Joined l rest k
      matched :
          (r m : Record w)
          → lookup (join_text l) right_map ≡ some r
          → join (l ∷ rest) ≡ m ∷ join rest
          → lookup k m ≡ or_else (lookup k r) (lookup k l)
          → Joined l rest k

    -- When no field stands twice in the records, a record on the left whose text has no match is
    -- left out, and any other gives one record in which a field has the value of the matching
    -- record, or its own where that has none.
    pub join_operator-Joined :
        (l : Record w) (rest : Stream w) (k : Bytes)
        → IsDistinct l
        → ((r : Record w) → lookup (join_text l) right_map ≡ some r → IsDistinct r)
        → Joined l rest k
    unfolding join_operator map_operator lookup
    join_operator-Joined l rest k d all = elim (Option-cases (lookup (join_text l) right_map)) [
      | inl missing ↦ unmatched missing (rw (missing, map_operator) refl)
      | inr (r, found) ↦
          matched r (merge w (merge w [] l) r) found (rw (found, map_operator) refl) (
            lookup-merge k (merge w [] l) r (all r found)
            ∙ ap (or_else (lookup k r)) (lookup-merge k [] l d ∙ or_else-none (lookup k l)))
    ]
