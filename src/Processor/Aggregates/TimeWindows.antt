-- ===== src/Processor/Aggregates/TimeWindows.antt =====
-- A time window reports the records between two ticks as the operator over a whole stream does.
use stream_flow.Prelude.{
  ◌≡◌, refl, sym, ap, ◌∙◌, false, Option, none, some, List, [], ◌∷◌, ◌++◌, Bytes, concat, map,
  bytes_key, arith, Option-cases, inl, inr,
}
use mathlib.Core.List.{append-nil}
use stream_flow.Dict.{Dict, lookup, insert}
use stream_flow.Processor.Values.{
  Floats, Value, text, int, float, opaque, counts, groups, Record, Stream, Printer,
}
use stream_flow.Processor.Aggregates.{
  AggSpec, Tally, no_tally, is_nil, open_group, add_alias, add_value, alias_of, tally_spec,
  tally_specs, tally_record, tally_loop, aggregate_funcs_operator, Event, arrives, ticks, flush,
  time_loop, time_window_operator,
}

is_nil-insert {κ} :
    {V : Type κ} (k : Bytes) (v : V) (m : Dict Bytes V) → is_nil (insert k v m) ≡ false
unfolding insert
is_nil-insert k v [] = refl
is_nil-insert k v ((j, u) ∷ m) = ground arith

found-is_nil {κ} :
    {V : Type κ} (k : Bytes) (v : V) (m : Dict Bytes V) → lookup k m ≡ some v → is_nil m ≡ false
unfolding lookup
found-is_nil k v [] e = cc
found-is_nil k v (x ∷ m) e = refl

module _ (w : Floats) where
  add_value-sums :
      (g alias : Bytes) (o : Option (Value w)) (t : Tally w)
      → is_nil t.sums ≡ false
      → is_nil (add_value w g alias o t).sums ≡ false
  unfolding add_alias
  add_value-sums g alias none t h = h
  add_value-sums g alias (some (int n)) t h = is_nil-insert g _ t.sums
  add_value-sums g alias (some (float x)) t h = is_nil-insert g _ t.sums
  add_value-sums g alias (some (text s)) t h = h
  add_value-sums g alias (some (opaque o)) t h = h
  add_value-sums g alias (some (counts c)) t h = h
  add_value-sums g alias (some (groups gs)) t h = h

  tally_spec-sums :
      (g : Bytes) (r : Record w) (spec : AggSpec) (t : Tally w)
      → is_nil t.sums ≡ false
      → is_nil (tally_spec w g r spec t).sums ≡ false
  unfolding tally_spec
  tally_spec-sums g r spec t h =
      ground (arith, add_value-sums g (alias_of spec) (lookup spec.field r) t)

  tally_specs-sums :
      (g : Bytes) (r : Record w) (specs : List AggSpec) (t : Tally w)
      → is_nil t.sums ≡ false
      → is_nil (tally_specs w g r specs t).sums ≡ false
  unfolding tally_specs
  tally_specs-sums g r [] t h = h
  tally_specs-sums g r (spec ∷ specs) t h =
      tally_specs-sums g r specs (tally_spec w g r spec t) (tally_spec-sums g r spec t h)

  open_group-sums : (g : Bytes) (t : Tally w) → is_nil (open_group w g t).sums ≡ false
  unfolding open_group
  open_group-sums g t = elim (Option-cases (lookup g t.sums)) [
    | inl fresh ↦ rw (fresh, open_group) (is_nil-insert g [] t.sums)
    | inr (s, found) ↦ rw (found, open_group) (found-is_nil g s t.sums found)
  ]

  module _ (print : Printer w) (key : Bytes) (specs : List AggSpec) where
    -- What is reported of the records between two ticks: nothing if there are none.
    abbrev pub batch : Stream w → Stream w
    batch [] = []
    batch (r ∷ rs) = aggregate_funcs_operator w print key specs (r ∷ rs)

    -- The records between ticks, those before the first with `current` in front of them.
    abbrev pub batches : Stream w → List (Event w) → List (Stream w)
    batches current [] = current ∷ []
    batches current (arrives r ∷ es) = batches (current ++ (r ∷ [])) es
    batches current (ticks ∷ es) = current ∷ batches [] es

    tally_record-sums :
        (r : Record w) (t : Tally w) → is_nil (tally_record w print key specs r t).sums ≡ false
    unfolding tally_record
    tally_record-sums r t = tally_specs-sums _ r specs _ (open_group-sums _ t)

    tally_loop-sums :
        (rs : Stream w) (t : Tally w)
        → is_nil t.sums ≡ false
        → is_nil (tally_loop w print key specs t rs).sums ≡ false
    unfolding tally_loop
    tally_loop-sums [] t h = h
    tally_loop-sums (r ∷ rs) t h =
        tally_loop-sums rs (tally_record w print key specs r t) (tally_record-sums r t)

    flush-batch :
        (rs : Stream w)
        → flush w print key specs (tally_loop w print key specs (no_tally w) rs) ≡ batch rs
    unfolding flush tally_loop aggregate_funcs_operator
    flush-batch [] = refl
    flush-batch (r ∷ rs) =
        let some_sums =
          tally_loop-sums rs (tally_record w print key specs r (no_tally w))
            (tally_record-sums r (no_tally w)) in
        rw some_sums refl

    tally_loop-append :
        (t : Tally w) (rs : Stream w) (r : Record w)
        → tally_loop w print key specs t (rs ++ (r ∷ []))
          ≡ tally_record w print key specs r (tally_loop w print key specs t rs)
    unfolding tally_loop
    tally_loop-append t [] r = refl
    tally_loop-append t (x ∷ xs) r = tally_loop-append (tally_record w print key specs x t) xs r

    time_loop-batches :
        (current : Stream w) (es : List (Event w))
        → time_loop w print key specs (tally_loop w print key specs (no_tally w) current) es
          ≡ concat (map batch (batches current es))
    unfolding time_loop tally_loop
    time_loop-batches current [] = flush-batch current ∙ sym (append-nil (batch current))
    time_loop-batches current (arrives r ∷ es) =
        ap (λ t. time_loop w print key specs t es) (sym (tally_loop-append (no_tally w) current r))
        ∙ time_loop-batches (current ++ (r ∷ [])) es
    time_loop-batches current (ticks ∷ es) =
        ap (λ l. l ++ time_loop w print key specs (no_tally w) es) (flush-batch current)
        ∙ ap (λ l. batch current ++ l) (time_loop-batches [] es)

    -- A time window reports, for the records between two ticks and after the last one, what the
    -- operator over a whole stream reports for just these records, in their order, and nothing
    -- where there are none.
    pub time_window_operator-batches :
        (es : List (Event w))
        → time_window_operator w print key specs es ≡ concat (map batch (batches [] es))
    unfolding time_window_operator tally_loop
    time_window_operator-batches es = time_loop-batches [] es
