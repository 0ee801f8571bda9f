-- ===== src/Segment/Range.antt =====
-- `ReadRange` reads the offsets from a given one on, in ascending order, up to the limit.
use stream_flow.Prelude.{
  ℕ, zero, suc, ◌-◌, ◌≡◌, refl, sym, ap, ◌∙◌, ◌&&◌, not, List, [], ◌∷◌, ◌++◌, length, take, arith,
  leb, number_key, length-append, Bool-cases, inl, inr, not-leb→lt, leb→le, ◌<◌,
}
use stream_flow.Prelude.Action.{Result, ok, err, Result-cases}
use mathlib.Core.List.{append-nil, append_assoc}
use stream_flow.Dict.{lookup, keys, contains}
use stream_flow.Dict.Laws.{is_present, contains-keys}
use stream_flow.Int64.{less}
use stream_flow.Sort.{sort, IsSorted}
use stream_flow.Sort.Laws.{sort-IsSorted, contains-sort, less_int64-Order}
use stream_flow.Segment.{Segment, Error}
use stream_flow.Segment.Read.{
  ◌>>=◌, read_by_offset, read_loop, read_range, keys_from, default_limit,
}
use stream_flow.Segment.Record.{LogRecord, Json}

contains-keys_from :
    (k from : ℕ) (ks : List ℕ)
    → contains k (keys_from from ks) ≡ (not (less k from) && contains k ks)
unfolding contains keys_from
contains-keys_from k from [] = ground arith
contains-keys_from k from (j ∷ ks) = ground (arith, contains-keys_from k from ks)

module _ (json : Json) (s : Segment) where
  -- All the records at the listed offsets, or the first error.
  unfoldable pub read_all : List ℕ → Result Error (List LogRecord)
  read_all [] = ok []
  read_all (k ∷ ks) = do r ← read_by_offset json s k; rs ← read_all ks; ok (r ∷ rs)

  -- One more record in front of what was collected.
  finish-prepend :
      (result : List LogRecord) (r : LogRecord) (m : Result Error (List LogRecord))
      → ((m >>= λ rs. ok (r ∷ rs)) >>= λ rs. ok (result ++ rs))
        ≡ (m >>= λ rs. ok ((result ++ (r ∷ [])) ++ rs))
  finish-prepend result r (ok rs) = ap ok (sym (append_assoc result (r ∷ []) rs))
  finish-prepend result r (err e) = refl

  take_one_more :
      (max : ℕ) (result : List LogRecord) (r : LogRecord) (k : ℕ) (ks : List ℕ)
      → length result < max
      → take (max - length result) (k ∷ ks) ≡ k ∷ take (max - length (result ++ (r ∷ []))) ks
  take_one_more max result r k ks h =
      let e : max - length result ≡ suc (max - length (result ++ (r ∷ []))) =
        omega (arith, length-append result (r ∷ [])) in
      rw e

  read_loop-read_all :
      (max : ℕ) (result : List LogRecord) (ks : List ℕ)
      → read_loop json s max result ks
        ≡ (read_all (take (max - length result) ks) >>= λ rs. ok (result ++ rs))
  unfolding read_loop read_all
  read_loop-read_all max result [] = nothing (max - length result)
    where
      nothing : (n : ℕ) → ok result ≡ (read_all (take n []) >>= λ rs. ok (result ++ rs))
      nothing zero = rw append-nil
      nothing (suc n) = rw append-nil
  read_loop-read_all max result (k ∷ ks) = elim (Bool-cases (leb max (length result))) [
    | inl full ↦
        let e : max - length result ≡ 0 = omega (arith, leb→le max (length result) full) in
        rw (full, e, append-nil)
    | inr room ↦ elim (Result-cases (read_by_offset json s k)) [
      | inl (r, found) ↦
          rw
            (
              room,
              found,
              take_one_more max result r k ks (not-leb→lt max (length result) room),
              found,
            )
            (read_loop-read_all max (result ++ (r ∷ [])) ks
              ∙ sym (
                  finish-prepend result r (read_all (take (max - length (result ++ (r ∷ []))) ks))))
      | inr (e, failed) ↦
          let n : max - length result ≡ suc (max - length result - 1) =
            omega (arith, not-leb→lt max (length result) room) in
          rw (room, failed, n, failed)
    ]
  ]

  finish_empty : (m : Result Error (List LogRecord)) → (m >>= λ rs. ok ([] ++ rs)) ≡ m
  finish_empty (ok rs) = refl
  finish_empty (err e) = refl

  pub read_range-read_all :
      (from max : ℕ)
      → read_range json s from max
        ≡ read_all (take (default_limit max) (sort less (keys_from from (keys s.offsets))))
  unfolding read_range
  read_range-read_all from max =
      let ks = sort less (keys_from from (keys s.offsets)) in
      let n : default_limit max - 0 ≡ default_limit max = omega arith in
      read_loop-read_all (default_limit max) [] ks
      ∙ ap (λ m. read_all (take m ks) >>= λ rs. ok ([] ++ rs)) n
      ∙ finish_empty (read_all (take (default_limit max) ks))

  -- There is a sorted list of just the indexed offsets from the given one on, and reading a range
  -- reads the records at its first elements, as many as the limit allows, or returns the first
  -- error.
  pub read_range-IsSorted :
      (from max : ℕ)
      → (ks : List ℕ) × (read_range json s from max ≡ read_all (take (default_limit max) ks))
        × IsSorted less ks
        × ((k : ℕ) → contains k ks ≡ (not (less k from) && is_present (lookup k s.offsets)))
  read_range-IsSorted from max =
      let all = keys_from from (keys s.offsets) in
      (
        sort less all,
        read_range-read_all from max,
        sort-IsSorted less_int64-Order all,
        (λ k. ground (
          arith,
          contains-sort less k all,
          contains-keys_from k from (keys s.offsets),
          contains-keys k s.offsets,
        )),
      )
