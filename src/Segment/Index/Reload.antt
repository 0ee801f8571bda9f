-- ===== src/Segment/Index/Reload.antt =====
-- The index file that was persisted for a map, loaded into an empty one.
use stream_flow.Prelude.{
  ℕ, ◌-◌, ◌≤◌, ◌<◌, ◌^◌, ◌≡◌, ◌≢◌, ◌∙◌, true, some, List, [], ◌∷◌, length, All, arith, number_key,
}
use stream_flow.Dict.{Dict, lookup, IsDistinct}
use stream_flow.Int64.{IsInt64, less}
use stream_flow.Sort.{sort}
use stream_flow.Segment.Index.{less_entry, encode_entries, index_bytes, load_offsets, load_times}
use stream_flow.Segment.Index.Laws.{
  IsEntry, insert_all, next_past, next_all, load_offsets_loop-encode, load_times_loop-encode,
  length-encode_entries, lookup-insert_all, insert_all-IsDistinct, All-sort, lookup-sort,
  lookup-All,
}

module _ (m : Dict ℕ ℕ) (d : IsDistinct m) (h : All IsEntry m) where
  load_offsets_sorted :
      (next : ℕ)
      → load_offsets (index_bytes m) [] next
        ≡ (insert_all (sort less_entry m) [], next_all (sort less_entry m) next)
  unfolding load_offsets index_bytes
  load_offsets_sorted next =
      let entries = All-sort IsEntry m h in
      load_offsets_loop-encode (length (encode_entries (sort less_entry m))) (sort less_entry m) []
        next entries (length-encode_entries (sort less_entry m) entries)

  load_times_sorted : load_times (index_bytes m) [] ≡ insert_all (sort less_entry m) []
  unfolding load_times index_bytes
  load_times_sorted =
      let entries = All-sort IsEntry m h in
      load_times_loop-encode (length (encode_entries (sort less_entry m))) (sort less_entry m) []
        entries (length-encode_entries (sort less_entry m) entries)

  lookup-insert_sorted : (k : ℕ) → lookup k (insert_all (sort less_entry m) []) ≡ lookup k m
  unfolding lookup
  lookup-insert_sorted k =
      let (same, distinct) = lookup-sort m d in
      ground (arith, lookup-insert_all k (sort less_entry m) [] distinct, same k)

  -- Every key is found again, at its value.
  pub lookup-load_offsets :
      (next k : ℕ) → lookup k (load_offsets (index_bytes m) [] next).0 ≡ lookup k m
  lookup-load_offsets next k = rw (load_offsets_sorted next) (lookup-insert_sorted k)

  pub load_offsets-IsDistinct : (next : ℕ) → IsDistinct (load_offsets (index_bytes m) [] next).0
  load_offsets-IsDistinct next =
      rw (load_offsets_sorted next) (insert_all-IsDistinct (sort less_entry m) [] tt)

  pub lookup-load_times : (k : ℕ) → lookup k (load_times (index_bytes m) []) ≡ lookup k m
  lookup-load_times k = rw load_times_sorted (lookup-insert_sorted k)

  pub load_times-IsDistinct : IsDistinct (load_times (index_bytes m) [])
  load_times-IsDistinct = rw load_times_sorted (insert_all-IsDistinct (sort less_entry m) [] tt)

-- The largest int64 has no next one.
abbrev pub HasNext : ℕ × ℕ → Type 0
HasNext (k, v) = IsInt64 k × (k ≢ 2 ^ 63 - 1)

abbrev pub IsBefore : ℕ → ℕ × ℕ → Type 0
IsBefore next (k, v) = less k next ≡ true

next_all_grows :
    (xs : List (ℕ × ℕ)) (next : ℕ)
    → next < 2 ^ 63
    → All HasNext xs
    → (next ≤ next_all xs next) × (next_all xs next < 2 ^ 63) × All (IsBefore (next_all xs next)) xs
next_all_grows [] next small h = (omega arith, small, tt)
next_all_grows ((k, v) ∷ xs) next small h =
    let past = next_past_grows in
    let (grows, small', before) = next_all_grows xs (next_past k next) past.1 h.1 in
    (omega (arith, past.0), small', (ground (arith, past.2), before))
  where
    next_past_grows :
        (next ≤ next_past k next) × (next_past k next < 2 ^ 63) × (less k (next_past k next) ≡ true)
    next_past_grows = (ground (arith, h.0), ground (arith, h.0), ground (arith, h.0))

module _ (m : Dict ℕ ℕ) (d : IsDistinct m) (h : All IsEntry m) (hn : All HasNext m) where
  -- The next offset lies past every offset that was loaded.
  pub next-load_offsets :
      (load_offsets (index_bytes m) [] 0).1 < 2 ^ 63
      × ((k v : ℕ) → lookup k m ≡ some v → less k (load_offsets (index_bytes m) [] 0).1 ≡ true)
  next-load_offsets =
      let (_, small, before) =
        next_all_grows (sort less_entry m) 0 (omega arith) (All-sort HasNext m hn) in
      rw (load_offsets_sorted m d h 0) (
        small,
        (λ k v found.
            lookup-All (IsBefore (next_all (sort less_entry m) 0)) (sort less_entry m) k v before
              ((lookup-sort m d).0 k ∙ found)),
      )
