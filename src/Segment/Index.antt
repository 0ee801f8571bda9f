-- ===== src/Segment/Index.antt =====
-- broker/types.go: the index files, sorted entries of sixteen bytes each.
pub mod Laws
pub mod Reload
use stream_flow.Prelude.{
  ℕ, zero, suc, ◌+◌, Bool, List, [], ◌∷◌, ◌++◌, Bytes, length, take, drop, leb, not, number_key,
  if◌then◌else◌,
}
use stream_flow.Dict.{Dict, insert}
use stream_flow.Sort.{sort}
use stream_flow.Int64.{less, add, int64_to_bytes, bytes_to_int64}

abbrev pub less_entry : ℕ × ℕ → ℕ × ℕ → Bool
less_entry a b = less a.0 b.0

-- `encodeIndexEntry` and `encodeTimeEntry`, which write their two int64 fields in order.
unfoldable pub encode_entry : ℕ × ℕ → Bytes
encode_entry (a, b) = int64_to_bytes a ++ int64_to_bytes b

unfoldable pub encode_entries : List (ℕ × ℕ) → Bytes
unfolding encode_entry
encode_entries [] = []
encode_entries (x ∷ xs) = encode_entry x ++ encode_entries xs

-- What `persistIndexes` writes for a map.
unfoldable pub index_bytes : Dict ℕ ℕ → Bytes
unfolding encode_entries
index_bytes m = encode_entries (sort less_entry m)

abbrev pub first_field : Bytes → ℕ
first_field bs = bytes_to_int64 (take 8 bs)

abbrev pub second_field : Bytes → ℕ
second_field bs = bytes_to_int64 (take 8 (drop 8 bs))

-- The rounds of `for i := 0; i+16 <= len(data); i += 16` on what is left of the data, with the map
-- and the next offset.
unfoldable pub load_offsets_loop : ℕ → Bytes → Dict ℕ ℕ → ℕ → Dict ℕ ℕ × ℕ
load_offsets_loop zero bs m next = (m, next)
load_offsets_loop (suc fuel) bs m next =
    let off = first_field bs in
    let next' : ℕ = if not (less off next) then add off 1 else next in
    let rest = load_offsets_loop fuel (drop 16 bs) (insert off (second_field bs) m) next' in
    if leb 16 (length bs) then rest else (m, next)

-- Each round takes sixteen bytes, so the length is fuel enough.
unfoldable pub load_offsets : Bytes → Dict ℕ ℕ → ℕ → Dict ℕ ℕ × ℕ
unfolding load_offsets_loop
load_offsets bs m next = load_offsets_loop (length bs) bs m next

unfoldable pub load_times_loop : ℕ → Bytes → Dict ℕ ℕ → Dict ℕ ℕ
load_times_loop zero bs m = m
load_times_loop (suc fuel) bs m =
    let rest = load_times_loop fuel (drop 16 bs) (insert (first_field bs) (second_field bs) m) in
    if leb 16 (length bs) then rest else m

unfoldable pub load_times : Bytes → Dict ℕ ℕ → Dict ℕ ℕ
unfolding load_times_loop
load_times bs m = load_times_loop (length bs) bs m
