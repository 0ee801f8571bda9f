-- ===== src/Broker/SparseIndex.antt =====
-- broker/sparse_index_mmap.go: an index of offsets and positions in a file of fixed size that is
-- mapped into memory, so that what is written in the one is in the other.
pub mod Memory
pub mod Reopening
use stream_flow.Prelude.{
  ℕ, zero, suc, ◌+◌, ◌-◌, ◌*◌, Bool, true, false, ◌&&◌, Option, none, some, List, [], ◌∷◌, ◌++◌,
  Bytes, length, take, drop, replicate, ltb, ◌==◌, if◌then◌else◌,
}
use stream_flow.Prelude.Action.{Result, ok, err}
use stream_flow.Int64.{is_not_positive}
use stream_flow.Segment.Index.{encode_entry, first_field, second_field}

pub record SparseMmapIndex : Type 0 where
  pub memory : Bytes
  pub entries : ℕ

pub data Step : Type 0 where
  open_file truncate map_file : Step

pub data Error : Type 0 where
  not_opened index_full : Error

abbrev pub offset_at : ℕ → Bytes → ℕ
offset_at i memory = first_field (drop (16 * i) memory)

abbrev pub position_at : ℕ → Bytes → ℕ
position_at i memory = second_field (drop (16 * i) memory)

abbrev pub resize : ℕ → Bytes → Bytes
resize size file = take size (file ++ replicate (size - length file) 0)

-- At most `left` more entries, up to one that is zero twice.
unfoldable pub count_entries : ℕ → ℕ → Bytes → ℕ
count_entries zero i memory = i
count_entries (suc left) i memory =
    let rest = count_entries left (suc i) memory in
    if offset_at i memory == 0 && position_at i memory == 0 then i else rest

abbrev pub capacity_or_default : ℕ → ℕ
capacity_or_default max_entries = if is_not_positive max_entries then 1024 else max_entries

-- `OpenSparseMMapIndex`: the file after it, and the index. `max_entries * 16` does not overflow.
unfoldable pub open_sparse_index : (Step → Bool) → Bytes → ℕ → Bytes × Result Error SparseMmapIndex
unfolding count_entries
open_sparse_index fails file max_entries =
    let max = capacity_or_default max_entries in
    let memory = resize (max * 16) file in
    if fails open_file
    then (file, err not_opened)
    else if fails truncate
    then (file, err not_opened)
    else if fails map_file
    then (memory, err not_opened)
    else (memory, ok (record { memory = memory; entries = count_entries max 0 memory }))

unfoldable pub append_entry : ℕ × ℕ → SparseMmapIndex → SparseMmapIndex × Result Error (Unit {0})
append_entry x s =
    let base = s.entries * 16 in
    if ltb (length s.memory) (base + 16) then (s, err index_full) else (
      record {
        memory = take base s.memory ++ (encode_entry x ++ drop (base + 16) s.memory);
        entries = s.entries + 1;
      },
      ok tt,
    )

unfoldable pub find_loop : ℕ → ℕ → ℕ → Bytes → Option ℕ
find_loop zero i offset memory = none
find_loop (suc left) i offset memory =
    let rest = find_loop left (suc i) offset memory in
    if offset_at i memory == offset then some (position_at i memory) else rest

unfoldable pub find : ℕ → SparseMmapIndex → Option ℕ
unfolding find_loop
find offset s = find_loop s.entries 0 offset s.memory
