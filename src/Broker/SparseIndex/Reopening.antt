-- ===== src/Broker/SparseIndex/Reopening.antt =====
-- After the index is opened again it holds the entries before the first one that is zero twice.
use stream_flow.Prelude.{
  ℕ, zero, suc, ◌+◌, ◌-◌, ◌*◌, ◌^◌, ◌≤◌, ◌<◌, ◌≡◌, inl, inr, refl, sym, ap, ◌∙◌, false, ◌&&◌, List,
  [], ◌∷◌, ◌++◌, Bytes, length, take, drop, replicate, ◌==◌, All, number_key, arith, Bool-cases,
  length-append, take_all, drop-append_length, if◌then◌else◌,
}
use stream_flow.Prelude.Action.{ok}
use mathlib.Core.List.{append_assoc, append-nil}
use stream_flow.Dict.{lookup}
use stream_flow.Int64.{get_bytes, bytes_to_int64}
use stream_flow.Segment.Index.{encode_entry, encode_entries, first_field, second_field}
use stream_flow.Segment.Index.Laws.{IsEntry}
use stream_flow.Broker.SparseIndex.{
  SparseMmapIndex, offset_at, position_at, resize, count_entries, capacity_or_default,
  open_sparse_index, find,
}
use stream_flow.Broker.SparseIndex.Memory.{
  Holds, From, next_entry, offset_here, position_here, length-encode_entries, find-Holds,
}

-- The entries in front of the first that is zero twice.
abbrev pub until_zero : List (ℕ × ℕ) → List (ℕ × ℕ)
until_zero [] = []
until_zero ((a, b) ∷ es) = if a == 0 && b == 0 then [] else (a, b) ∷ until_zero es

module _ (memory room : Bytes) where
  count_entries-until_zero :
      (left i : ℕ) (es : List (ℕ × ℕ))
      → From memory room i es
      → All IsEntry es
      → length es ≤ left
      → (length es < left
          → (offset_at (i + length es) memory ≡ 0) × (position_at (i + length es) memory ≡ 0))
      → count_entries left i memory ≡ i + length (until_zero es)
  unfolding count_entries
  count_entries-until_zero zero i [] h v l z = omega arith
  count_entries-until_zero zero i (x ∷ es) h v l z = absurd (omega arith)
  count_entries-until_zero (suc left) i [] h v l z =
      let same : i + 0 ≡ i = omega arith in
      let zeros = z (omega arith) in ground (arith, zeros, same)
  count_entries-until_zero (suc left) i ((a, b) ∷ es) h v l z =
      let o = offset_here memory room i (a, b) es h v.0 in
      let p = position_here memory room i (a, b) es h v.0 in
      let more : suc i + length es ≡ i + suc (length es) = omega arith in
      let ih =
        count_entries-until_zero left (suc i) es (next_entry memory room i (a, b) es h v.0) v.1
          (omega arith) (rw more (λ k. z (omega arith))) in
      elim (Bool-cases (a == 0 && b == 0)) [
        | inl stop ↦ rw (o, p, stop) (omega arith)
        | inr going ↦ rw (o, p, going) (omega (arith, ih))
      ]

-- Zeros are read as zeros.
abbrev pub zeros : ℕ → Bytes
zeros n = replicate n 0

take-replicate : (j n : ℕ) → (k : ℕ) × (take j (zeros n) ≡ zeros k)
take-replicate zero n = (0, refl)
take-replicate (suc j) zero = (0, refl)
take-replicate (suc j) (suc n) = let (k, e) = take-replicate j n in (suc k, ap (λ l. 0 ∷ l) e)

drop-replicate : (j n : ℕ) → (k : ℕ) × (drop j (zeros n) ≡ zeros k)
drop-replicate zero n = (n, refl)
drop-replicate (suc j) zero = (0, refl)
drop-replicate (suc j) (suc n) = drop-replicate j n

get_bytes-zeros : (n k : ℕ) → get_bytes n 0 (zeros k) ≡ 0
unfolding get_bytes
get_bytes-zeros zero k = refl
get_bytes-zeros (suc n) zero = refl
get_bytes-zeros (suc n) (suc k) = get_bytes-zeros n k

fields-zeros : (n : ℕ) → (first_field (zeros n) ≡ 0) × (second_field (zeros n) ≡ 0)
unfolding bytes_to_int64
fields-zeros n =
    let (k, e) = take-replicate 8 n in
    let (m, d) = drop-replicate 8 n in
    let (j, f) = take-replicate 8 m in
    (
      ap (get_bytes 8 0) e ∙ get_bytes-zeros 8 k,
      ap (λ l. get_bytes 8 0 (take 8 l)) d ∙ ap (get_bytes 8 0) f ∙ get_bytes-zeros 8 j,
    )

-- The entries in front of a zero one are the beginning of the encoding.
encode-until_zero :
    (es : List (ℕ × ℕ)) (room : Bytes)
    → (rest : Bytes) × (encode_entries es ++ room ≡ encode_entries (until_zero es) ++ rest)
unfolding encode_entries
encode-until_zero [] room = (room, refl)
encode-until_zero ((a, b) ∷ es) room = elim (Bool-cases (a == 0 && b == 0)) [
  | inl stop ↦ (encode_entries ((a, b) ∷ es) ++ room, rw stop refl)
  | inr going ↦
      let (rest, e) = encode-until_zero es room in
      (
        rest,
        rw going (
            append_assoc (encode_entry (a, b)) (encode_entries es) room
            ∙ ap (λ l. encode_entry (a, b) ++ l) e
            ∙ sym (append_assoc (encode_entry (a, b)) (encode_entries (until_zero es)) rest)),
      )
]

until_zero-All : (es : List (ℕ × ℕ)) → All IsEntry es → All IsEntry (until_zero es)
until_zero-All [] v = tt
until_zero-All ((a, b) ∷ es) v = elim (Bool-cases (a == 0 && b == 0)) [
  | inl stop ↦ rw stop tt
  | inr going ↦ rw going (v.0, until_zero-All es v.1)
]

module _ (s : SparseMmapIndex) (es : List (ℕ × ℕ)) (n max : ℕ) (h : Holds s es (zeros n))
    (size : length s.memory ≡ 16 * max) (positive : 0 < max) (bound : max < 2 ^ 63) where
  resized : resize (max * 16) s.memory ≡ s.memory
  resized =
      let none_left : max * 16 - length s.memory ≡ 0 = omega arith in
      ap (λ k. take (max * 16) (s.memory ++ zeros k)) none_left
      ∙ ap (take (max * 16)) (append-nil s.memory)
      ∙ take_all (max * 16) s.memory (omega arith)

  zeros_behind : drop (16 * length es) s.memory ≡ zeros n
  zeros_behind =
      ap (drop (16 * length es)) h.memory
      ∙ drop-append_length (16 * length es) (encode_entries es) (zeros n)
          (sym (length-encode_entries es h.valid))

  fits : length es ≤ max
  fits = omega (
    arith,
    ap length h.memory,
    length-append (encode_entries es) (zeros n),
    length-encode_entries es h.valid,
  )

  counted : count_entries max 0 s.memory ≡ length (until_zero es)
  counted =
      let start : 0 + length es ≡ length es = omega arith in
      let all : 0 + length (until_zero es) ≡ length (until_zero es) = omega arith in
      count_entries-until_zero s.memory (zeros n) max 0 es h.memory h.valid fits (λ less. rw start (
        ap first_field zeros_behind ∙ (fields-zeros n).0,
        ap second_field zeros_behind ∙ (fields-zeros n).1,
      ))
      ∙ all

  abbrev pub reopened : SparseMmapIndex
  reopened = record { memory = s.memory; entries = length (until_zero es) }

  reopened-Holds : (rest : Bytes) × Holds reopened (until_zero es) rest
  reopened-Holds =
      let (rest, e) = encode-until_zero es (zeros n) in
      (rest, record { memory = h.memory ∙ e; entries = refl; valid = until_zero-All es h.valid })

  -- Opening again the file of a sparse index that holds a list of entries and zeros behind them,
  -- with the size that it has, gives an index that finds just what stands in front of the first
  -- entry that is zero twice.
  pub open_sparse_index-until_zero :
      (offset : ℕ)
      → (open_sparse_index (λ step. false) s.memory max ≡ (s.memory, ok reopened))
        × (find offset reopened ≡ lookup offset (until_zero es))
  unfolding open_sparse_index
  open_sparse_index-until_zero offset =
      let (rest, t) = reopened-Holds in
      let limit : capacity_or_default max ≡ max = ground arith in
      (rw (limit, resized, counted) refl, find-Holds reopened (until_zero es) rest offset t)
