-- ===== src/Segment/Index/Laws.antt =====
-- Loading an index file gives back the map that was persisted.
use stream_flow.Prelude.{
  ℕ, zero, suc, ◌+◌, ◌≤◌, ◌≡◌, refl, ◌∙◌, none, some, List, [], ◌∷◌, ◌++◌, Bytes, length, drop, All,
  arith, not, number_key, if◌then◌else◌, ◌==◌, Bool-cases, inl, inr, le→leb,
}
use mathlib.Core.Path.{subst₂}
use stream_flow.Dict.{Dict, lookup, insert, IsDistinct}
use stream_flow.Dict.Laws.{lookup-insert, insert-IsDistinct}
use stream_flow.Sort.{sort, place}
use stream_flow.Int64.{IsInt64, less, add, int64_to_bytes}
use stream_flow.Int64.Encoding.{bytes_to_int64_to}
use stream_flow.Segment.Index.{
  less_entry, encode_entry, encode_entries, first_field, second_field, load_offsets_loop,
  load_times_loop,
}

-- The loops as folds over decoded entries.
abbrev pub insert_all : List (ℕ × ℕ) → Dict ℕ ℕ → Dict ℕ ℕ
insert_all [] m = m
insert_all ((k, v) ∷ xs) m = insert_all xs (insert k v m)

abbrev pub next_past : ℕ → ℕ → ℕ
next_past k next = if not (less k next) then add k 1 else next

abbrev pub next_all : List (ℕ × ℕ) → ℕ → ℕ
next_all [] next = next
next_all ((k, v) ∷ xs) next = next_all xs (next_past k next)

abbrev pub IsEntry : ℕ × ℕ → Type 0
IsEntry (k, v) = IsInt64 k × IsInt64 v

module _ (x : ℕ × ℕ) (rest : Bytes) (h : IsEntry x) where
  pub first_field-encode : first_field (encode_entry x ++ rest) ≡ x.0
  unfolding encode_entry int64_to_bytes
  first_field-encode = bytes_to_int64_to x.0 h.0

  pub second_field-encode : second_field (encode_entry x ++ rest) ≡ x.1
  unfolding encode_entry int64_to_bytes
  second_field-encode = bytes_to_int64_to x.1 h.1

  pub length-encode : length (encode_entry x ++ rest) ≡ 16 + length rest
  unfolding encode_entry int64_to_bytes
  length-encode = omega arith

  pub drop-encode : drop 16 (encode_entry x ++ rest) ≡ rest
  unfolding encode_entry int64_to_bytes
  drop-encode = refl

pub load_offsets_loop-encode :
    (fuel : ℕ) (xs : List (ℕ × ℕ)) (m : Dict ℕ ℕ) (next : ℕ)
    → All IsEntry xs
    → length xs ≤ fuel
    → load_offsets_loop fuel (encode_entries xs) m next ≡ (insert_all xs m, next_all xs next)
unfolding load_offsets_loop encode_entries
load_offsets_loop-encode zero [] m next h f = refl
load_offsets_loop-encode (suc fuel) [] m next h f = refl
load_offsets_loop-encode zero (x ∷ xs) m next h f = absurd (omega arith)
load_offsets_loop-encode (suc fuel) ((k, v) ∷ xs) m next h f =
    let rest = encode_entries xs in
    rw
      (
        first_field-encode (k, v) rest h.0,
        second_field-encode (k, v) rest h.0,
        drop-encode (k, v) rest h.0,
        le→leb 16 (length (encode_entry (k, v) ++ rest))
            (omega (arith, length-encode (k, v) rest h.0)),
      )
      (load_offsets_loop-encode fuel xs (insert k v m) (next_past k next) h.1 (omega arith))

pub load_times_loop-encode :
    (fuel : ℕ) (xs : List (ℕ × ℕ)) (m : Dict ℕ ℕ)
    → All IsEntry xs
    → length xs ≤ fuel
    → load_times_loop fuel (encode_entries xs) m ≡ insert_all xs m
unfolding load_times_loop encode_entries
load_times_loop-encode zero [] m h f = refl
load_times_loop-encode (suc fuel) [] m h f = refl
load_times_loop-encode zero (x ∷ xs) m h f = absurd (omega arith)
load_times_loop-encode (suc fuel) ((k, v) ∷ xs) m h f =
    let rest = encode_entries xs in
    rw
      (
        first_field-encode (k, v) rest h.0,
        second_field-encode (k, v) rest h.0,
        drop-encode (k, v) rest h.0,
        le→leb 16 (length (encode_entry (k, v) ++ rest))
            (omega (arith, length-encode (k, v) rest h.0)),
      )
      (load_times_loop-encode fuel xs (insert k v m) h.1 (omega arith))

-- Each entry takes bytes of the file, so its length is fuel enough.
pub length-encode_entries :
    (xs : List (ℕ × ℕ)) → All IsEntry xs → length xs ≤ length (encode_entries xs)
unfolding encode_entries
length-encode_entries [] h = omega arith
length-encode_entries (x ∷ xs) h =
    omega (arith, length-encode x (encode_entries xs) h.0, length-encode_entries xs h.1)

pub lookup-insert_all :
    (k : ℕ) (xs : List (ℕ × ℕ)) (m : Dict ℕ ℕ)
    → IsDistinct xs
    → lookup k (insert_all xs m) ≡ (elim (lookup k xs) [ none ↦ lookup k m | some v ↦ some v ])
unfolding lookup
lookup-insert_all k [] m d = refl
lookup-insert_all k ((j, v) ∷ xs) m d =
    ground (arith, lookup-insert_all k xs (insert j v m) d.1, lookup-insert j k v m)

pub insert_all-IsDistinct :
    (xs : List (ℕ × ℕ)) (m : Dict ℕ ℕ) → IsDistinct m → IsDistinct (insert_all xs m)
insert_all-IsDistinct [] m d = d
insert_all-IsDistinct ((j, v) ∷ xs) m d =
    insert_all-IsDistinct xs (insert j v m) (insert-IsDistinct j v m d)

-- What is listed under an entry holds of each, where it holds of each value that is looked up.
pub All-of-lookup :
    (P : ℕ × ℕ → Type 0) (m : Dict ℕ ℕ)
    → IsDistinct m
    → ((k v : ℕ) → lookup k m ≡ some v → P (k, v))
    → All P m
unfolding lookup
All-of-lookup P [] d f = tt
All-of-lookup P ((k, v) ∷ m) d f =
    (f k v (ground arith), All-of-lookup P m d.1 (λ j w h. f j w (ground (arith, d.0))))

All-place :
    (P : ℕ × ℕ → Type 0) (x : ℕ × ℕ) (m : Dict ℕ ℕ) → P x → All P m → All P (place less_entry x m)
unfolding place
All-place P x [] p h = (p, tt)
All-place P x (y ∷ m) p h = elim (Bool-cases (less_entry y x)) [
  | inl lt ↦ rw lt (h.0, All-place P x m p h.1)
  | inr ge ↦ rw ge (p, h)
]

pub All-sort : (P : ℕ × ℕ → Type 0) (m : Dict ℕ ℕ) → All P m → All P (sort less_entry m)
unfolding sort
All-sort P [] h = tt
All-sort P (x ∷ m) h = All-place P x (sort less_entry m) h.0 (All-sort P m h.1)

lookup-place :
    (k : ℕ) (x : ℕ × ℕ) (m : Dict ℕ ℕ)
    → lookup x.0 m ≡ none
    → lookup k (place less_entry x m) ≡ (if x.0 == k then some x.1 else lookup k m)
unfolding lookup place
lookup-place k x [] h = refl
lookup-place k (i, v) ((j, w) ∷ m) h = ground (arith, lookup-place k (i, v) m)

place-IsDistinct :
    (x : ℕ × ℕ) (m : Dict ℕ ℕ)
    → lookup x.0 m ≡ none
    → IsDistinct m
    → IsDistinct (place less_entry x m)
unfolding lookup place
place-IsDistinct x [] h d = (refl, tt)
place-IsDistinct (i, v) ((j, w) ∷ m) h d =
    ground (arith, place-IsDistinct (i, v) m, lookup-place j (i, v) m)

pub lookup-sort :
    (m : Dict ℕ ℕ)
    → IsDistinct m
    → ((k : ℕ) → lookup k (sort less_entry m) ≡ lookup k m) × IsDistinct (sort less_entry m)
unfolding lookup sort
lookup-sort [] d = ((λ k. refl), tt)
lookup-sort (x ∷ m) d =
    let (same, distinct) = lookup-sort m d.1 in
    let new = same x.0 ∙ d.0 in
    (
      (λ k. lookup-place k x (sort less_entry m) new ∙ rw (same k)),
      place-IsDistinct x (sort less_entry m) new distinct,
    )

-- And back.
pub lookup-All :
    (P : ℕ × ℕ → Type 0) (m : Dict ℕ ℕ) (k v : ℕ) → All P m → lookup k m ≡ some v → P (k, v)
unfolding lookup
lookup-All P [] k v h e = absurd (ground arith)
lookup-All P ((j, w) ∷ m) k v h e = elim (Bool-cases (j == k)) [
  | inl same ↦ subst₂ (λ a b. P (a, b)) (ground arith) (ground arith) h.0
  | inr other ↦ lookup-All P m k v h.1 (ground arith)
]
