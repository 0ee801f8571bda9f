-- ===== src/Broker/SparseIndex/Memory.antt =====
-- The memory of the index begins with its entries; finding reads them, and appending adds one.
use stream_flow.Prelude.{
  ℕ, zero, suc, ◌+◌, ◌*◌, ◌≤◌, ◌<◌, ◌≡◌, inl, inr, refl, sym, ap, ◌∙◌, List, [], ◌∷◌, ◌++◌, Bytes,
  length, take, drop, ltb, All, All-append, number_key, arith, Bool-cases, ltb→lt, not-ltb→le,
  length-append, take-append_length, drop-append_length,
}
use stream_flow.Prelude.Action.{ok, err}
use mathlib.Core.List.{append_assoc, append-nil}
use stream_flow.Dict.{lookup}
use stream_flow.Segment.Index.{encode_entry, encode_entries, first_field, second_field}
use stream_flow.Segment.Index.Laws.{
  IsEntry, first_field-encode, second_field-encode, length-encode, drop-encode,
}
use stream_flow.Broker.SparseIndex.{
  SparseMmapIndex, index_full, offset_at, position_at, append_entry, find_loop, find,
}

drop_nil {ℓ} : {A : Type ℓ} (n : ℕ) → drop {A = A} n [] ≡ []
drop_nil zero = refl
drop_nil (suc n) = refl

drop-drop {ℓ} : {A : Type ℓ} (m n : ℕ) (xs : List A) → drop m (drop n xs) ≡ drop (n + m) xs
drop-drop m zero xs = ap (λ k. drop k xs) (omega arith)
drop-drop m (suc n) [] = drop_nil m ∙ sym (drop_nil (suc n + m))
drop-drop m (suc n) (x ∷ xs) =
    let e : suc (n + m) ≡ suc n + m = omega arith in drop-drop m n xs ∙ ap (λ k. drop k (x ∷ xs)) e

-- The memory begins with the entries.
pub record Holds (s : SparseMmapIndex) (es : List (ℕ × ℕ)) (room : Bytes) : Type 0 where
  pub memory : s.memory ≡ encode_entries es ++ room
  pub entries : s.entries ≡ length es
  pub valid : All IsEntry es

pub length-encode_entries :
    (es : List (ℕ × ℕ)) → All IsEntry es → length (encode_entries es) ≡ 16 * length es
unfolding encode_entries
length-encode_entries [] h = omega arith
length-encode_entries (x ∷ xs) h =
    omega (arith, length-encode x (encode_entries xs) h.0, length-encode_entries xs h.1)

module _ (memory room : Bytes) where
  -- From entry `i` on the memory holds these entries.
  abbrev pub From : ℕ → List (ℕ × ℕ) → Type 0
  From i es = drop (16 * i) memory ≡ encode_entries es ++ room

  module _ (i : ℕ) (x : ℕ × ℕ) (es : List (ℕ × ℕ)) (h : From i (x ∷ es)) (v : IsEntry x) where
    pub here : drop (16 * i) memory ≡ encode_entry x ++ (encode_entries es ++ room)
    unfolding encode_entries
    here = h ∙ append_assoc (encode_entry x) (encode_entries es) room

    pub next_entry : From (suc i) es
    next_entry =
        ap (λ k. drop k memory) (omega arith)
        ∙ sym (drop-drop 16 (16 * i) memory)
        ∙ ap (drop 16) here
        ∙ drop-encode x (encode_entries es ++ room) v

    pub offset_here : offset_at i memory ≡ x.0
    offset_here = ap first_field here ∙ first_field-encode x (encode_entries es ++ room) v

    pub position_here : position_at i memory ≡ x.1
    position_here = ap second_field here ∙ second_field-encode x (encode_entries es ++ room) v

  find_loop-lookup :
      (es : List (ℕ × ℕ)) (i offset : ℕ)
      → From i es
      → All IsEntry es
      → find_loop (length es) i offset memory ≡ lookup offset es
  unfolding find_loop lookup
  find_loop-lookup [] i offset h v = refl
  find_loop-lookup ((a, b) ∷ es) i offset h v =
      let ih = find_loop-lookup es (suc i) offset (next_entry i (a, b) es h v.0) v.1 in
      rw (offset_here i (a, b) es h v.0, position_here i (a, b) es h v.0, ih) refl

pub encode_entries-append :
    (es : List (ℕ × ℕ)) (x : ℕ × ℕ) (rest : Bytes)
    → encode_entries (es ++ (x ∷ [])) ++ rest ≡ encode_entries es ++ (encode_entry x ++ rest)
unfolding encode_entries
encode_entries-append [] x rest = ap (λ l. l ++ rest) (append-nil (encode_entry x))
encode_entries-append (y ∷ ys) x rest =
    append_assoc (encode_entry y) (encode_entries (ys ++ (x ∷ []))) rest
    ∙ ap (λ l. encode_entry y ++ l) (encode_entries-append ys x rest)
    ∙ sym (append_assoc (encode_entry y) (encode_entries ys) (encode_entry x ++ rest))

pub find-Holds :
    (s : SparseMmapIndex) (es : List (ℕ × ℕ)) (room : Bytes) (offset : ℕ)
    → Holds s es room
    → find offset s ≡ lookup offset es
unfolding find
find-Holds s es room offset h =
    ap (λ n. find_loop n 0 offset s.memory) h.entries
    ∙ find_loop-lookup s.memory room es 0 offset h.memory h.valid

-- How an append ends: with the entry behind the others, or refused for want of room.
pub data Appended (s : SparseMmapIndex) (es : List (ℕ × ℕ)) (room : Bytes) (x : ℕ × ℕ)
    : Type 0 where
  added :
      16 ≤ length room
      → (append_entry x s).1 ≡ ok tt
      → Holds (append_entry x s).0 (es ++ (x ∷ [])) (drop 16 room)
      → Appended s es room x
  full : length room < 16 → append_entry x s ≡ (s, err index_full) → Appended s es room x

module _ (s : SparseMmapIndex) (es : List (ℕ × ℕ)) (room : Bytes) (x : ℕ × ℕ) (h : Holds s es room)
    (v : IsEntry x) where
  size_here : length s.memory ≡ s.entries * 16 + length room
  size_here =
      ap length h.memory
      ∙ omega (
        arith,
        length-append (encode_entries es) room,
        length-encode_entries es h.valid,
        h.entries,
      )

  base_here : s.entries * 16 ≡ length (encode_entries es)
  base_here = omega (arith, length-encode_entries es h.valid, h.entries)

  front : take (s.entries * 16) s.memory ≡ encode_entries es
  front =
      ap (take (s.entries * 16)) h.memory
      ∙ take-append_length (s.entries * 16) (encode_entries es) room base_here

  behind : drop (s.entries * 16 + 16) s.memory ≡ drop 16 room
  behind =
      sym (drop-drop 16 (s.entries * 16) s.memory)
      ∙ ap (λ m. drop 16 (drop (s.entries * 16) m)) h.memory
      ∙ ap (drop 16) (drop-append_length (s.entries * 16) (encode_entries es) room base_here)

  longer : s.entries + 1 ≡ length (es ++ (x ∷ []))
  longer = omega (arith, h.entries, length-append es (x ∷ []))

  -- Appending an entry of two int64 to a sparse index that holds a list of entries adds it at the
  -- end of the list if there are sixteen bytes of room, and is refused and changes nothing
  -- otherwise.
  pub append_entry-Holds : Appended s es room x
  unfolding append_entry
  append_entry-Holds = elim (Bool-cases (ltb (length s.memory) (s.entries * 16 + 16))) [
    | inl small ↦
        full (omega (arith, size_here, ltb→lt (length s.memory) (s.entries * 16 + 16) small))
          (rw (small, append_entry) refl)
    | inr large ↦
        added (omega (arith, size_here, not-ltb→le (length s.memory) (s.entries * 16 + 16) large))
          (rw (large, append_entry) refl)
          (rw (large, append_entry)
            (record {
              memory =
                  ap (λ a. a ++ (encode_entry x ++ drop (s.entries * 16 + 16) s.memory)) front
                  ∙ ap (λ b. encode_entries es ++ (encode_entry x ++ b)) behind
                  ∙ sym (encode_entries-append es x (drop 16 room));
              entries = longer;
              valid = All-append IsEntry es (x ∷ []) h.valid (v, tt);
            }))
  ]
