-- ===== src/Raft/Wal/Files.antt =====
-- Which files of the directory are read as the log, and what removing files leaves.
use stream_flow.Prelude.{
  ℕ, ◌≡◌, inl, inr, refl, sym, ap, ◌∙◌, Bool, true, false, ◌&&◌, none, List, [], ◌∷◌, ◌++◌, Bytes,
  Bool-cases, filter, take, ascii, bytes_key, same_bytes, same_bytes_iff, arith, if◌then◌else◌,
}
use mathlib.Core.List.{append-nil}
use stream_flow.Prelude.Action.{ok}
use stream_flow.Dict.{lookup, insert, delete, keys, contains, IsDistinct}
use stream_flow.Dict.Laws.{is_present, contains-keys, same_refl, lookup-delete, delete-IsDistinct}
use stream_flow.Offload.Laws.{contains-filter}
use stream_flow.Raft.Wal.{
  wal_log, Dir, content, is_wal, is_snapshot, wal_names, scan_file, read_wal, remove_all, slice,
}
use stream_flow.Raft.Wal.Reads.{contents, contents-insert, read_files-contents}
use stream_flow.Raft.Wal.Appends.{slice_ok}
use stream_flow.Sort.{sort, place, less_bytes}
use stream_flow.Sort.Laws.{contains-place, contains-sort}

-- No name stands twice.
abbrev pub IsUnique : List Bytes → Type 0
IsUnique [] = Unit {0}
IsUnique (x ∷ xs) = (contains x xs ≡ false) × IsUnique xs

keys-IsUnique : (d : Dir) → IsDistinct d → IsUnique (keys d)
unfolding keys
keys-IsUnique [] h = tt
keys-IsUnique ((k, v) ∷ d) h = (contains-keys k d ∙ ap is_present h.0, keys-IsUnique d h.1)

filter-IsUnique : (p : Bytes → Bool) (l : List Bytes) → IsUnique l → IsUnique (filter p l)
filter-IsUnique p [] h = tt
filter-IsUnique p (x ∷ xs) h = ground (arith, contains-filter p x xs, h.0, filter-IsUnique p xs h.1)

place-IsUnique :
    (x : Bytes) (l : List Bytes)
    → contains x l ≡ false
    → IsUnique l
    → IsUnique (place less_bytes x l)
unfolding place contains
place-IsUnique x [] h u = (refl, tt)
place-IsUnique x (y ∷ ys) h u = elim (Bool-cases (less_bytes y x)) [
  | inl yes' ↦
      let inner : IsUnique (place less_bytes x ys) = place-IsUnique x ys (ground (arith, h)) u.1 in
      rw (yes', place)
        (
          contains-place less_bytes y x ys
              ∙ ground (arith, h, u.0, same_bytes_iff x y, same_bytes_iff y x),
          inner,
        )
  | inr no' ↦ rw (no', place) (h, u)
]

sort-IsUnique : (l : List Bytes) → IsUnique l → IsUnique (sort less_bytes l)
unfolding sort
sort-IsUnique [] h = tt
sort-IsUnique (x ∷ xs) h =
    place-IsUnique x (sort less_bytes xs) (contains-sort less_bytes x xs ∙ h.0)
      (sort-IsUnique xs h.1)

pub wal_names-IsUnique : (d : Dir) → IsDistinct d → IsUnique (wal_names d)
wal_names-IsUnique d h =
    sort-IsUnique (filter is_wal (keys d)) (filter-IsUnique is_wal (keys d) (keys-IsUnique d h))

pub contains-wal_names :
    (k : Bytes) (d : Dir) → contains k (wal_names d) ≡ (is_wal k && is_present (lookup k d))
contains-wal_names k d =
    contains-sort less_bytes k (filter is_wal (keys d))
    ∙ contains-filter is_wal k (keys d)
    ∙ ap (λ b. is_wal k && b) (contains-keys k d)

abbrev head : Bytes → ℕ
head [] = 0
head (c ∷ cs) = c

snapshot_head : (k : Bytes) → is_snapshot k ≡ true → head k ≡ b's'
snapshot_head [] h = absurd (ground (arith, h))
snapshot_head (c ∷ cs) h =
    ap head ((same_bytes_iff (take 9 (c ∷ cs)) (ascii "snapshot.")).0 (ground (arith, h)))

wal_head : (k : Bytes) → is_wal k ≡ true → head k ≡ b'w'
wal_head [] h = absurd (ground (arith, h, same_bytes_iff [] wal_log))
wal_head (c ∷ cs) h = elim (Bool-cases (same_bytes (c ∷ cs) wal_log)) [
  | inl yes' ↦ ap head ((same_bytes_iff (c ∷ cs) wal_log).0 yes')
  | inr no' ↦ ap head ((same_bytes_iff (take 4 (c ∷ cs)) (ascii "wal.")).0 (ground (arith, h, no')))
]

-- A name that is of the log is not of a snapshot.
pub is_wal-is_snapshot : (k : Bytes) → is_wal k ≡ true → is_snapshot k ≡ false
is_wal-is_snapshot k h = elim (Bool-cases (is_snapshot k)) [
  | inl yes' ↦ absurd (omega (arith, snapshot_head k yes', wal_head k h))
  | inr no' ↦ no'
]

contents-none :
    (d : Dir) (l : List Bytes)
    → ((k : Bytes) → contains k l ≡ true → scan_file (content (lookup k d)) ≡ [])
    → contents d l ≡ []
unfolding contains
contents-none d [] empty = refl
contents-none d (k ∷ l) empty =
    ap (λ x. x ++ contents d l) (empty k (ground (arith, same_refl k)))
    ∙ contents-none d l (λ j h. empty j (ground (arith, h)))

-- What is read of the log when all names but one hold no frames.
contents-one :
    (d : Dir) (name : Bytes) (l : List Bytes)
    → IsUnique l
    → contains name l ≡ true
    → ((k : Bytes)
        → contains k l ≡ true
        → same_bytes name k ≡ false
        → scan_file (content (lookup k d)) ≡ [])
    → contents d l ≡ scan_file (content (lookup name d))
unfolding contains
contents-one d name [] u here empty = absurd (cc)
contents-one d name (k ∷ l) u here empty = elim (Bool-cases (same_bytes name k)) [
  | inl yes' ↦
      let e : name ≡ k = (same_bytes_iff name k).0 yes' in
      ap (λ x. scan_file (content (lookup k d)) ++ x)
        (contents-none d l
          (λ j h. empty j (ground (arith, h)) (ground (arith, h, u.0, e, same_bytes_iff name j))))
      ∙ append-nil (scan_file (content (lookup k d)))
      ∙ ap (λ j. scan_file (content (lookup j d))) (sym e)
  | inr no' ↦
      ap (λ x. x ++ contents d l) (empty k (ground (arith, same_refl k)) no')
      ∙ contents-one d name l u.1
          (ground (arith, here, no', same_bytes_iff name k, same_bytes_iff k name))
          (λ j h. empty j (ground (arith, h)))
]

pub lookup-remove_all :
    (names : List Bytes) (k : Bytes) (d : Dir)
    → IsDistinct d
    → lookup k (remove_all (λ n. false) names d) ≡ (if contains k names then none else lookup k d)
unfolding remove_all contains
lookup-remove_all [] k d h = refl
lookup-remove_all (n ∷ ns) k d h =
    lookup-remove_all ns k (delete n d) (delete-IsDistinct n d h)
    ∙ ground (arith, lookup-delete n k d h)

pub remove_all-IsDistinct :
    (names : List Bytes) (d : Dir) → IsDistinct d → IsDistinct (remove_all (λ n. false) names d)
unfolding remove_all
remove_all-IsDistinct [] d h = h
remove_all-IsDistinct (n ∷ ns) d h = remove_all-IsDistinct ns (delete n d) (delete-IsDistinct n d h)

pub read_wal-contents : (d : Dir) → read_wal false (λ n. false) 0 d ≡ ok (contents d (wal_names d))
unfolding read_wal
read_wal-contents d =
    ap (slice 0) (read_files-contents d [] (wal_names d)) ∙ slice_ok 0 (contents d (wal_names d))

-- When one file of the log holds a frame and the others none, that is what is read.
pub read_wal-one :
    (d : Dir) (name b : Bytes)
    → IsDistinct d
    → is_wal name ≡ true
    → is_present (lookup name d) ≡ true
    → scan_file (content (lookup name d)) ≡ b
    → ((k : Bytes)
        → is_wal k ≡ true
        → same_bytes name k ≡ false
        → scan_file (content (lookup k d)) ≡ [])
    → read_wal false (λ n. false) 0 d ≡ ok b
read_wal-one d name b distinct fits there holds empty =
    read_wal-contents d
    ∙ ap (λ l. ok l)
        (contents-one d name (wal_names d) (wal_names-IsUnique d distinct)
            (contains-wal_names name d ∙ ground (arith, fits, there))
            (λ k h other. empty k (ground (arith, h, contains-wal_names k d)) other)
          ∙ holds)

filter-insert :
    (name file : Bytes) (d : Dir)
    → is_wal name ≡ false
    → filter is_wal (keys (insert name file d)) ≡ filter is_wal (keys d)
unfolding keys insert
filter-insert name file [] h = rw h refl
filter-insert name file ((k, v) ∷ d) h = elim (Bool-cases (same_bytes k name)) [
  | inl yes' ↦ rw (yes', (same_bytes_iff k name).0 yes', h) refl
  | inr no' ↦ rw no' (ap (λ l. if is_wal k then k ∷ l else l) (filter-insert name file d h))
]

-- Writing a file that is not of the log leaves what is read of it.
pub read_wal-insert :
    (name file : Bytes) (d : Dir)
    → is_wal name ≡ false
    → read_wal false (λ n. false) 0 (insert name file d) ≡ read_wal false (λ n. false) 0 d
read_wal-insert name file d h =
    read_wal-contents (insert name file d)
    ∙ ap (λ l. ok (contents (insert name file d) (sort less_bytes l))) (filter-insert name file d h)
    ∙ ap (λ l. ok l)
        (contents-insert name file d (wal_names d) (contains-wal_names name d ∙ ground (arith, h)))
    ∙ sym (read_wal-contents d)
