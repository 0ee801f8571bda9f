-- ===== src/Raft/Node/Loop/Compacts.antt =====
-- The compaction that follows a snapshot leaves what is read of the log as it was.
use stream_flow.Prelude.{
  ℕ, zero, suc, ◌-◌, ◌<◌, ◌≡◌, inl, inr, refl, sym, ap, ◌∙◌, Bool, true, false, ◌&&◌, Option, none,
  some, List, [], ◌∷◌, ◌++◌, Bytes, All, Bool-cases, filter, take, length, length-append, leb,
  ascii, bytes_key, same_bytes, same_bytes_iff, arith, if◌then◌else◌,
}
use mathlib.Core.List.{append-nil}
use stream_flow.Prelude.Action.{Result, Action, ok, ◌>>◌}
use stream_flow.Decimal.{print_int64}
use stream_flow.Dict.{lookup, insert, delete, keys, contains, IsDistinct}
use stream_flow.Dict.Laws.{
  is_present, same_refl, contains-keys, lookup-insert, lookup-insert_self, insert-IsDistinct,
  lookup-delete, delete-IsDistinct,
}
use stream_flow.File.{done}
use stream_flow.Offload.Laws.{contains-filter}
use stream_flow.Raft.Entries.{Proto, marshal_entries, unmarshal_entries}
use stream_flow.Raft.Node.{CompactEnds, compact_node}
use stream_flow.Raft.Node.Writes.{no_failure}
use stream_flow.Raft.Wal.{
  Dir, Error, wal_log, content, header, is_wal, is_snapshot, is_rotated, snapshot_names,
  rotated_name, write_frame, scan_frames, scan_file, read_wal, rotate_wal, remove_all,
  purge_old_snapshots, kept, has_indexed, rewrite_wal, compacted, compact,
}
use stream_flow.Raft.Wal.Files.{
  is_wal-is_snapshot, lookup-remove_all, remove_all-IsDistinct, read_wal-one,
}
use stream_flow.Raft.Wal.Reads.{IsSmall, in_header, scan_file-frames}
use stream_flow.Sort.{sort, less_bytes}
use stream_flow.Sort.Laws.{contains-sort}
use stream_flow.Time.{Time, unix_nano}

-- Nothing fails, at a time.
abbrev pub all_well : Time → CompactEnds
all_well now = record {
  dir_fails = false;
  read_fails = λ name. false;
  writes = no_failure;
  list_fails = false;
  remove_fails = λ name. false;
  rename_fails = false;
  create_fails = false;
  now = now;
  purge_dir_fails = false;
  purge_fails = λ name. false;
}

abbrev frame : Bytes → Bytes
frame log = header log ++ log

scan_file-frame : (log : Bytes) → IsSmall log → scan_file (frame log) ≡ log
scan_file-frame log small =
    ap scan_file
      (sym (append-nil (frame log)) ∙ ap (λ l. (header log ++ l) ++ []) (sym (append-nil log)))
    ∙ scan_file-frames (log ∷ []) [] (small, tt) (in_header [] (omega arith))
    ∙ append-nil log

contains-take :
    (k : Bytes) (n : ℕ) (l : List Bytes) → contains k l ≡ false → contains k (take n l) ≡ false
unfolding contains
contains-take k zero l h = refl
contains-take k (suc n) [] h = refl
contains-take k (suc n) (x ∷ xs) h = ground (arith, h, contains-take k n xs)

none-if :
    (b : Bool) (o : Option Bytes) (r : Bool)
    → b ≡ (r && is_present o)
    → r ≡ true
    → (if b then none else o) ≡ none
none-if b none r h e = ground arith
none-if b (some x) r h e = ground (arith, h, e)

blank-if :
    (b c : Bool) (file : Bytes)
    → c ≡ false
    → scan_file (content (if b then some [] else if c then some file else none)) ≡ []
unfolding scan_frames
blank-if true c file h = refl
blank-if false true file h = absurd (cc)
blank-if false false file h = refl

frame-if :
    (b c : Bool) (file : Bytes)
    → b ≡ false
    → c ≡ true
    → (if b then some [] else if c then some file else none) ≡ some file
frame-if b c file h k = ground arith

in_both : {x y : Dir} (P : Dir → Type 0) (b : Bool) → P x → P y → P (if b then x else y)
in_both P true p q = p
in_both P false p q = q

purge_ok :
    (d : Dir)
    → purge_old_snapshots false (λ name. false) 2 d ≡ (
      if leb (length (snapshot_names d)) 2
          then d
          else remove_all
              (λ name. false)
              (take (length (snapshot_names d) - 2) (snapshot_names d))
              d,
      ok tt,
    )
unfolding purge_old_snapshots
purge_ok d = elim (Bool-cases (leb (length (snapshot_names d)) 2)) [
  | inl few ↦ rw (purge_old_snapshots, few) refl
  | inr many ↦ rw (purge_old_snapshots, many) refl
]

then_ok :
    (m n : Action Dir Error (Unit {0})) (d d' : Dir) (r : Dir × Result Error (Unit {0}))
    → m d ≡ (d', ok tt)
    → n d' ≡ r
    → (m >> n) d ≡ r
then_ok m n d d' r h k = rw h k

-- The directory after each step.
module _ (proto : Proto) (d : Dir) (log : Bytes) (now : Time) where
  abbrev written : Dir
  written = insert wal_log (frame log) d

  abbrev rotated : List Bytes
  rotated = filter (is_rotated proto) (sort less_bytes (keys written))

  abbrev alone : Dir
  alone = remove_all (λ name. false) rotated written

  abbrev moved : Dir
  moved = insert wal_log [] (insert (rotated_name now) (frame log) (delete wal_log alone))

  -- The snapshots that are purged.
  abbrev removed : List Bytes
  removed = take (length (snapshot_names moved) - 2) (snapshot_names moved)

  abbrev purged : Dir
  purged =
      if leb (length (snapshot_names moved)) 2
      then moved
      else remove_all (λ name. false) removed moved

  rotated_name-wal_log : same_bytes wal_log (rotated_name now) ≡ false
  rotated_name-wal_log = elim (Bool-cases (same_bytes wal_log (rotated_name now))) [
    | inl yes' ↦
        let e : 7 ≡ length (rotated_name now) =
          ap length ((same_bytes_iff wal_log (rotated_name now)).0 yes') in
        absurd (omega (arith, e, length-append (print_int64 (unix_nano now)) (ascii ".log")))
    | inr no' ↦ no'
  ]

  rotated_name-is_wal : is_wal (rotated_name now) ≡ true
  rotated_name-is_wal = ground (arith, length-append (print_int64 (unix_nano now)) (ascii ".log"))

  contains-rotated :
      (k : Bytes) → contains k rotated ≡ (is_rotated proto k && is_present (lookup k written))
  contains-rotated k =
      contains-filter (is_rotated proto) k (sort less_bytes (keys written))
      ∙ ap (λ b. is_rotated proto k && b)
          (contains-sort less_bytes k (keys written) ∙ contains-keys k written)

  module _ (distinct : IsDistinct d) where
    lookup-alone :
        (k : Bytes) → lookup k alone ≡ (if contains k rotated then none else lookup k written)
    lookup-alone k =
        lookup-remove_all rotated k written (insert-IsDistinct wal_log (frame log) d distinct)

    alone-IsDistinct : IsDistinct alone
    alone-IsDistinct =
        remove_all-IsDistinct rotated written (insert-IsDistinct wal_log (frame log) d distinct)

    wal_log_stays : lookup wal_log alone ≡ some (frame log)
    wal_log_stays =
        lookup-alone wal_log
        ∙ ground (
          arith,
          contains-rotated wal_log,
          lookup-insert_self wal_log (frame log) d,
          same_bytes_iff wal_log wal_log,
        )

    others_removed :
        (k : Bytes) → is_wal k ≡ true → same_bytes wal_log k ≡ false → lookup k alone ≡ none
    others_removed k fits other =
        lookup-alone k
        ∙ none-if (contains k rotated) (lookup k written) (is_rotated proto k) (contains-rotated k)
            (ground (arith, fits, other, same_bytes_iff wal_log k, same_bytes_iff k wal_log))

    lookup-moved :
        (k : Bytes)
        → is_wal k ≡ true
        → lookup k moved ≡ (
            if same_bytes wal_log k
            then some []
            else if same_bytes (rotated_name now) k
            then some (frame log)
            else none)
    lookup-moved k fits = elim (Bool-cases (same_bytes wal_log k)) [
      | inl yes' ↦ rw yes' (lookup-insert wal_log k [] below ∙ rw yes' refl)
      | inr no' ↦ rw no' (
          lookup-insert wal_log k [] below
          ∙ rw no' (lookup-insert (rotated_name now) k (frame log) (delete wal_log alone))
          ∙ ap (λ o. if same_bytes (rotated_name now) k then some (frame log) else o)
              (lookup-delete wal_log k alone alone-IsDistinct ∙ rw no' (others_removed k fits no')))
    ]
      where
        below : Dir
        below = insert (rotated_name now) (frame log) (delete wal_log alone)

    moved-IsDistinct : IsDistinct moved
    moved-IsDistinct =
        insert-IsDistinct wal_log [] (insert (rotated_name now) (frame log) (delete wal_log alone))
          (insert-IsDistinct (rotated_name now) (frame log) (delete wal_log alone)
            (delete-IsDistinct wal_log alone alone-IsDistinct))

    not_removed : (k : Bytes) → is_wal k ≡ true → contains k removed ≡ false
    not_removed k fits =
        contains-take k (length (snapshot_names moved) - 2) (snapshot_names moved) (
          contains-filter is_snapshot k (sort less_bytes (keys moved))
          ∙ ground (arith, is_wal-is_snapshot k fits))

    purged-IsDistinct : IsDistinct purged
    purged-IsDistinct =
        in_both (λ q. IsDistinct q) (leb (length (snapshot_names moved)) 2) moved-IsDistinct
          (remove_all-IsDistinct removed moved moved-IsDistinct)

    lookup-purged : (k : Bytes) → is_wal k ≡ true → lookup k purged ≡ lookup k moved
    lookup-purged k fits =
        in_both (λ q. lookup k q ≡ lookup k moved) (leb (length (snapshot_names moved)) 2) refl
          (lookup-remove_all removed k moved moved-IsDistinct ∙ rw (not_removed k fits) refl)

    read_wal-purged : IsSmall log → read_wal false (λ name. false) 0 purged ≡ ok log
    read_wal-purged small =
        read_wal-one purged (rotated_name now) log purged-IsDistinct rotated_name-is_wal
          (ap is_present there) (ap (λ o. scan_file (content o)) there ∙ scan_file-frame log small)
          (λ k fits other.
            ap (λ o. scan_file (content o)) (lookup-purged k fits ∙ lookup-moved k fits)
            ∙ blank-if (same_bytes wal_log k) (same_bytes (rotated_name now) k) (frame log) other)
      where
        there : lookup (rotated_name now) purged ≡ some (frame log)
        there =
            lookup-purged (rotated_name now) rotated_name-is_wal
            ∙ lookup-moved (rotated_name now) rotated_name-is_wal
            ∙ frame-if _ _ (frame log) rotated_name-wal_log (same_refl (rotated_name now))

    -- Compacting at 0 keeps the entries whose index is positive.
    kept_all :
        (i : ℕ) (es : List proto.Entry)
        → All (λ e. 0 < proto.index e) es
        → kept proto true 0 i es ≡ es
    unfolding kept
    kept_all i [] h = refl
    kept_all i (e ∷ es) h = ground (arith, h.0, kept_all (suc i) es h.1)

    kept-has_indexed :
        (es : List proto.Entry)
        → All (λ e. 0 < proto.index e) es
        → kept proto (has_indexed proto es) 0 0 es ≡ es
    unfolding kept
    kept-has_indexed [] h = refl
    kept-has_indexed (e ∷ es) h =
        let indexed : has_indexed proto (e ∷ es) ≡ true = ground (arith, h.0) in
        ap (λ b. kept proto b 0 0 (e ∷ es)) indexed ∙ kept_all 0 (e ∷ es) h

    module _ (es : List proto.Entry) (positive : All (λ e. 0 < proto.index e) es)
        (read : read_wal false (λ name. false) 0 d ≡ ok log)
        (back : unmarshal_entries proto log ≡ ok es)
        (made : marshal_entries proto es ≡ ok log) where
      compacted_all : compacted proto false (λ name. false) 0 d ≡ ok log
      unfolding compacted
      compacted_all = rw (compacted, read, back, kept-has_indexed es positive, made) refl

      compact-alone :
          compact proto false (λ name. false) false done done false (λ name. false) 0 d
          ≡ (alone, ok tt)
      unfolding compact rewrite_wal write_frame
      compact-alone = rw (compact, compacted_all) refl

      rotate_wal-alone : rotate_wal false false now alone ≡ (moved, ok tt)
      unfolding rotate_wal
      rotate_wal-alone = rw (rotate_wal, wal_log_stays) refl

      pub compact_node-purged : compact_node proto (all_well now) 0 d ≡ (purged, ok tt)
      unfolding compact_node compact
      compact_node-purged =
          then_ok (compact proto false (λ name. false) false done done false (λ name. false) 0)
            (rotate_wal false false now >> purge_old_snapshots false (λ name. false) 2) d alone
            (purged, ok tt) compact-alone
            (then_ok (rotate_wal false false now) (purge_old_snapshots false (λ name. false) 2)
              alone moved (purged, ok tt) rotate_wal-alone (purge_ok moved))

      -- Compacting at 0 without a failure leaves the log that is read as it was.
      pub compact_node-read_wal :
          IsSmall log
          → read_wal false (λ name. false) 0 (compact_node proto (all_well now) 0 d).0 ≡ ok log
      compact_node-read_wal small =
          ap (λ q. read_wal false (λ name. false) 0 q.0) compact_node-purged ∙ read_wal-purged small
