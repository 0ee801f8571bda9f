-- ===== src/Raft/Wal/Appends.antt =====
-- A log whose last file holds whole frames: an append adds its bytes to what is read, or, when a
-- write fails, nothing.
use stream_flow.Prelude.{
  ℕ, ◌≡◌, ◌<◌, refl, sym, ap, ◌∙◌, Bool, true, false, some, List, [], ◌∷◌, ◌++◌, Bytes, length,
  take, drop, filter, concat, All, All-append, bytes_key, arith, subst, length-take, drop_all,
}
use stream_flow.Prelude.Action.{Result, ok, err}
use mathlib.Core.List.{append_assoc, append-nil}
use stream_flow.Dict.{lookup, insert, contains}
use stream_flow.Dict.Laws.{lookup-insert_self}
use stream_flow.File.{Outcome, done, failed}
use stream_flow.Sort.{sort, less_bytes}
use stream_flow.Raft.Wal.{
  Dir, Error, write_failed, open_failed, wal_log, content, header, write_frame, append_wal,
  scan_file, wal_names, read_files, read_wal, is_wal, slice,
}
use stream_flow.Raft.Wal.Reads.{
  IsSmall, frames, Tail, in_header, in_payload, scan_file-frames, frames-append, concat-append,
  contents, read_files-contents, keys-insert, contents-insert, contents-append,
}

-- The files hold the bytes `log`, and the last one ends with the unfinished frame `t`.
pub record HoldsLog (d : Dir) (log t : Bytes) : Type 0 where
  pub old : List Bytes
  pub payloads : List Bytes
  pub names : wal_names d ≡ old ++ (wal_log ∷ [])
  pub other : contains wal_log old ≡ false
  pub found : lookup wal_log d ≡ some (frames payloads ++ t)
  pub small : All IsSmall payloads
  pub tail : Tail t
  pub holds : contents d old ++ concat payloads ≡ log

-- A write that fails does not write everything.
abbrev pub IsShort : Outcome → ℕ → Type 0
IsShort done n = Unit {0}
IsShort (failed k) n = k < n

pub slice_ok : (from : ℕ) (out : Bytes) → slice from (ok out) ≡ ok (drop from out)
slice_ok from out = ground (arith, drop_all from out)

-- Reading a write-ahead log from a place returns the bytes that its files hold from there on, when
-- no read fails, also if the last frame is unfinished.
pub read_wal-HoldsLog :
    (d : Dir) (log t : Bytes) (from : ℕ)
    → HoldsLog d log t
    → read_wal false (λ name. false) from d ≡ ok (drop from log)
unfolding read_wal
read_wal-HoldsLog d log t from h =
    let here : scan_file (content (lookup wal_log d)) ≡ concat h.payloads =
      ap (λ o. scan_file (content o)) h.found ∙ scan_file-frames h.payloads t h.small h.tail in
    let all : read_files (λ name. false) d [] (wal_names d) ≡ ok log =
      read_files-contents d [] (wal_names d)
      ∙ ap (λ l. ok (contents d l)) h.names
      ∙ ap (λ l. ok l) (contents-append d h.old wal_log)
      ∙ ap (λ l. ok (contents d h.old ++ l)) here
      ∙ ap (λ l. ok l) h.holds in
    rw (all, read_wal) (slice_ok from log)

module _ (d : Dir) (log : Bytes) (h : HoldsLog d log []) where
  -- The directory when the last file is written anew.
  abbrev rewritten : Bytes → Dir
  rewritten file = insert wal_log file d

  rewritten-HoldsLog :
      (payloads : List Bytes) (t log' : Bytes)
      → All IsSmall payloads
      → Tail t
      → contents d h.old ++ concat payloads ≡ log'
      → HoldsLog (rewritten (frames payloads ++ t)) log' t
  rewritten-HoldsLog payloads t log' small tail same = record {
    old = h.old;
    payloads = payloads;
    names =
        ap (λ l. sort less_bytes (filter is_wal l))
          (keys-insert wal_log (frames h.payloads ++ []) (frames payloads ++ t) d h.found)
        ∙ h.names;
    other = h.other;
    found = lookup-insert_self wal_log (frames payloads ++ t) d;
    small = small;
    tail = tail;
    holds =
        ap (λ l. l ++ concat payloads)
          (contents-insert wal_log (frames payloads ++ t) d h.old h.other)
        ∙ same;
  }

  torn-HoldsLog : (t : Bytes) → Tail t → HoldsLog (rewritten (frames h.payloads ++ t)) log t
  torn-HoldsLog t tail = rewritten-HoldsLog h.payloads t log h.small tail h.holds

  added-HoldsLog :
      (entries : Bytes)
      → IsSmall entries
      → HoldsLog (rewritten (frames h.payloads ++ (header entries ++ entries))) (log ++ entries) []
  added-HoldsLog entries small =
      subst (λ file. HoldsLog (rewritten file) (log ++ entries) [])
        (append-nil (frames (h.payloads ++ (entries ∷ []))) ∙ frames-append h.payloads entries)
        (rewritten-HoldsLog (h.payloads ++ (entries ∷ [])) [] (log ++ entries)
          (All-append IsSmall h.payloads (entries ∷ []) h.small (small, tt))
          (in_header [] (omega arith))
          (ap (λ l. contents d h.old ++ l) (concat-append h.payloads entries)
            ∙ sym (append_assoc (contents d h.old) (concat h.payloads) entries)
            ∙ ap (λ l. l ++ entries) h.holds))

  file_here : content (lookup wal_log d) ≡ frames h.payloads
  file_here = ap content h.found ∙ append-nil (frames h.payloads)

  module _ (open_fails : Bool) (w1 w2 : Outcome) (entries : Bytes) where
    abbrev pub appended : Dir × Result Error (Unit {0})
    appended = append_wal open_fails w1 w2 entries d

    -- How an append ends.
    pub data Appended : Type 0 where
      added : appended.1 ≡ ok tt → HoldsLog appended.0 (log ++ entries) [] → Appended
      refused : (e : Error) (t : Bytes) → appended.1 ≡ err e → HoldsLog appended.0 log t → Appended

  torn_header : (n : ℕ) (entries : Bytes) → n < 4 → Tail (take n (header entries))
  torn_header n entries k = in_header _ (omega (arith, length-take n (header entries)))

  torn_payload :
      (n : ℕ) (entries : Bytes)
      → IsSmall entries
      → n < length entries
      → Tail (header entries ++ take n entries)
  torn_payload n entries small k = in_payload entries _ small (omega (arith, length-take n entries))

  -- An append to a write-ahead log whose last file ends with a whole frame, of bytes that fit the
  -- length field, either succeeds and the log then holds them at its end and its last file ends
  -- with a whole frame again, or returns an error and the log holds what it held, whatever write
  -- fails before its last byte.
  pub append_wal-HoldsLog :
      (open_fails : Bool) (w1 w2 : Outcome) (entries : Bytes)
      → IsSmall entries
      → IsShort w1 4
      → IsShort w2 (length entries)
      → Appended open_fails w1 w2 entries
  unfolding append_wal write_frame
  append_wal-HoldsLog true w1 w2 entries small s1 s2 = refused open_failed [] refl h
  append_wal-HoldsLog false (failed n) w2 entries small s1 s2 =
      refused write_failed (take n (header entries)) refl
        (rw file_here (torn-HoldsLog _ (torn_header n entries s1)))
  append_wal-HoldsLog false done (failed n) entries small s1 s2 =
      refused write_failed (header entries ++ take n entries) refl
        (rw file_here (torn-HoldsLog _ (torn_payload n entries small s2)))
  append_wal-HoldsLog false done done entries small s1 s2 =
      added refl (rw file_here (added-HoldsLog entries small))
