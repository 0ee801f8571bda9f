-- ===== src/Raft/Node/Writes.antt =====
-- What the log holds after a node has started, and after a batch of entries.
use stream_flow.Prelude.{
  ◌≡◌, refl, ap, ◌∙◌, sym, Bool, true, false, List, [], ◌∷◌, ◌++◌, Bytes, All, subst, arith, length,
  if◌then◌else◌,
}
use stream_flow.Prelude.Action.{ok}
use stream_flow.File.{done}
use stream_flow.Raft.Entries.{Proto, marshal_entries, unmarshal_entries}
use stream_flow.Raft.Entries.RoundTrip.{
  RoundTrips, unmarshal-marshal, unmarshal-Encodes, Encodes-append, marshal_entries-Encodes,
}
use stream_flow.Raft.Node.{
  Ends, append_with, persistent_append, recover, start, append_batch, ready_entries,
}
use stream_flow.Raft.Wal.{Dir, append_wal, write_frame}
use stream_flow.Raft.Wal.Reads.{IsSmall}
use stream_flow.Raft.Wal.Appends.{HoldsLog, added, refused, append_wal-HoldsLog, read_wal-HoldsLog}

abbrev pub no_failure : Ends
no_failure = record { open_fails = false; head = done; body = done }

pub append_with_ok :
    (d : Dir) (log b : Bytes)
    → HoldsLog d log []
    → IsSmall b
    → ((append_with no_failure b d).1 ≡ ok tt)
      × HoldsLog (append_with no_failure b d).0 (log ++ b) []
unfolding append_wal write_frame
append_with_ok d log b h small = elim (append_wal-HoldsLog d log h false done done b small tt tt) [
  | added e h' ↦ (refl, h')
  | refused e t f h' ↦ absurd (cc)
]

module _ (proto : Proto) where
  open proto use {Entry}

  module _ (d : Dir) (log : Bytes) (x : Entry) (xs : List Entry) (b : Bytes) (h : HoldsLog d log [])
      (made : marshal_entries proto (x ∷ xs) ≡ ok b) (small : IsSmall b) where
    persistent_append_ok :
        persistent_append proto no_failure (x ∷ xs) d ≡ append_with no_failure b d
    unfolding persistent_append
    persistent_append_ok = rw (made, persistent_append) refl

    pub append_batch_ok : append_batch proto no_failure (x ∷ xs) d ≡ (append_with no_failure b d).0
    unfolding append_batch
    append_batch_ok = rw (made, append_batch) refl

    -- When a node handles a batch of entries without a failure, on a log that ends with a whole
    -- frame and with a coding of the batch below 2 ^ 32 bytes, the log gains the bytes of the
    -- batch once if its storage is not persistent, and twice if it is.
    pub ready_entries-HoldsLog :
        (persistent : Bool)
        → HoldsLog
            (ready_entries proto persistent no_failure no_failure (x ∷ xs) d)
            (if persistent then (log ++ b) ++ b else log ++ b)
            []
    unfolding ready_entries persistent_append
    ready_entries-HoldsLog false =
        subst (λ q. HoldsLog q (log ++ b) []) (sym append_batch_ok)
          (append_with_ok d log b h small).1
    ready_entries-HoldsLog true =
        let d' = (append_with no_failure b d).0 in
        subst (λ q. HoldsLog (persistent_append proto no_failure (x ∷ xs) q).0 ((log ++ b) ++ b) [])
          (sym append_batch_ok)
          (subst (λ q. HoldsLog q.0 ((log ++ b) ++ b) []) (sym again)
            (append_with_ok d' (log ++ b) b (append_with_ok d log b h small).1 small).1)
      where
        again :
            persistent_append proto no_failure (x ∷ xs) (append_with no_failure b d).0
            ≡ append_with no_failure b (append_with no_failure b d).0
        again = rw (made, persistent_append) refl

  module _ (d : Dir) (log : Bytes) (x : Entry) (xs : List Entry) (h : HoldsLog d log [])
      (fit : All (RoundTrips proto) (x ∷ xs)) (made : marshal_entries proto (x ∷ xs) ≡ ok log)
      (small : IsSmall log) where
    appended_ok : (append_with no_failure log d).1 ≡ ok tt
    appended_ok = (append_with_ok d log log h small).0

    recover_ok :
        (l : Bytes)
        → l ≡ log
        → recover proto no_failure (ok l) d ≡ ((append_with no_failure log d).0, x ∷ xs, true)
    unfolding recover
    recover_ok [] e =
        let enc = marshal_entries-Encodes proto log (x ∷ xs) fit made in
        let empty : length log ≡ 0 = ap length (sym e) in absurd (omega (arith, enc.count, empty))
    recover_ok (c ∷ cs) e =
        let back : unmarshal_entries proto (c ∷ cs) ≡ ok (x ∷ xs) =
          ap (unmarshal_entries proto) e ∙ unmarshal-marshal proto (x ∷ xs) log fit made in
        let writes = persistent_append_ok d log x xs log h made small in
        rw (back, recover, writes, appended_ok) (ap (λ q. (q.0, x ∷ xs, true)) writes)

    start_ok :
        start proto false (λ name. false) no_failure d
        ≡ ((append_with no_failure log d).0, x ∷ xs, true)
    unfolding start
    start_ok =
        ap (λ q. recover proto no_failure q d) (read_wal-HoldsLog d log [] 0 h)
        ∙ recover_ok log refl

    abbrev pub started : Dir × List Entry × Bool
    started = start proto false (λ name. false) no_failure d

    -- A node that starts, with no failure, on a log that codes some entries which round-trip, ends
    -- with a whole frame and is below 2 ^ 32 bytes long, puts these entries in memory and writes
    -- all of them to the log again: the log then holds its bytes twice, and what it held twice
    -- over is read as the entries twice over.
    pub start-HoldsLog :
        (started.1 ≡ x ∷ xs)
        × HoldsLog started.0 (log ++ log) []
        × (unmarshal_entries proto (log ++ log) ≡ ok ((x ∷ xs) ++ (x ∷ xs)))
    start-HoldsLog =
        let enc = marshal_entries-Encodes proto log (x ∷ xs) fit made in
        (
          ap (λ q. q.1) start_ok,
          subst (λ q. HoldsLog q.0 (log ++ log) []) (sym start_ok)
              (append_with_ok d log log h small).1,
          unmarshal-Encodes proto (log ++ log) ((x ∷ xs) ++ (x ∷ xs))
              (Encodes-append proto enc enc),
        )
