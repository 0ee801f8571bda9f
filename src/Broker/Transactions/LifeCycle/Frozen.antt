-- ===== src/Broker/Transactions/LifeCycle/Frozen.antt =====
-- A transaction that is no longer open: no call that deals with transactions changes it.
use stream_flow.Prelude.{
  ℕ, ◌≡◌, ◌≢◌, inl, inr, ap, ◌∙◌, Option, none, some, List, [], ◌∷◌, Bytes, bytes_key, arith, All,
}
use stream_flow.Prelude.Action.{ok, err, Result-cases}
use stream_flow.Dict.{Dict, lookup, insert}
use stream_flow.Dict.Laws.{lookup-insert}
use stream_flow.Segment.Record.{Json}
use stream_flow.Time.{Time}
use stream_flow.Broker.State.{Broker, Error, tx_closed, Transaction, opened, committing}
use stream_flow.Broker.Transactions.{
  Surroundings, begin_transaction, tx_produce, abort_transaction, commit_loop, commit_transaction,
  open_transaction, set_transaction, new_id, finish_commit,
}
use stream_flow.Broker.Transactions.LifeCycle.{open_transaction_closed, commit_loop-tx_state}

-- The calls that deal with transactions.
pub data Operation : Type 0 where
  begins : Time → Time → Bytes → ℕ → Operation
  adds : Bytes → Bytes → Bytes → Bytes → Dict Bytes Bytes → Operation
  commits : (ℕ → Surroundings) → Bytes → Operation
  aborts : Bytes → Operation

module _ (json : Json) where
  abbrev pub run : Operation → Broker → Broker
  run (begins start now producer epoch) b = (begin_transaction start now producer epoch b).0
  run (adds id topic key value headers) b = (tx_produce id topic key value headers b).0
  run (commits s id) b = (commit_transaction json s id b).0
  run (aborts id) b = (abort_transaction id b).0

  abbrev pub run_all : List Operation → Broker → Broker
  run_all [] b = b
  run_all (op ∷ ops) b = run_all ops (run op b)

-- The operation does not begin a transaction that has this id.
abbrev pub IsOther : Bytes → Operation → Type 0
IsOther id (begins start now producer epoch) = new_id producer epoch start ≢ id
IsOther id (adds i topic key value headers) = Unit {0}
IsOther id (commits s i) = Unit {0}
IsOther id (aborts i) = Unit {0}

module _ (json : Json) (id : Bytes) (tx : Transaction) (closed : tx.status ≢ opened) where
  abbrev Holds : Broker → Type 0
  Holds b = lookup id b.tx_state ≡ some tx

  -- A transaction that is open is another one.
  open-other :
      (j : Bytes) (b : Broker) (t : Transaction)
      → Holds b
      → open_transaction (lookup j b.tx_state) ≡ ok t
      → j ≢ id
  open-other j b t h o same =
      let e : open_transaction (lookup j b.tx_state) ≡ err tx_closed =
        ap (λ k. open_transaction (lookup k b.tx_state)) same
        ∙ ap open_transaction h
        ∙ open_transaction_closed tx closed in
      cc

  keep_insert :
      (j : Bytes) (t : Transaction) (b : Broker)
      → j ≢ id
      → Holds b
      → lookup id (insert j t b.tx_state) ≡ some tx
  keep_insert j t b other h =
      ground (arith, lookup-insert j id t b.tx_state, bytes_key.same_iff j id)

  begins-keeps :
      (start now : Time) (producer : Bytes) (epoch : ℕ) (b : Broker)
      → new_id producer epoch start ≢ id
      → Holds b
      → Holds (begin_transaction start now producer epoch b).0
  unfolding begin_transaction
  begins-keeps start now [] epoch b other h = h
  begins-keeps start now (c ∷ cs) epoch b other h =
      keep_insert (new_id (c ∷ cs) epoch start) _ b other h

  adds-keeps :
      (j topic key value : Bytes) (headers : Dict Bytes Bytes) (b : Broker)
      → Holds b
      → Holds (tx_produce j topic key value headers b).0
  unfolding tx_produce
  adds-keeps j [] key value headers b h = h
  adds-keeps j (c ∷ cs) key value headers b h =
      elim (Result-cases (open_transaction (lookup j b.tx_state))) [
        | inl (t, o) ↦ rw (o, tx_produce) (keep_insert j _ b (open-other j b t h o) h)
        | inr (e, o) ↦ rw (o, tx_produce) h
      ]

  aborts-keeps : (j : Bytes) (b : Broker) → Holds b → Holds (abort_transaction j b).0
  unfolding abort_transaction
  aborts-keeps j b h = elim (Result-cases (open_transaction (lookup j b.tx_state))) [
    | inl (t, o) ↦ rw (o, abort_transaction) (keep_insert j _ b (open-other j b t h o) h)
    | inr (e, o) ↦ rw (o, abort_transaction) h
  ]

  finish-keeps :
      (j : Bytes) (t : Transaction) (q : Broker × ℕ × Option Error)
      → j ≢ id
      → Holds q.0
      → Holds (finish_commit j t q).0
  unfolding finish_commit
  finish-keeps j t (b, n, none) other h = keep_insert j _ b other h
  finish-keeps j t (b, n, some e) other h = h

  commits-keeps :
      (s : ℕ → Surroundings) (j : Bytes) (b : Broker)
      → Holds b
      → Holds (commit_transaction json s j b).0
  unfolding commit_transaction
  commits-keeps s j b h = elim (Result-cases (open_transaction (lookup j b.tx_state))) [
    | inr (e, o) ↦ rw (o, commit_transaction) h
    | inl (t, o) ↦
        let b' = set_transaction j (record t { status = committing }) b in
        rw (o, commit_transaction)
          (finish-keeps j t (commit_loop json s 0 t.records b') (open-other j b t h o) (
            rw (commit_loop-tx_state json s 0 t.records b')
              (keep_insert j (record t { status = committing }) b (open-other j b t h o) h)))
  ]

  run-keeps : (op : Operation) (b : Broker) → IsOther id op → Holds b → Holds (run json op b)
  run-keeps (begins start now producer epoch) b o h = begins-keeps start now producer epoch b o h
  run-keeps (adds j topic key value headers) b o h = adds-keeps j topic key value headers b h
  run-keeps (commits s j) b o h = commits-keeps s j b h
  run-keeps (aborts j) b o h = aborts-keeps j b h

  -- A transaction that is not open stays as it is through any sequence of begin, add, commit and
  -- abort calls none of which begins a transaction with its id.
  pub run_all-frozen :
      (ops : List Operation) (b : Broker)
      → All (IsOther id) ops
      → lookup id b.tx_state ≡ some tx
      → lookup id (run_all json ops b).tx_state ≡ some tx
  run_all-frozen [] b o h = h
  run_all-frozen (op ∷ ops) b o h = run_all-frozen ops (run json op b) o.1 (run-keeps op b o.0 h)
