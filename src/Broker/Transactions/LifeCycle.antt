-- ===== src/Broker/Transactions/LifeCycle.antt =====
-- What committing a transaction does: its status and the number of records produced.
pub mod Frozen
use stream_flow.Prelude.{
  ℕ, zero, suc, ◌+◌, ◌<◌, ◌≡◌, ◌≢◌, ◌⊎◌, inl, inr, refl, sym, ap, ◌∙◌, Bool, true, false, Option,
  none, some, List, [], ◌∷◌, Bytes, bytes_key, length, arith, All, Option-cases, if◌then◌else◌,
}
use stream_flow.Prelude.Action.{Result, ok, err, Result-cases}
use stream_flow.Dict.{Dict, lookup, insert}
use stream_flow.Dict.Laws.{lookup-insert, lookup-insert_self}
use stream_flow.Segment.Open.{Call}
use stream_flow.Segment.Record.{LogRecord, Json}
use stream_flow.Time.{Time}
use stream_flow.Broker.State.{
  Broker, Topic, Error, tx_closed, TxRecord, Transaction, Status, opened, committing, committed,
  aborted,
}
use stream_flow.Broker.Topics.{create_topic, open_topic}
use stream_flow.Broker.Produce.{Moment, produce, append_last, set_next_offset}
use stream_flow.Broker.Transactions.{
  Surroundings, begin_transaction, tx_produce, abort_transaction, commit_record, commit_loop,
  commit_transaction, open_transaction, is_open, set_transaction, new_id, finish_commit,
  after_create,
}

create_topic-tx_state :
    (d : Bool) (f : Call → Bool) (name : Bytes) (b : Broker)
    → (create_topic d f name b).0.tx_state ≡ b.tx_state
unfolding create_topic open_topic
create_topic-tx_state d f name b = ground arith

produce-tx_state :
    (json : Json) (m : Moment) (name key value : Bytes) (headers : Dict Bytes Bytes) (b : Broker)
    → (produce json m name key value headers b).0.tx_state ≡ b.tx_state
unfolding produce append_last set_next_offset
produce-tx_state json m name key value headers b = ground arith

module _ (json : Json) (s : ℕ → Surroundings) where
  commit_record-tx_state :
      (u : Surroundings) (r : TxRecord) (b : Broker)
      → (commit_record json u r b).0.tx_state ≡ b.tx_state
  unfolding commit_record after_create
  commit_record-tx_state u r b = ground (
    arith,
    create_topic-tx_state u.dir_fails u.fails r.topic b,
    produce-tx_state json u.moment r.topic r.key r.value r.headers
        (create_topic u.dir_fails u.fails r.topic b).0,
  )

  pub commit_loop-tx_state :
      (n : ℕ) (rs : List TxRecord) (b : Broker)
      → (commit_loop json s n rs b).0.tx_state ≡ b.tx_state
  unfolding commit_loop
  commit_loop-tx_state n [] b = refl
  commit_loop-tx_state n (r ∷ rs) b = ground (
    arith,
    commit_record-tx_state (s n) r b,
    commit_loop-tx_state (suc n) rs (commit_record json (s n) r b).0,
  )

  -- Without an error every record was produced, and with one some were not.
  commit_loop-count :
      (n : ℕ) (rs : List TxRecord) (b : Broker)
      → let out = commit_loop json s n rs b in
        ((out.2 ≡ none) × (out.1 ≡ n + length rs))
        ⊎ ((e : Error) × (out.2 ≡ some e) × (out.1 < n + length rs))
  unfolding commit_loop
  commit_loop-count n [] b = inl (refl, omega arith)
  commit_loop-count n (r ∷ rs) b = elim (Result-cases (commit_record json (s n) r b).1) [
    | inr (e, f) ↦ inr (e, rw (f, commit_loop), rw (f, commit_loop) (omega arith))
    | inl (a, f) ↦ elim (commit_loop-count (suc n) rs (commit_record json (s n) r b).0) [
      | inl (x, y) ↦ inl (rw (f, commit_loop) x, rw (f, commit_loop) (omega arith))
      | inr (e, x, y) ↦ inr (e, rw (f, commit_loop) x, rw (f, commit_loop) (omega arith))
    ]
  ]

open_transaction_ok : (tx : Transaction) → tx.status ≡ opened → open_transaction (some tx) ≡ ok tx
unfolding open_transaction
open_transaction_ok tx h = rw h

pub open_transaction_closed :
    (tx : Transaction) → tx.status ≢ opened → open_transaction (some tx) ≡ err tx_closed
unfolding open_transaction
open_transaction_closed tx h = ground arith

module _ (json : Json) (s : ℕ → Surroundings) (id : Bytes) (b : Broker) (tx : Transaction)
    (found : lookup id b.tx_state ≡ some tx) where
  abbrev pub commit : Broker × ℕ × Option Error
  commit = commit_transaction json s id b

  abbrev pub HasStatus : Status → Broker → Type 0
  HasStatus st b' = lookup id b'.tx_state ≡ some (record tx { status = st })

  abbrev looped : Broker × ℕ × Option Error
  looped =
      commit_loop json s 0 tx.records (set_transaction id (record tx { status = committing }) b)

  commit_unfolded : tx.status ≡ opened → commit ≡ finish_commit id tx looped
  unfolding commit_transaction
  commit_unfolded h = rw (found, open_transaction_ok tx h, commit_transaction)

  looped-committing : lookup id looped.0.tx_state ≡ some (record tx { status = committing })
  looped-committing =
      rw
        (commit_loop-tx_state json s 0 tx.records
          (set_transaction id (record tx { status = committing }) b))
        (lookup-insert_self id (record tx { status = committing }) b.tx_state)

  finish_none :
      (q : Broker × ℕ × Option Error) (n : ℕ)
      → q.2 ≡ none
      → q.1 ≡ n
      → let out = finish_commit id tx q in
        (out.2 ≡ none)
        × (out.1 ≡ n)
        × (lookup id out.0.tx_state ≡ some (record tx { status = committed }))
  unfolding finish_commit
  finish_none (b', m, none) n e f =
      (refl, f, lookup-insert_self id (record tx { status = committed }) b'.tx_state)
  finish_none (b', m, some x) n e f = cc

  finish_some :
      (q : Broker × ℕ × Option Error) (x : Error) → q.2 ≡ some x → finish_commit id tx q ≡ q
  unfolding finish_commit
  finish_some (b', m, some y) x e = refl
  finish_some (b', m, none) x e = cc

  -- How committing an open transaction ends.
  pub data Commits : Type 0 where
    all_produced :
        commit.2 ≡ none → commit.1 ≡ length tx.records → HasStatus committed commit.0 → Commits
    stopped :
        (e : Error)
        → commit.2 ≡ some e
        → commit.1 < length tx.records
        → HasStatus committing commit.0
        → Commits

  -- Committing an open transaction ends in one of two ways: without an error, with every record
  -- counted and the transaction committed; or with an error, with fewer records counted and the
  -- transaction left committing.
  pub commit_transaction-Commits : tx.status ≡ opened → Commits
  commit_transaction-Commits h =
      let same = commit_unfolded h in
      elim (commit_loop-count json s 0 tx.records
        (set_transaction id (record tx { status = committing }) b)) [
          | inl (e, n) ↦
              let (x, y, z) = finish_none looped (length tx.records) e (omega (arith, n)) in
              all_produced (ap (λ q. q.2) same ∙ x) (ap (λ q. q.1) same ∙ y)
                (ap (λ q. lookup id q.0.tx_state) same ∙ z)
          | inr (x, e, n) ↦
              let left = same ∙ finish_some looped x e in
              stopped x (ap (λ q. q.2) left ∙ e) (rw left (omega (arith, n)))
                (ap (λ q. lookup id q.0.tx_state) left ∙ looped-committing)
        ]
