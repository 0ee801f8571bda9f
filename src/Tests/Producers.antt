-- ===== src/Tests/Producers.antt =====
-- Idempotent producers, committed offsets and transactions at concrete inputs.
use stream_flow.Prelude.{◌≡◌, ◌≢◌, refl, true, false, some, [], ◌∷◌, Bytes, ascii, arith, bytes_key}
use stream_flow.Prelude.Action.{ok}
use stream_flow.Prelude.Int.{pos}
use stream_flow.Dict.{lookup}
use stream_flow.File.{written, write_at, write_file}
use stream_flow.Int64.{int64_to_bytes}
use stream_flow.Segment.{append}
use stream_flow.Broker.Idempotent.{produce_idempotent, check_sequence}
use stream_flow.Broker.Idempotent.Replay.{produce_idempotent-again}
use stream_flow.Broker.Offsets.{commit_offset, load_offset, load_offset-commit_offset}
use stream_flow.Broker.Produce.{produce}
use stream_flow.Broker.State.{Broker, Transaction, opened, committed}
use stream_flow.Broker.Topics.{is_draining}
use stream_flow.Broker.Transactions.{Surroundings}
use stream_flow.Broker.Transactions.LifeCycle.{Commits, commit_transaction-Commits}
use stream_flow.Broker.Transactions.LifeCycle.Frozen.{
  adds, commits, aborts, run_all, run_all-frozen,
}
use stream_flow.Tests.Brokers.{orders, one_topic, moment}
use stream_flow.Tests.Samples.{codec, plain}

abbrev producer : Bytes
producer = ascii "p"

first_call :
    (produce_idempotent codec moment orders [] (7 ∷ []) [] producer 1 one_topic).1
    ≡ ok (plain (7 ∷ []) 0, false)
unfolding produce_idempotent check_sequence lookup produce is_draining append int64_to_bytes
    write_at write_file
first_call = refl

not_empty : producer ≢ []
not_empty e = cc

produce_idempotent-again_example :
    produce_idempotent codec moment orders []
      (9 ∷ [])
      []
      producer
      1
      (produce_idempotent codec moment orders [] (7 ∷ []) [] producer 1 one_topic).0
    ≡ (
      (produce_idempotent codec moment orders [] (7 ∷ []) [] producer 1 one_topic).0,
      ok (plain (7 ∷ []) 0, true),
    )
produce_idempotent-again_example =
    produce_idempotent-again codec moment orders [] (7 ∷ []) [] producer 1 one_topic
      (plain (7 ∷ []) 0) moment orders [] (9 ∷ []) [] producer 1 not_empty refl first_call

load_offset-commit_offset_example :
    load_offset orders (ascii "g") (commit_offset false written orders (ascii "g") 42 one_topic).0
    ≡ ok 42
load_offset-commit_offset_example =
    load_offset-commit_offset orders (ascii "g") orders (ascii "g") 42 one_topic (omega arith)

abbrev tx_id : Bytes
tx_id = ascii "p-0-0"

abbrev transaction : Transaction
transaction = record {
  producer_id = producer;
  epoch = 0;
  status = opened;
  created_at = pos 0;
  records = record { topic = orders; key = []; value = 7 ∷ []; headers = [] } ∷ [];
}

abbrev with_transaction : Broker
with_transaction = record one_topic { tx_state = (tx_id, transaction) ∷ [] }

abbrev pub calm : Surroundings
calm = record { dir_fails = false; fails = λ c. false; moment = moment }

transaction_found : lookup tx_id with_transaction.tx_state ≡ some transaction
unfolding lookup
transaction_found = refl

commit_transaction-Commits_example :
    Commits codec (λ n. calm) tx_id with_transaction transaction transaction_found
commit_transaction-Commits_example =
    commit_transaction-Commits codec (λ n. calm) tx_id with_transaction transaction
      transaction_found refl

abbrev done_transaction : Transaction
done_transaction = record transaction { status = committed }

abbrev after_commit : Broker
after_commit = record one_topic { tx_state = (tx_id, done_transaction) ∷ [] }

done_found : lookup tx_id after_commit.tx_state ≡ some done_transaction
unfolding lookup
done_found = refl

not_open : committed ≢ opened
not_open e = cc

run_all-frozen_example :
    lookup tx_id
      (run_all codec
        (commits (λ n. calm) tx_id ∷ adds tx_id orders [] [] [] ∷ aborts tx_id ∷ [])
        after_commit).tx_state
    ≡ some done_transaction
run_all-frozen_example =
    run_all-frozen codec tx_id done_transaction not_open
      (commits (λ n. calm) tx_id ∷ adds tx_id orders [] [] [] ∷ aborts tx_id ∷ []) after_commit
      (tt, (tt, (tt, tt))) done_found
