-- ===== src/Sdk/Client.antt =====
-- sdk/client.go: requests over HTTP. How a request is carried out, and JSON and URLs, are parameters;
-- a base URL is taken to have no query of its own. Contexts are left out: no request is cancelled.
use stream_flow.Prelude.{
  ℕ, ◌≡◌, inl, inr, Option-cases, false, arith, Bool, ◌&&◌, not, Option, none, some, List, [], ◌∷◌,
  ◌++◌, Bytes, ascii, bytes_key, leb, ◌==◌, if◌then◌else◌,
}
use stream_flow.Prelude.Action.{Result, ok, err, Action, pure, fail, guard, or_fail, ◌>>=◌, ◌>>◌}
use stream_flow.Dict.{Dict}
use stream_flow.Text.{has_prefix, trim_space}

pub record Client : Type 0 where
  pub base_url : Bytes
  pub api_key : Bytes

-- The maps that are sent.
pub data Payload : Type 0 where
  produce_payload : Bytes → Bytes → Bytes → Payload
  idempotent_payload : Bytes → Bytes → Bytes → Bytes → ℕ → Payload
  begin_payload : Bytes → ℕ → Payload
  tx_produce_payload : Bytes → Bytes → Bytes → Bytes → Payload
  tx_payload : Bytes → Payload

-- `X-API-Key` is "" where it is not set.
pub record Call : Type 0 where
  pub method : Bytes
  pub url : Bytes
  pub query : Dict Bytes Bytes
  pub api_key : Bytes
  pub body : Bytes

pub record Reply : Type 0 where
  pub status : ℕ
  pub body : Bytes

-- A decoded object, as what `fmt.Sprint` prints of a field; `io.EOF` leaves a nil map.
pub data Decoded : Type 0 where
  object : (Bytes → Bytes) → Decoded
  at_end : Decoded
  malformed : Decoded

pub record Coding : Type 0 where
  pub marshal : Payload → Bytes
  pub decode : Bytes → Decoded
  -- For each record of a list the text of its field `value`, which is a string here.
  pub decode_values : Bytes → Option (List Bytes)
  pub url_fails : Bytes → Bool

pub data SdkError : Type 0 where
  bad_url : SdkError
  not_carried_out : SdkError
  bad_reply : SdkError
  consume_failed : Bytes → SdkError
  request_failed : ℕ → Bytes → SdkError

abbrev drop_if_slash : ℕ → Bytes → Bytes
drop_if_slash c [] = if c == b'/' then [] else c ∷ []
drop_if_slash c (d ∷ ds) = c ∷ d ∷ ds

-- `strings.TrimRight(s, "/")`
unfoldable pub trim_slashes : Bytes → Bytes
trim_slashes [] = []
trim_slashes (c ∷ cs) = drop_if_slash c (trim_slashes cs)

unfoldable pub new_client : Bytes → Client
unfolding trim_slashes
new_client addr =
    let base = trim_slashes addr in
    record {
      base_url =
          if not (has_prefix base (ascii "http://")) && not (has_prefix base (ascii "https://"))
          then ascii "http://" ++ base
          else base;
      api_key = [];
    }

abbrev pub with_api_key : Bytes → Client → Client
with_api_key key c = record c { api_key = key }

abbrev pub is_failure : ℕ → Bool
is_failure status = leb 300 status

abbrev pub decoded : {S : Type 0} → Decoded → Action S SdkError (Bytes → Bytes)
decoded (object f) = pure f
decoded at_end = pure (λ field. ascii "<nil>")
decoded malformed = fail bad_reply

module _ {S : Type 0} (exchange : Call → S → S × Option Reply) (coding : Coding) where
  abbrev carried : S × Option Reply → S × Result SdkError Reply
  carried (s, none) = (s, err not_carried_out)
  carried (s, some r) = (s, ok r)

  abbrev pub carry_out : Call → Action S SdkError Reply
  carry_out call s = carried (exchange call s)

  abbrev pub post_call : Client → Bytes → Payload → Call
  post_call c path payload = record {
    method = ascii "POST";
    url = c.base_url ++ path;
    query = [];
    api_key = c.api_key;
    body = coding.marshal payload;
  }

  unfoldable pub post_json : Client → Bytes → Payload → Action S SdkError (Bytes → Bytes)
  post_json c path payload = do
    guard (not (coding.url_fails (c.base_url ++ path))) bad_url
    r ← carry_out (post_call c path payload)
    guard (not (is_failure r.status)) (request_failed r.status (trim_space r.body))
    decoded (coding.decode r.body)

  -- The result is dropped.
  abbrev pub post_only : Client → Bytes → Payload → Action S SdkError (Unit {0})
  post_only c path payload = do _ ← post_json c path payload; pure tt

  unfoldable pub client_produce : Client → Bytes → Bytes → Bytes → Action S SdkError (Unit {0})
  unfolding post_json
  client_produce c topic key value =
      post_only c (ascii "/produce") (produce_payload topic key value)

  unfoldable pub client_produce_idempotent :
      Client → Bytes → Bytes → Bytes → Bytes → ℕ → Action S SdkError (Unit {0})
  unfolding post_json
  client_produce_idempotent c topic key value producer sequence =
      post_only c (ascii "/produce/idempotent")
        (idempotent_payload topic key value producer sequence)

  unfoldable pub client_begin_transaction : Client → Bytes → ℕ → Action S SdkError Bytes
  unfolding post_json
  client_begin_transaction c producer epoch = do
    resp ← post_json c (ascii "/tx/begin") (begin_payload producer epoch)
    pure (resp (ascii "tx_id"))

  unfoldable pub client_tx_produce :
      Client → Bytes → Bytes → Bytes → Bytes → Action S SdkError (Unit {0})
  unfolding post_json
  client_tx_produce c tx topic key value =
      post_only c (ascii "/tx/produce") (tx_produce_payload tx topic key value)

  unfoldable pub client_commit_transaction : Client → Bytes → Action S SdkError (Unit {0})
  unfolding post_json
  client_commit_transaction c tx = post_only c (ascii "/tx/commit") (tx_payload tx)

  unfoldable pub client_abort_transaction : Client → Bytes → Action S SdkError (Unit {0})
  unfolding post_json
  client_abort_transaction c tx = post_only c (ascii "/tx/abort") (tx_payload tx)

  abbrev pub consume_call : Client → Bytes → Call
  consume_call c topic = record {
    method = ascii "GET";
    url = c.base_url ++ ascii "/consume";
    query = (ascii "topic", topic) ∷ (ascii "offset", ascii "0") ∷ (ascii "max", ascii "100") ∷ [];
    api_key = c.api_key;
    body = [];
  }

  unfoldable pub get_records : Client → Bytes → Action S SdkError (List Bytes)
  get_records c topic = do
    guard (not (coding.url_fails (c.base_url ++ ascii "/consume"))) bad_url
    r ← carry_out (consume_call c topic)
    guard (not (is_failure r.status)) (consume_failed (trim_space r.body))
    or_fail bad_reply (coding.decode_values r.body)

  abbrev pub sent : S × Result SdkError (List Bytes) → S × List Bytes
  sent (s, ok values) = (s, values)
  sent (s, err e) = (s, [])

  -- What is sent on the channel until it is closed.
  unfoldable pub client_consume : Client → Bytes → S → S × List Bytes
  unfolding get_records
  client_consume c topic s = sent (get_records c topic s)

  -- A post that returns no error was carried out, and was answered with a status below 300.
  pub post_only-ok :
      (c : Client) (path : Bytes) (payload : Payload) (s : S)
      → (post_only c path payload s).1 ≡ ok tt
      → (r : Reply) × ((exchange (post_call c path payload) s).1 ≡ some r)
        × (is_failure r.status ≡ false)
        × ((post_only c path payload s).0 ≡ (exchange (post_call c path payload) s).0)
  unfolding post_json
  post_only-ok c path payload s h = elim (Option-cases (exchange (post_call c path payload) s).1) [
    | inl e ↦ absurd (ground (arith, e, h))
    | inr (r, e) ↦ (r, e, ground (arith, e, h), ground (arith, e, h))
  ]
