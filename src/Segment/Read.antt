-- ===== src/Segment/Read.antt =====
-- broker/types.go: reading a segment by offset and by range.
use stream_flow.Prelude.{
  ℕ, not, Option, List, [], ◌∷◌, ◌++◌, Bytes, length, leb, number_key, if◌then◌else◌,
}
use stream_flow.Prelude.Action.{Result, ok, err}
use stream_flow.Dict.{lookup, keys}
use stream_flow.Sort.{sort}
use stream_flow.Int64.{less, add, is_not_positive, get_uint32}
use stream_flow.File.{read_at}
use stream_flow.Segment.{Segment, Error, offset_not_found, read_failed, unmarshal_failed}
use stream_flow.Segment.Record.{LogRecord, Json}

infixl 10 ◌>>=◌
abbrev pub ◌>>=◌ : {A B : Type 0} → Result Error A → (A → Result Error B) → Result Error B
ok a >>= f = f a
err e >>= f = err e

infixl 10 ◌>>◌
abbrev pub ◌>>◌ : {B : Type 0} → Result Error (Unit {0}) → Result Error B → Result Error B
m >> n = m >>= λ _. n

abbrev pub required : {A : Type 0} → Error → Option A → Result Error A
required e Option.none = err e
required e (Option.some a) = ok a

-- `if max <= 0 { max = 100 }`
abbrev pub default_limit : ℕ → ℕ
default_limit max = if is_not_positive max then 100 else max

-- The keys from `from` on.
unfoldable pub keys_from : ℕ → List ℕ → List ℕ
keys_from from [] = []
keys_from from (k ∷ ks) = if not (less k from) then k ∷ keys_from from ks else keys_from from ks

module _ (json : Json) where
  -- What `readByOffset` reads at a position of the log file.
  unfoldable pub read_frame : Bytes → ℕ → Result Error LogRecord
  read_frame log pos = do
    size ← required read_failed (read_at 4 pos log)
    payload ← required read_failed (read_at (get_uint32 size) (add pos 4) log)
    required unmarshal_failed (json.unmarshal payload)

  unfoldable pub read_by_offset : Segment → ℕ → Result Error LogRecord
  unfolding read_frame
  read_by_offset s offset = do
    pos ← required offset_not_found (lookup offset s.offsets)
    read_frame s.log pos

  -- The rounds of the loop over the sorted keys.
  unfoldable pub read_loop : Segment → ℕ → List LogRecord → List ℕ → Result Error (List LogRecord)
  read_loop s max result [] = ok result
  read_loop s max result (k ∷ ks) =
      let more = (read_by_offset s k >>= λ r. read_loop s max (result ++ (r ∷ [])) ks) in
      if leb max (length result) then ok result else more

  unfoldable pub read_range : Segment → ℕ → ℕ → Result Error (List LogRecord)
  unfolding read_loop keys_from
  read_range s from max =
      read_loop s (default_limit max) [] (sort less (keys_from from (keys s.offsets)))
