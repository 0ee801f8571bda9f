-- ===== src/Raft/Entries.antt =====
-- broker/internal/raft/node.go: entries in a row, each behind its length in four bytes.
pub mod RoundTrip
use stream_flow.Prelude.{
  ℕ, zero, suc, ◌+◌, ◌^◌, ◌%◌, ◌≡◌, Bool, Option, none, some, List, [], ◌∷◌, ◌++◌, Bytes, length,
  take, drop, ltb, leb, if◌then◌else◌,
}
use stream_flow.Prelude.Action.{Result, ok, err}
use stream_flow.Int64.{put_uint32, get_uint32}

-- `raftpb.Entry` and the protobuf coding of it.
pub record Proto : Type 1 where
  pub Entry : Type 0
  pub index : Entry → ℕ
  pub term : Entry → ℕ
  pub marshal : Entry → Option Bytes
  pub unmarshal : Bytes → Option Entry

pub data Error : Type 0 where
  marshal_failed unmarshal_failed read_dir_failed read_file_failed write_failed : Error

module _ (proto : Proto) where
  open proto use {Entry, marshal, unmarshal}

  -- `uint32(len(b))` wraps.
  unfoldable pub frame : Bytes → Bytes
  frame b = put_uint32 (length b % 2 ^ 32) ++ b

  unfoldable pub marshal_loop : Bytes → List Entry → Result Error Bytes
  unfolding frame
  marshal_loop out [] = ok out
  marshal_loop out (e ∷ es) = elim (marshal e) [
    | none ↦ err marshal_failed
    | some b ↦ marshal_loop (out ++ frame b) es
  ]

  unfoldable pub marshal_entries : List Entry → Result Error Bytes
  unfolding marshal_loop
  marshal_entries es = marshal_loop [] es

  -- The rounds of the loop on what is left of the data. Data that ends inside a frame gives nil.
  unfoldable pub unmarshal_loop : ℕ → List Entry → Bytes → Result Error (List Entry)
  unmarshal_loop fuel ents [] = ok ents
  unmarshal_loop zero ents (b ∷ bs) = ok []
  unmarshal_loop (suc fuel) ents (b ∷ bs) =
      let l = get_uint32 (take 4 (b ∷ bs)) in
      let body = drop 4 (b ∷ bs) in
      let more : Result Error (List Entry) = elim (unmarshal (take l body)) [
        | none ↦ err unmarshal_failed
        | some e ↦ unmarshal_loop fuel (ents ++ (e ∷ [])) (drop l body)
      ] in
      if ltb (length (b ∷ bs)) 4 then ok [] else if ltb (length body) l then ok [] else more

  -- Each round takes four bytes at least, so the length is fuel enough.
  unfoldable pub unmarshal_entries : Bytes → Result Error (List Entry)
  unfolding unmarshal_loop
  unmarshal_entries data' = unmarshal_loop (length data') [] data'
