-- ===== src/Tests/Rafts.antt =====
-- The theorems on the raft package at concrete inputs.
use stream_flow.Prelude.{
  ℕ, ◌^◌, ◌<◌, ◌≡◌, refl, subst, inl, some, [], ◌∷◌, ◌++◌, Bytes, length, arith,
}
use stream_flow.Prelude.Action.{ok}
use stream_flow.Int64.{int64_to_bytes, bytes_to_int64, put_uint32}
use stream_flow.Int64.Encoding.{length-int64_to_bytes, bytes_to_int64_to}
use stream_flow.Raft.Entries.{Proto, marshal_entries, unmarshal_entries}
use stream_flow.Raft.Entries.RoundTrip.{RoundTrips, unmarshal-cut}

-- Entries that are no more than their index.
abbrev pub numbers : Proto
numbers = record {
  Entry = ℕ;
  index = λ e. e;
  term = λ e. 1;
  marshal = λ e. some (int64_to_bytes e);
  unmarshal = λ b. some (bytes_to_int64 b);
}

pub numbers-RoundTrips : (e : ℕ) → e < 2 ^ 64 → RoundTrips numbers e
numbers-RoundTrips e h b made =
    let same : int64_to_bytes e ≡ b = cc in
    subst (λ q. (length q < 2 ^ 32) × (some (bytes_to_int64 q) ≡ some e)) same
      (omega (arith, length-int64_to_bytes e), cc (bytes_to_int64_to e h))

abbrev pub five_bytes : Bytes
five_bytes = 0 ∷ 0 ∷ 0 ∷ 8 ∷ 0 ∷ 0 ∷ 0 ∷ 0 ∷ 0 ∷ 0 ∷ 0 ∷ 5 ∷ []

pub marshal_five : marshal_entries numbers (5 ∷ []) ≡ ok five_bytes
unfolding marshal_entries int64_to_bytes put_uint32
marshal_five = refl

unmarshal-cut_example : unmarshal_entries numbers (five_bytes ++ (0 ∷ [])) ≡ ok []
unmarshal-cut_example =
    unmarshal-cut numbers (5 ∷ []) five_bytes (0 ∷ []) (numbers-RoundTrips 5 (omega arith), tt)
      marshal_five (omega arith, inl (omega arith))
