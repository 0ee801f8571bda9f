-- ===== src/Raft/Node/Loop/Messages.antt =====
-- What a node sends in a round of its loop, and what the node with an address is stepped with.
use stream_flow.Prelude.{
  ℕ, ◌^◌, ◌<◌, ◌≡◌, refl, sym, ap, ◌∙◌, Bool, true, false, none, some, List, [], ◌∷◌, Bytes, All,
  filter, ◌==◌, ==_iff, Bool-cases, inl, inr, same_bytes, same_bytes_iff, arith, if◌then◌else◌,
}
use stream_flow.Decimal.Laws.{digits_injective}
use stream_flow.Offload.{Offloader}
use stream_flow.Raft.Entries.{Proto}
use stream_flow.Raft.Node.Loop.{
  Coding, ReadyEnds, print_uint64, address_of, outbox, stepped, handle_ready,
}
use stream_flow.Raft.Wal.{Dir}

-- What the transport carries to an address.
abbrev pub carried : Bytes → List (Bytes × Bytes) → List Bytes
carried addr [] = []
carried addr ((to, b) ∷ sent) =
    let rest = carried addr sent in if same_bytes to addr then b ∷ rest else rest

-- A message that survives its coding, to a node whose id is a uint64.
pub record Fits (c : Coding) (m : c.Message) : Type 0 where
  pub bytes : Bytes
  pub made : c.marshal m ≡ some bytes
  pub back : c.unmarshal bytes ≡ some m
  pub id : c.to m < 2 ^ 64

same_address :
    (a b : ℕ) → a < 2 ^ 64 → b < 2 ^ 64 → same_bytes (print_uint64 a) (print_uint64 b) ≡ (a == b)
same_address a b h k = elim (Bool-cases (a == b)) [
  | inl e ↦
      let e' : a ≡ b = (==_iff a b).0 e in
      (same_bytes_iff (print_uint64 a) (print_uint64 b)).1 (ap print_uint64 e') ∙ sym e
  | inr e ↦ ground (
    arith,
    e,
    same_bytes_iff (print_uint64 a) (print_uint64 b),
    digits_injective a b (omega arith) (omega arith),
  )
]

module _ (c : Coding) (me : ℕ) (small : me < 2 ^ 64) where
  stepped-outbox :
      (ms : List c.Message)
      → All (Fits c) ms
      → stepped c (carried (print_uint64 me) (outbox c none ms)) ≡ filter (λ m. c.to m == me) ms
  unfolding outbox stepped address_of
  stepped-outbox [] h = refl
  stepped-outbox (m ∷ ms) (fit, fits) = elim (Bool-cases (c.to m == me)) [
    | inl e ↦
        let there : same_bytes (print_uint64 (c.to m)) (print_uint64 me) ≡ true =
          same_address (c.to m) me fit.id small ∙ e in
        rw (outbox, fit.made, there, e, stepped, fit.back)
          (ap (λ l. m ∷ l) (stepped-outbox ms fits))
    | inr e ↦
        let other : same_bytes (print_uint64 (c.to m)) (print_uint64 me) ≡ false =
          same_address (c.to m) me fit.id small ∙ e in
        rw (outbox, fit.made, other, e) (stepped-outbox ms fits)
  ]

  -- When the map of addresses is nil, the messages of a round that the transport carries to the
  -- address of a node, whose id is a uint64, step that node with just the messages to it, in their
  -- order, if all the messages round-trip and go to ids that are uint64.
  pub handle_ready-stepped :
      (proto : Proto) (o : Offloader) (has_offload persistent : Bool) (e : ReadyEnds)
      (entries : List proto.Entry) (ms : List c.Message) (d : Dir) (st : o.Store)
      → All (Fits c) ms
      → stepped c (
          carried
            (print_uint64 me)
            (handle_ready proto o has_offload c persistent true none e entries ms d st).1)
        ≡ filter (λ m. c.to m == me) ms
  unfolding handle_ready
  handle_ready-stepped proto o has_offload persistent e entries ms d st fits =
      stepped-outbox ms fits
