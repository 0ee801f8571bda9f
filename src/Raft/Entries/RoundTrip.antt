-- ===== src/Raft/Entries/RoundTrip.antt =====
-- Entries written in a row are read back, and nothing is when the last frame is cut.
use stream_flow.Prelude.{
  ℕ, zero, suc, ◌+◌, ◌^◌, ◌%◌, ◌≤◌, ◌<◌, ◌≡◌, refl, sym, ap, ◌∙◌, false, some, List, [], ◌∷◌, ◌++◌,
  Bytes, length, take, All, arith, ltb, length-append, take-append_length, drop-append_length, ◌-◌,
  ◌*◌, Option-cases, inl, inr, subst, length-drop, ◌⊎◌,
}
use stream_flow.Prelude.Action.{ok}
use mathlib.Core.Path.{ap₂}
use mathlib.Core.List.{append_assoc, append-nil}
use stream_flow.Int64.{put_uint32, get_uint32}
use stream_flow.Int64.Encoding.{length-put_uint32, get_uint32_put}
use stream_flow.Raft.Entries.{
  Proto, frame, marshal_loop, marshal_entries, unmarshal_loop, unmarshal_entries,
}

-- A frame begun and not ended.
abbrev pub IsCut : Bytes → Type 0
IsCut rest = (0 < length rest) × ((length rest < 4) ⊎ (length rest < 4 + get_uint32 (take 4 rest)))

module _ (proto : Proto) where
  open proto use {Entry, marshal, unmarshal}

  -- What is written for an entry fits its length field and is read back as the entry.
  abbrev pub RoundTrips : Entry → Type 0
  RoundTrips e = (b : Bytes) → marshal e ≡ some b → (length b < 2 ^ 32) × (unmarshal b ≡ some e)

  length_of : Bytes → Bytes
  length_of b = put_uint32 (length b % 2 ^ 32)

  size_read : (b : Bytes) → length b < 2 ^ 32 → get_uint32 (length_of b) ≡ length b
  unfolding length_of
  size_read b h =
      let e : length b % 2 ^ 32 ≡ length b = omega arith in rw e (get_uint32_put (length b) h)

  -- One round of the loop reads one frame.
  pub unmarshal_frame :
      (fuel : ℕ) (ents : List Entry) (e : Entry) (b rest : Bytes)
      → length b < 2 ^ 32
      → unmarshal b ≡ some e
      → unmarshal_loop proto (suc fuel) ents (frame proto b ++ rest)
        ≡ unmarshal_loop proto fuel (ents ++ (e ∷ [])) rest
  unfolding unmarshal_loop frame length_of put_uint32
  unmarshal_frame fuel ents e b rest h back =
      let size = size_read b h in
      let body = take-append_length (length b) b rest refl in
      let behind = drop-append_length (length b) b rest refl in
      let enough : ltb (length (b ++ rest)) (length b) ≡ false =
        ground (arith, length-append b rest) in
      let whole : ltb (suc (suc (suc (suc (length (b ++ rest)))))) 4 ≡ false = ground arith in
      rw (whole, size, enough, body, back, size, behind) refl

  -- `bs` is read as the entries `es`, whatever follows it.
  pub record Encodes (es : List Entry) (bs : Bytes) : Type 0 where
    pub count : 4 * length es ≤ length bs
    pub reads :
        (fuel : ℕ) (ents : List Entry) (rest : Bytes)
        → unmarshal_loop proto (length es + fuel) ents (bs ++ rest)
          ≡ unmarshal_loop proto fuel (ents ++ es) rest

  Encodes-nil : Encodes [] []
  Encodes-nil = record {
    count = omega arith;
    reads = λ fuel ents rest. let n : 0 + fuel ≡ fuel = omega arith in rw (n, append-nil);
  }

  length-frame : (b : Bytes) → length (frame proto b) ≡ 4 + length b
  unfolding frame
  length-frame b = omega (
    arith,
    length-append (put_uint32 (length b % 2 ^ 32)) b,
    length-put_uint32 (length b % 2 ^ 32),
  )

  Encodes-cons :
      {e : Entry} {es : List Entry} {b bs : Bytes}
      → length b < 2 ^ 32
      → unmarshal b ≡ some e
      → Encodes es bs
      → Encodes (e ∷ es) (frame proto b ++ bs)
  Encodes-cons {e} {es} {b} {bs} h back t = record {
    count = omega (arith, t.count, length-append (frame proto b) bs, length-frame b);
    reads = λ fuel ents rest.
        let n : suc (length es) + fuel ≡ suc (length es + fuel) = omega arith in
        ap₂ (λ k l. unmarshal_loop proto k ents l) n (append_assoc (frame proto b) bs rest)
        ∙ unmarshal_frame (length es + fuel) ents e b (bs ++ rest) h back
        ∙ t.reads fuel (ents ++ (e ∷ [])) rest
        ∙ ap (λ l. unmarshal_loop proto fuel l rest) (append_assoc ents (e ∷ []) es);
  }

  -- What `marshalEntries` returns encodes the entries.
  marshal_loop-Encodes :
      (out bs : Bytes) (es : List Entry)
      → All RoundTrips es
      → marshal_loop proto out es ≡ ok bs
      → (t : Bytes) × (bs ≡ out ++ t) × Encodes es t
  unfolding marshal_loop
  marshal_loop-Encodes out bs [] h e = ([], rw append-nil (cc), Encodes-nil)
  marshal_loop-Encodes out bs (x ∷ es) h e = elim (Option-cases (marshal x)) [
    | inl unmade ↦ absurd (ground arith)
    | inr (b, made) ↦
        let (fits, back) = h.0 b made in
        let (t, same, enc) = marshal_loop-Encodes (out ++ frame proto b) bs es h.1 (ground arith) in
        (frame proto b ++ t, same ∙ append_assoc out (frame proto b) t, Encodes-cons fits back enc)
  ]

  pub marshal_entries-Encodes :
      (bs : Bytes) (es : List Entry)
      → All RoundTrips es
      → marshal_entries proto es ≡ ok bs
      → Encodes es bs
  unfolding marshal_entries
  marshal_entries-Encodes bs es h e =
      let (t, same, enc) = marshal_loop-Encodes [] bs es h e in subst (Encodes es) (sym same) enc

  unmarshal_loop-nil : (fuel : ℕ) (ents : List Entry) → unmarshal_loop proto fuel ents [] ≡ ok ents
  unfolding unmarshal_loop
  unmarshal_loop-nil zero ents = refl
  unmarshal_loop-nil (suc fuel) ents = refl

  pub unmarshal-Encodes :
      (bs : Bytes) (es : List Entry) → Encodes es bs → unmarshal_entries proto bs ≡ ok es
  unfolding unmarshal_entries
  unmarshal-Encodes bs es t =
      let n : length bs ≡ length es + (length bs - length es) = omega (arith, t.count) in
      ap₂ (λ k l. unmarshal_loop proto k [] l) n (sym (append-nil bs))
      ∙ t.reads (length bs - length es) [] []
      ∙ unmarshal_loop-nil (length bs - length es) es

  pub Encodes-append :
      {es fs : List Entry} {bs cs : Bytes}
      → Encodes es bs
      → Encodes fs cs
      → Encodes (es ++ fs) (bs ++ cs)
  Encodes-append {es} {fs} {bs} {cs} t u = record {
    count = omega (arith, t.count, u.count, length-append bs cs, length-append es fs);
    reads = λ fuel ents rest.
        let n : length (es ++ fs) + fuel ≡ length es + (length fs + fuel) =
          omega (arith, length-append es fs) in
        ap₂ (λ k l. unmarshal_loop proto k ents l) n (append_assoc bs cs rest)
        ∙ t.reads (length fs + fuel) ents (cs ++ rest)
        ∙ u.reads fuel (ents ++ es) rest
        ∙ ap (λ l. unmarshal_loop proto fuel l rest) (append_assoc ents es fs);
  }

  -- Entries whose coding fits its length field and is read back as the entry are read back from
  -- what marshalEntries returns for them.
  pub unmarshal-marshal :
      (es : List Entry) (bs : Bytes)
      → All RoundTrips es
      → marshal_entries proto es ≡ ok bs
      → unmarshal_entries proto bs ≡ ok es
  unmarshal-marshal es bs h e = unmarshal-Encodes bs es (marshal_entries-Encodes bs es h e)

  unmarshal_loop-cut :
      (fuel : ℕ) (ents : List Entry) (rest : Bytes)
      → IsCut rest
      → unmarshal_loop proto fuel ents rest ≡ ok []
  unfolding unmarshal_loop
  unmarshal_loop-cut fuel ents [] c = absurd (omega arith)
  unmarshal_loop-cut zero ents (b ∷ bs) c = refl
  unmarshal_loop-cut (suc fuel) ents (b ∷ bs) c = ground (arith, length-drop 4 (b ∷ bs))

  -- When the bytes of such entries are followed by a frame that is cut, unmarshalEntries returns
  -- no entry and no error.
  pub unmarshal-cut :
      (es : List Entry) (bs rest : Bytes)
      → All RoundTrips es
      → marshal_entries proto es ≡ ok bs
      → IsCut rest
      → unmarshal_entries proto (bs ++ rest) ≡ ok []
  unfolding unmarshal_entries
  unmarshal-cut es bs rest h e c =
      let t = marshal_entries-Encodes bs es h e in
      let n : length (bs ++ rest) ≡ length es + (length (bs ++ rest) - length es) =
        omega (arith, t.count, length-append bs rest) in
      ap (λ k. unmarshal_loop proto k [] (bs ++ rest)) n
      ∙ t.reads (length (bs ++ rest) - length es) [] rest
      ∙ unmarshal_loop-cut (length (bs ++ rest) - length es) es rest c
