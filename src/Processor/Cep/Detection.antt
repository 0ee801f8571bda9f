-- ===== src/Processor/Cep/Detection.antt =====
-- What is found is there: the last events are the pattern.
use stream_flow.Prelude.{
  ℕ, zero, suc, ◌≡◌, subst, ◌<◌, ◌⊎◌, inl, inr, refl, sym, ap, ◌∙◌, Bool, true, false, some, List,
  [], ◌∷◌, ◌++◌, Bytes, length, take, get_elem?, drop_here, take_all, ◌==◌, ==_iff, same_bytes,
  same_bytes_iff, Bool-cases, arith,
}
use mathlib.Core.List.{append_assoc, append-nil}
use stream_flow.Processor.Cep.{
  CepStateMachine, new_cep_state_machine, advanced, missed, compared, next, machine_of, feed,
}

take-suc {ℓ} :
    {A : Type ℓ} (i : ℕ) (xs : List A) (x : A)
    → get_elem? xs i ≡ some x
    → take (suc i) xs ≡ take i xs ++ (x ∷ [])
take-suc i [] x h = cc
take-suc zero (y ∷ ys) x h = ground arith
take-suc (suc i) (y ∷ ys) x h = ap (λ l. y ∷ l) (take-suc i ys x h)

-- The last events are the part of the pattern in front of the index.
pub record IsAt (c : CepStateMachine) (events : List Bytes) : Type 0 where
  pub front : List Bytes
  pub ends : events ≡ front ++ take c.idx c.pattern
  pub inside : (c.pattern ≡ []) ⊎ (c.idx < length c.pattern)

abbrev pub EndsWith : List Bytes → List Bytes → Type 0
EndsWith pattern events = (front : List Bytes) × (events ≡ front ++ pattern)

-- What a step returns is right after these events.
abbrev Right : List Bytes → List Bytes → CepStateMachine × Bool → Type 0
Right pattern events (c, found) =
    (c.pattern ≡ pattern)
    × IsAt c events
    × ((found ≡ false) ⊎ ((found ≡ true) × EndsWith pattern events))

module _ (first : Bytes) (rest : List Bytes) (event : Bytes) (events : List Bytes) (i : ℕ) where
  abbrev whole : List Bytes
  whole = first ∷ rest

  abbrev machine : CepStateMachine
  machine = record { pattern = whole; idx = i }

  advanced-Right :
      (front : List Bytes)
      → events ++ (event ∷ []) ≡ front ++ take (suc i) whole
      → i < length whole
      → Right whole (events ++ (event ∷ [])) (advanced machine)
  unfolding advanced
  advanced-Right front ends l = elim (Bool-cases (suc i == length whole)) [
    | inl last ↦
        let e : suc i ≡ length whole = (==_iff (suc i) (length whole)).0 last in
        rw (last, advanced)
          (
            refl,
            record {
              front = events ++ (event ∷ []);
              ends = sym (append-nil _);
              inside = inr (omega arith);
            },
            inr (
              refl,
              (front, ends ∙ ap (λ l. front ++ l) (take_all (suc i) whole (omega (arith, e)))),
            ),
          )
    | inr more ↦
        let l' : suc i < length whole = ground (arith, ==_iff (suc i) (length whole)) in
        rw (more, advanced) (refl, record { front = front; ends = ends; inside = inr l' }, inl refl)
  ]

  -- After a miss the index is 1 only if the pattern has more events than its first.
  two_events :
      (expected : Bytes)
      → get_elem? whole i ≡ some expected
      → i < length whole
      → same_bytes expected event ≡ false
      → first ≡ event
      → 1 < length whole
  two_events expected at l other e = two rest i at l
    where
      two :
          (ys : List Bytes) (j : ℕ)
          → get_elem? (first ∷ ys) j ≡ some expected
          → j < length (first ∷ ys)
          → 1 < length (first ∷ ys)
      two [] zero at' l' = absurd (ground (arith, same_bytes_iff expected event))
      two [] (suc j) at' l' = absurd (omega arith)
      two (y ∷ ys) j at' l' = omega arith

  missed-Right :
      (expected : Bytes)
      → get_elem? whole i ≡ some expected
      → i < length whole
      → same_bytes expected event ≡ false
      → Right whole (events ++ (event ∷ [])) (missed first event machine)
  unfolding missed
  missed-Right expected at l differs = elim (Bool-cases (same_bytes first event)) [
    | inl same ↦
        let e : first ≡ event = (same_bytes_iff first event).0 same in
        rw (same, missed)
          (
            refl,
            record {
              front = events;
              ends = ap (λ x. events ++ (x ∷ [])) (sym e);
              inside = inr (two_events expected at l differs e);
            },
            inl refl,
          )
    | inr other ↦
        rw (other, missed)
          (
            refl,
            record {
              front = events ++ (event ∷ []);
              ends = sym (append-nil _);
              inside = inr (omega arith);
            },
            inl refl,
          )
  ]

  next-Right :
      (front : List Bytes)
      → events ≡ front ++ take i whole
      → i < length whole
      → (out : CepStateMachine × Bool) × (next event machine ≡ some out)
        × Right whole (events ++ (event ∷ [])) out
  unfolding next compared
  next-Right front ends l =
      let (expected, at, here) = drop_here i whole l in
      elim (Bool-cases (same_bytes expected event)) [
        | inl same ↦
            let e : expected ≡ event = (same_bytes_iff expected event).0 same in
            let longer : events ++ (event ∷ []) ≡ front ++ take (suc i) whole =
              ap (λ l. l ++ (event ∷ [])) ends
              ∙ append_assoc front (take i whole) (event ∷ [])
              ∙ ap (λ x. front ++ (take i whole ++ (x ∷ []))) (sym e)
              ∙ ap (λ l. front ++ l) (sym (take-suc i whole expected at)) in
            (advanced machine, rw (at, same, next) refl, advanced-Right front longer l)
        | inr differs ↦ (
          missed first event machine,
          rw (at, differs, next) refl,
          missed-Right expected at l differs,
        )
      ]

abbrev at_index : List Bytes → ℕ → CepStateMachine
at_index pattern i = record { pattern = pattern; idx = i }

-- The machine returns, and it is right.
step-Right :
    (pattern : List Bytes) (i : ℕ) (event : Bytes) (events : List Bytes)
    → IsAt (at_index pattern i) events
    → (out : CepStateMachine × Bool) × (next event (at_index pattern i) ≡ some out)
      × Right pattern (events ++ (event ∷ [])) out
unfolding next
step-Right [] i event events h = (
  (at_index [] i, false),
  refl,
  (
    refl,
    record {
      front = events ++ (event ∷ []);
      ends =
          sym
            (ap (λ l. (events ++ (event ∷ [])) ++ l) (take_all i [] (omega arith)) ∙ append-nil _);
      inside = inl refl;
    },
    inl refl,
  ),
)
step-Right (first ∷ rest) i event events h = elim h.inside [
  | inl empty ↦ absurd (cc)
  | inr l ↦ next-Right first rest event events i h.front h.ends l
]

feed-IsAt :
    (pattern : List Bytes) (es : List Bytes) (i : ℕ) (seen : List Bytes)
    → IsAt (at_index pattern i) seen
    → (j : ℕ) × (feed es (some (at_index pattern i)) ≡ some (at_index pattern j))
      × IsAt (at_index pattern j) (seen ++ es)
unfolding feed
feed-IsAt pattern [] i seen h =
    (i, refl, subst (IsAt (at_index pattern i)) (sym (append-nil seen)) h)
feed-IsAt pattern (event ∷ es) i seen h =
    let ((c, found), e, (same, there, r)) = step-Right pattern i event seen h in
    let aligned : c ≡ at_index pattern c.idx = ap (λ p. at_index p c.idx) same in
    let (j, run, end') =
      feed-IsAt pattern es c.idx (seen ++ (event ∷ []))
        (subst (λ x. IsAt x (seen ++ (event ∷ []))) aligned there) in
    (
      j,
      ap (λ q. feed es (machine_of q)) e ∙ ap (λ x. feed es (some x)) aligned ∙ run,
      subst (IsAt (at_index pattern j)) (append_assoc seen (event ∷ []) es) end',
    )

new-IsAt : (pattern : List Bytes) → IsAt (new_cep_state_machine pattern) []
new-IsAt [] = record { front = []; ends = refl; inside = inl refl }
new-IsAt (first ∷ rest) = record { front = []; ends = refl; inside = inr (omega arith) }

-- From its start the machine takes any sequence of events without an index out of range, and when
-- it reports that it has found the pattern, the last events are the pattern.
pub feed-next :
    (pattern events : List Bytes) (event : Bytes)
    → (c c' : CepStateMachine) × (found : Bool) × (feed events
          (some (new_cep_state_machine pattern))
        ≡ some c)
      × (next event c ≡ some (c', found))
      × ((found ≡ false) ⊎ ((found ≡ true) × EndsWith pattern (events ++ (event ∷ []))))
feed-next pattern events event =
    let (j, run, there) = feed-IsAt pattern events 0 [] (new-IsAt pattern) in
    let ((c', found), e, (same, there', r)) = step-Right pattern j event events there in
    (at_index pattern j, c', found, run, e, r)
