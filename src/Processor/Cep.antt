-- ===== src/Processor/Cep.antt =====
-- processor/advanced_streaming.go: the state machine that looks for a pattern of events.
pub mod Detection
use stream_flow.Prelude.{
  ℕ, suc, Bool, true, false, Option, none, some, List, [], ◌∷◌, Bytes, length, get_elem?, ◌==◌,
  same_bytes, if◌then◌else◌,
}

pub record CepStateMachine : Type 0 where
  pub pattern : List Bytes
  pub idx : ℕ

abbrev pub new_cep_state_machine : List Bytes → CepStateMachine
new_cep_state_machine pattern = record { pattern = pattern; idx = 0 }

advanced : CepStateMachine → CepStateMachine × Bool
advanced c =
    if suc c.idx == length c.pattern
    then (record c { idx = 0 }, true)
    else (record c { idx = suc c.idx }, false)

-- `first` is the first event of the pattern.
missed : Bytes → Bytes → CepStateMachine → CepStateMachine × Bool
missed first event c =
    (if same_bytes first event then record c { idx = 1 } else record c { idx = 0 }, false)

compared : Bytes → Bytes → CepStateMachine → Option Bytes → Option (CepStateMachine × Bool)
unfolding advanced missed
compared first event c none = none
compared first event c (some expected) =
    some (if same_bytes expected event then advanced c else missed first event c)

-- `none` is an index out of range, which panics.
unfoldable pub next : Bytes → CepStateMachine → Option (CepStateMachine × Bool)
unfolding compared
next event c = elim c.pattern [
  | [] ↦ some (c, false)
  | first ∷ rest ↦ compared first event c (get_elem? (first ∷ rest) c.idx)
]

abbrev pub machine_of : Option (CepStateMachine × Bool) → Option CepStateMachine
machine_of none = none
machine_of (some (c, found)) = some c

-- The machine after some events.
abbrev pub then_next : Bytes → Option CepStateMachine → Option CepStateMachine
then_next event none = none
then_next event (some c) = machine_of (next event c)

unfoldable pub feed : List Bytes → Option CepStateMachine → Option CepStateMachine
feed [] c = c
feed (event ∷ events) c = feed events (then_next event c)
