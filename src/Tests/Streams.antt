-- ===== src/Tests/Streams.antt =====
-- Stream processing and schemas at concrete inputs.
use stream_flow.Text.{is_blank}
use stream_flow.Text.Laws.{IsFree}
use stream_flow.Schema.Registry.Texts.{IsPlainText, IsPlainSchema, is_mark}
use stream_flow.Prelude.{
  false, ◌≡◌, ◌↔◌, ◌⊎◌, refl, Bool, true, false, some, bytes_key, List, [], ◌∷◌, Bytes, ascii,
  arith,
}
use stream_flow.Prelude.Action.{ok}
use stream_flow.Dict.{Dict, IsDistinct, lookup, insert}
use stream_flow.Text.{split_by, trim_space}
use stream_flow.Processor.Values.{Record, text, int}
use stream_flow.Schema.Registry
use stream_flow.Schema.Registry.{new_registry, split_schema, validate}
use stream_flow.Schema.Registry.Validation.{Fits, validate-register}
use stream_flow.Tests.Operators.{numbers}
use stream_flow.Schema.Advanced.{AdvancedRegistry, SchemaVersion, new_advanced_registry, register}
use stream_flow.Schema.Advanced.Versions.{IsValid, register-IsValid}
use stream_flow.Processor.Cep.{CepStateMachine, new_cep_state_machine, next, feed}
use stream_flow.Processor.Cep.Detection.{EndsWith, feed-next}

abbrev two_events : List Bytes
two_events = ascii "a" ∷ ascii "b" ∷ []

feed-next_example :
    (c c' : CepStateMachine) × (found : Bool) × (feed
        (ascii "a" ∷ [])
        (some (new_cep_state_machine two_events))
      ≡ some c)
    × (next (ascii "b") c ≡ some (c', found))
    × ((found ≡ false) ⊎ ((found ≡ true) × EndsWith two_events (two_events)))
feed-next_example = feed-next two_events (ascii "a" ∷ []) (ascii "b")

-- After three times a, the pattern a a b is not found though the last events are it.
abbrev aab : List Bytes
aab = ascii "a" ∷ ascii "a" ∷ ascii "b" ∷ []

aab_missed :
    feed (ascii "a" ∷ ascii "a" ∷ ascii "a" ∷ []) (some (new_cep_state_machine aab))
    ≡ some (record { pattern = aab; idx = 1 })
unfolding feed next
aab_missed = refl

abbrev one_schema : AdvancedRegistry
one_schema = record {
  next_id = 2;
  versions =
      (
        ascii "user",
        record { id = 1; name = ascii "user"; format = ascii "avro"; content = 7 ∷ [] } ∷ [],
      )
      ∷ [];
}

abbrev second : SchemaVersion
second = record { id = 2; name = ascii "user"; format = ascii "avro"; content = 7 ∷ 8 ∷ [] }

empty-IsValid : IsValid new_advanced_registry
unfolding lookup
empty-IsValid = record { history = λ name vs e. cc; older = λ name vs e. cc }

register-IsValid_example :
    IsValid (register (ascii "user") (ascii "avro") (7 ∷ []) new_advanced_registry).0
register-IsValid_example =
    register-IsValid (ascii "user") (ascii "avro") (7 ∷ []) new_advanced_registry empty-IsValid
      (omega arith)

second_registered : (register (ascii "user") (ascii "avro") (7 ∷ 8 ∷ []) one_schema).1 ≡ ok second
unfolding register lookup
second_registered = refl

abbrev user_schema : Bytes
user_schema = ascii "{name: string, age:int}"

abbrev user : Record numbers
user = (ascii "name", text (ascii "Alice")) ∷ (ascii "age", int 30) ∷ []

abbrev declared : Dict Bytes Bytes
declared = (ascii "name", ascii "string") ∷ (ascii "age", ascii "int") ∷ []

declared-IsPlainSchema : IsPlainSchema declared
declared-IsPlainSchema = (
  (
    plain (ascii "name") refl (refl, (refl, (refl, (refl, tt)))),
    plain (ascii "string") refl (refl, (refl, (refl, (refl, (refl, (refl, tt)))))),
  ),
  (
    (
      plain (ascii "age") refl (refl, (refl, (refl, tt))),
      plain (ascii "int") refl (refl, (refl, (refl, tt))),
    ),
    tt,
  ),
)
  where
    plain : (s : Bytes) → is_blank s ≡ false → IsFree is_mark s → IsPlainText s
    plain s h k = record { some_bytes = h; free = k }

declared-IsDistinct : IsDistinct declared
unfolding lookup
declared-IsDistinct = (refl, (refl, tt))

validate-register_example :
    (validate numbers
        (ascii "user")
        user
        (Registry.register (ascii "user") (ascii "{name:string,age:int}") new_registry)
      ≡ true)
    ↔ Fits numbers declared user
validate-register_example =
    validate-register numbers (ascii "user") declared new_registry user declared-IsPlainSchema
      declared-IsDistinct

user_fields :
    split_schema user_schema ≡ (ascii "name", ascii "string") ∷ (ascii "age", ascii "int") ∷ []
unfolding split_schema split_by trim_space insert
user_fields = refl
