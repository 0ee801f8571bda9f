-- ===== src/Processor/Values.antt =====
-- processor/op.go: records. A record's values are any Go values; the operators tell apart strings,
-- ints and floats, and make maps of counts and of groups. Floats, other values and the printing of
-- a value by package fmt are parameters.
use stream_flow.Prelude.{ℕ, Option, none, some, List, [], Bytes, bytes_key}
use stream_flow.Dict.{Dict, lookup}

pub record Floats : Type 1 where
  pub Float : Type 0
  pub Opaque : Type 0
  pub zero_float : Float
  pub plus : Float → Float → Float
  pub divide : Float → Float → Float
  pub of_int : ℕ → Float

module _ (w : Floats) where
  open w use {Float, Opaque}

  pub data Aggregate : Type 0 where
    total : Float → Aggregate
    count : ℕ → Aggregate

  pub data Value : Type 0 where
    text : Bytes → Value
    int : ℕ → Value
    float : Float → Value
    opaque : Opaque → Value
    counts : Dict Bytes ℕ → Value
    groups : Dict Bytes (Dict Bytes Aggregate) → Value

  -- A map that is not nil.
  abbrev pub Record : Type 0
  Record = Dict Bytes Value

  -- A finite stream: what is sent until the channel is closed.
  abbrev pub Stream : Type 0
  Stream = List Record

  abbrev pub Printer : Type 0
  Printer = Value → Bytes

  abbrev pub text_of : Printer → Value → Bytes
  text_of print (text s) = s
  text_of print (int n) = print (int n)
  text_of print (float x) = print (float x)
  text_of print (opaque o) = print (opaque o)
  text_of print (counts c) = print (counts c)
  text_of print (groups g) = print (groups g)

  -- The text of a field, if the record has it.
  abbrev pub map_text : Printer → Option Value → Option Bytes
  map_text print none = none
  map_text print (some v) = some (text_of print v)

  abbrev pub field_text : Printer → Bytes → Record → Option Bytes
  field_text print key r = map_text print (lookup key r)

-- The text of a field, empty if it is missing.
abbrev pub or_blank : Option Bytes → Bytes
or_blank none = []
or_blank (some s) = s
