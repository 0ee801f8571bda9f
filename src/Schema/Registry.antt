-- ===== src/Schema/Registry.antt =====
-- schema/registry.go: schemas as texts of fields with their types, and the check of a record.
pub mod Texts
pub mod Validation
use stream_flow.Prelude.{
  ℕ, ◌≡◌, Bool, true, false, ◌&&◌, not, Option, none, some, List, [], ◌∷◌, Bytes, ascii, bytes_key,
  same_bytes, map, filter, ◌==◌, if◌then◌else◌,
}
use stream_flow.Dict.{Dict, lookup, insert}
use stream_flow.Text.{trim_space, split_by, is_blank}
use stream_flow.Processor.Values.{Floats, Value, text, int, float, opaque, counts, groups, Record}

pub record Registry : Type 0 where
  pub schemas : Dict Bytes Bytes

abbrev pub new_registry : Registry
new_registry = record { schemas = [] }

unfoldable pub register : Bytes → Bytes → Registry → Registry
register name schema r = record r { schemas = insert name schema r.schemas }

unfoldable pub get : Bytes → Registry → Option Bytes
get name r = lookup name r.schemas

unfoldable pub split_and_trim : Bytes → ℕ → List Bytes
split_and_trim s sep = filter (λ t. not (is_blank t)) (map trim_space (split_by sep s))

-- `s[1 : len(s)-1]` of a text behind its first byte, and whether the last byte is a brace.
abbrev pub but_last : Bytes → Bytes
but_last [] = []
but_last (c ∷ []) = []
but_last (c ∷ d ∷ cs) = c ∷ but_last (d ∷ cs)

abbrev pub ends_in_brace : Bytes → Bool
ends_in_brace [] = false
ends_in_brace (c ∷ []) = c == b'}'
ends_in_brace (c ∷ d ∷ cs) = ends_in_brace (d ∷ cs)

unfoldable pub trim_braces : Bytes → Bytes
trim_braces [] = []
trim_braces (c ∷ cs) = if (c == b'{') && ends_in_brace cs then but_last cs else c ∷ cs

abbrev pub add_field : List Bytes → Dict Bytes Bytes → Dict Bytes Bytes
add_field [] out = out
add_field (k ∷ []) out = out
add_field (k ∷ typ ∷ []) out = insert k typ out
add_field (k ∷ typ ∷ x ∷ xs) out = out

unfoldable pub add_fields : List Bytes → Dict Bytes Bytes → Dict Bytes Bytes
unfolding split_and_trim
add_fields [] out = out
add_fields (p ∷ ps) out = add_fields ps (add_field (split_and_trim p b':') out)

unfoldable pub split_schema : Bytes → Dict Bytes Bytes
unfolding trim_braces split_and_trim add_fields
split_schema s =
    let inner = trim_braces s in
    if is_blank inner then [] else add_fields (split_and_trim inner b',') []

module _ (w : Floats) where
  abbrev pub is_int : Value w → Bool
  is_int (int n) = true
  is_int (text t) = false
  is_int (float x) = false
  is_int (opaque o) = false
  is_int (counts c) = false
  is_int (groups g) = false

  abbrev pub is_string : Value w → Bool
  is_string (text t) = true
  is_string (int n) = false
  is_string (float x) = false
  is_string (opaque o) = false
  is_string (counts c) = false
  is_string (groups g) = false

  -- Any other type is not checked.
  abbrev pub has_type : Bytes → Option (Value w) → Bool
  has_type typ none = false
  has_type typ (some v) =
      if same_bytes typ (ascii "int")
      then is_int v
      else if same_bytes typ (ascii "string")
      then is_string v
      else true

  -- The first field that does not fit ends the loop; in which order they come makes no difference.
  unfoldable pub check_fields : Dict Bytes Bytes → Record w → Bool
  check_fields [] r = true
  check_fields ((k, typ) ∷ m) r = has_type typ (lookup k r) && check_fields m r

  abbrev pub validate_by : Option Bytes → Record w → Bool
  validate_by none r = false
  validate_by (some s) r = if is_blank s then true else check_fields (split_schema s) r

  unfoldable pub validate : Bytes → Record w → Registry → Bool
  unfolding get check_fields split_schema
  validate name r reg = validate_by (get name reg) r
