-- ===== src/Schema/Advanced.antt =====
-- schema/advanced_registry.go: the versions of schemas by name.
pub mod Versions
use stream_flow.Prelude.{
  ℕ, suc, Bool, true, false, ◌||◌, Option, none, some, List, [], ◌∷◌, ◌++◌, Bytes, length,
  get_last?, leb, ascii, bytes_key, same_bytes, if◌then◌else◌,
}
use stream_flow.Prelude.Action.{Result, ok, err}
use stream_flow.Dict.{Dict, lookup, insert}
use stream_flow.Int64.{add}

-- A `SchemaFormat` is any string; these three are supported.
abbrev pub is_supported : Bytes → Bool
is_supported format =
    same_bytes format (ascii "jsonschema")
    || (same_bytes format (ascii "avro") || same_bytes format (ascii "protobuf"))

pub record SchemaVersion : Type 0 where
  pub id : ℕ
  pub name : Bytes
  pub format : Bytes
  pub content : Bytes

pub record AdvancedRegistry : Type 0 where
  pub next_id : ℕ
  pub versions : Dict Bytes (List SchemaVersion)

abbrev pub new_advanced_registry : AdvancedRegistry
new_advanced_registry = record { next_id = 1; versions = [] }

pub data Error : Type 0 where
  required unsupported incompatible : Error

abbrev pub is_empty {ℓ} : {A : Type ℓ} → List A → Bool
is_empty [] = true
is_empty (x ∷ xs) = false

abbrev pub is_backward_compatible : Bytes → Bytes → Bool
is_backward_compatible old new = if is_empty old then true else leb (length old) (length new)

abbrev pub versions_of : Option (List SchemaVersion) → List SchemaVersion
versions_of none = []
versions_of (some vs) = vs

abbrev pub is_compatible : Option SchemaVersion → Bytes → Bool
is_compatible none content = true
is_compatible (some last) content = is_backward_compatible last.content content

abbrev pub new_version : AdvancedRegistry → Bytes → Bytes → Bytes → SchemaVersion
new_version r name format content = record {
  id = r.next_id;
  name = name;
  format = format;
  content = content;
}

unfoldable pub register :
    Bytes → Bytes → Bytes → AdvancedRegistry → AdvancedRegistry × Result Error SchemaVersion
register name format content r =
    let vs = versions_of (lookup name r.versions) in
    let v = new_version r name format content in
    if is_empty name || is_empty content
    then (r, err required)
    else if is_supported format
    then (if is_compatible (get_last? vs) content
        then (
          record { next_id = add r.next_id 1; versions = insert name (vs ++ (v ∷ [])) r.versions },
          ok v,
        )
        else (r, err incompatible))
    else (r, err unsupported)

unfoldable pub latest : Bytes → AdvancedRegistry → Option SchemaVersion
latest name r = get_last? (versions_of (lookup name r.versions))
