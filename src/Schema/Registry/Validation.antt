-- ===== src/Schema/Registry/Validation.antt =====
-- Which records a schema accepts.
use stream_flow.Prelude.{
  ℕ, ap, ◌∙◌, sym, Option, none, ascii, ◌≡◌, ◌↔◌, inl, inr, refl, subst, Bool, true, some, List, [],
  ◌∷◌, Bytes, bytes_key, same_bytes, same_bytes_iff, arith, Bool-cases, ◌&&◌,
}
use stream_flow.Dict.{Dict, lookup, IsDistinct}
use stream_flow.Dict.Laws.{insert-IsDistinct, lookup-insert_self}
use stream_flow.Dict.Cases.{lookup-first, lookup-later}
use stream_flow.Text.{is_blank}
use stream_flow.Processor.Values.{Floats, Value, text, int, float, opaque, counts, groups, Record}
use stream_flow.Schema.Registry.Texts.{IsPlainSchema, schema_text, lookup-split_schema}
use stream_flow.Schema.Registry.{
  Registry, register, get, split_and_trim, trim_braces, add_field, add_fields, split_schema, is_int,
  is_string, has_type, check_fields, validate_by, validate,
}

add_field-IsDistinct :
    (ps : List Bytes) (m : Dict Bytes Bytes) → IsDistinct m → IsDistinct (add_field ps m)
add_field-IsDistinct [] m d = d
add_field-IsDistinct (k ∷ []) m d = d
add_field-IsDistinct (k ∷ typ ∷ []) m d = insert-IsDistinct k typ m d
add_field-IsDistinct (k ∷ typ ∷ x ∷ xs) m d = d

add_fields-IsDistinct :
    (ps : List Bytes) (m : Dict Bytes Bytes) → IsDistinct m → IsDistinct (add_fields ps m)
unfolding add_fields
add_fields-IsDistinct [] m d = d
add_fields-IsDistinct (p ∷ ps) m d =
    add_fields-IsDistinct ps _ (add_field-IsDistinct (split_and_trim p b':') m d)

split_schema-IsDistinct : (s : Bytes) → IsDistinct (split_schema s)
unfolding split_schema
split_schema-IsDistinct s = elim (Bool-cases (is_blank (trim_braces s))) [
  | inl e ↦ rw e tt
  | inr e ↦ rw e (add_fields-IsDistinct (split_and_trim (trim_braces s) b',') [] tt)
]

&&_true : (a b : Bool) → ((a && b) ≡ true) ↔ ((a ≡ true) × (b ≡ true))
&&_true a b = ground arith

module _ (w : Floats) where
  -- An int where the type is int, a string where it is string.
  abbrev pub HasType : Bytes → Value w → Type 0
  HasType typ v =
      (typ ≡ ascii "int" → (n : ℕ) × (v ≡ int n))
      × (typ ≡ ascii "string" → (t : Bytes) × (v ≡ text t))

  -- Every declared field is in the record with a value of its type.
  abbrev pub Fits : Dict Bytes Bytes → Record w → Type 0
  Fits m r =
      (k typ : Bytes)
      → lookup k m ≡ some typ
      → (v : Value w) × (lookup k r ≡ some v) × HasType typ v

  -- The same by the test of the code.
  abbrev Passes : Dict Bytes Bytes → Record w → Type 0
  Passes m r = (k typ : Bytes) → lookup k m ≡ some typ → has_type w typ (lookup k r) ≡ true

  is_int-int : (v : Value w) → is_int w v ≡ true → (n : ℕ) × (v ≡ int n)
  is_int-int (int n) h = (n, refl)
  is_int-int (text t) h = absurd (cc)
  is_int-int (float x) h = absurd (cc)
  is_int-int (opaque o) h = absurd (cc)
  is_int-int (counts c) h = absurd (cc)
  is_int-int (groups g) h = absurd (cc)

  is_string-text : (v : Value w) → is_string w v ≡ true → (t : Bytes) × (v ≡ text t)
  is_string-text (text t) h = (t, refl)
  is_string-text (int n) h = absurd (cc)
  is_string-text (float x) h = absurd (cc)
  is_string-text (opaque o) h = absurd (cc)
  is_string-text (counts c) h = absurd (cc)
  is_string-text (groups g) h = absurd (cc)

  has_type-HasType : (typ : Bytes) (v : Value w) → has_type w typ (some v) ≡ true → HasType typ v
  has_type-HasType typ v h = (
    λ e. is_int-int v (ground (arith, h, e, same_bytes_iff typ (ascii "int"))),
    λ e. is_string-text v (ap (λ x. has_type w x (some v)) (sym e) ∙ h),
  )

  HasType-has_type : (typ : Bytes) (v : Value w) → HasType typ v → has_type w typ (some v) ≡ true
  HasType-has_type typ v (ints, strings) = elim (Bool-cases (same_bytes typ (ascii "int"))) [
    | inl e ↦
        let (n, same) = ints ((same_bytes_iff typ (ascii "int")).0 e) in rw e (ap (is_int w) same)
    | inr e ↦ elim (Bool-cases (same_bytes typ (ascii "string"))) [
      | inl f ↦
          let (t, same) = strings ((same_bytes_iff typ (ascii "string")).0 f) in
          rw (e, f) (ap (is_string w) same)
      | inr f ↦ rw (e, f) refl
    ]
  ]

  passes_type :
      (typ : Bytes) (o : Option (Value w))
      → (has_type w typ o ≡ true) ↔ ((v : Value w) × (o ≡ some v) × HasType typ v)
  passes_type typ none = (λ h. absurd (cc), λ (v, e, h). absurd (cc))
  passes_type typ (some v) = (
    λ h. (v, refl, has_type-HasType typ v h),
    λ (u, e, h). ap (has_type w typ) e ∙ HasType-has_type typ u h,
  )

  check_fields-Passes :
      (m : Dict Bytes Bytes) (r : Record w)
      → IsDistinct m
      → (check_fields w m r ≡ true) ↔ Passes m r
  unfolding check_fields lookup
  check_fields-Passes [] r d = (λ h k typ e. ground arith, λ h. refl)
  check_fields-Passes ((k, typ) ∷ m) r d = (
    λ h k' typ' e.
        let (here, others) = (&&_true (has_type w typ (lookup k r)) (check_fields w m r)).0 h in
        elim (Bool-cases (same_bytes k k')) [
          | inl same ↦
              subst (λ x. has_type w typ' (lookup x r) ≡ true) ((same_bytes_iff k k').0 same)
                (subst (λ y. has_type w y (lookup k r) ≡ true) {x = typ} {y = typ'}
                  (ground (arith, same, e)) here)
          | inr other ↦ (check_fields-Passes m r d.1).0 others k' typ' (ground (arith, other, e))
        ],
    λ f. (&&_true (has_type w typ (lookup k r)) (check_fields w m r)).1 (
      f k typ (lookup-first k typ m),
      (check_fields-Passes m r d.1).1
          (λ k' typ' e. f k' typ' (lookup-later k typ m d.0 k' typ' e).1),
    ),
  )

  validate_by-Passes :
      (schema : Bytes) (r : Record w)
      → (validate_by w (some schema) r ≡ true) ↔ Passes (split_schema schema) r
  unfolding split_schema trim_braces lookup
  validate_by-Passes [] r = (λ h k typ e. ground arith, λ h. refl)
  validate_by-Passes (c ∷ cs) r =
      check_fields-Passes (split_schema (c ∷ cs)) r (split_schema-IsDistinct (c ∷ cs))

  -- Right after a schema was registered under a name as the text that declares some fields with
  -- their types, which are distinct fields, and fields and types that are not empty and hold no
  -- white space, comma or colon, a record is valid for that name just when every one of the fields
  -- is in the record, with an int where the type is int and a string where it is string.
  pub validate-register :
      (name : Bytes) (fields : Dict Bytes Bytes) (reg : Registry) (r : Record w)
      → IsPlainSchema fields
      → IsDistinct fields
      → (validate w name r (register name (schema_text fields) reg) ≡ true) ↔ Fits fields r
  unfolding validate register get
  validate-register name fields reg r plain distinct =
      let same = λ (k : Bytes). lookup-split_schema k fields plain distinct in
      let (to, from) : (validate_by w (some (schema_text fields)) r ≡ true)
          ↔ Passes (split_schema (schema_text fields)) r =
        validate_by-Passes (schema_text fields) r in
      rw (lookup-insert_self name (schema_text fields) reg.schemas) (
        λ h k typ e. (passes_type typ (lookup k r)).0 (to h k typ (same k ∙ e)),
        λ f. from (λ k typ e. (passes_type typ (lookup k r)).1 (f k typ (sym (same k) ∙ e))),
      )
