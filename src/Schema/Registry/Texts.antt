-- ===== src/Schema/Registry/Texts.antt =====
-- Schemas printed from their fields, which are read back.
use stream_flow.Prelude.{
  ℕ, ◌≡◌, refl, sym, ap, ◌∙◌, Bool, true, false, ◌||◌, Option, none, some, [], ◌∷◌, ◌++◌, Bytes,
  All, map, bytes_key, same_bytes, same_bytes_iff, ◌==◌, arith, if◌then◌else◌,
}
use stream_flow.Dict.{Dict, lookup, insert, IsDistinct}
use stream_flow.Dict.Laws.{lookup-insert}
use stream_flow.Text.{is_space, is_blank}
use stream_flow.Text.Laws.{IsFree, trim_space-IsFree, split_by-part, split_by-last}
use stream_flow.Schema.Registry.{
  but_last, ends_in_brace, trim_braces, split_and_trim, add_field, add_fields, split_schema,
}

-- White space, a comma or a colon.
abbrev pub is_mark : ℕ → Bool
is_mark c = is_space c || (c == b',' || c == b':')

pub record IsPlainText (s : Bytes) : Type 0 where
  pub some_bytes : is_blank s ≡ false
  pub free : IsFree is_mark s

abbrev pub part : Bytes × Bytes → Bytes
part (k, typ) = k ++ (b':' ∷ typ)

abbrev pub fields_text : Dict Bytes Bytes → Bytes
fields_text [] = []
fields_text (f ∷ []) = part f
fields_text (f ∷ g ∷ m) = part f ++ (b',' ∷ fields_text (g ∷ m))

-- `{name:type,name:type}`
abbrev pub schema_text : Dict Bytes Bytes → Bytes
schema_text m = b'{' ∷ (fields_text m ++ (b'}' ∷ []))

-- The names and types are plain texts.
abbrev pub IsPlainSchema : Dict Bytes Bytes → Type 0
IsPlainSchema m = All (λ f. IsPlainText f.0 × IsPlainText f.1) m

abbrev or_else : Option Bytes → Option Bytes → Option Bytes
or_else none b = b
or_else (some a) b = some a

but_last-brace : (s : Bytes) → but_last (s ++ (b'}' ∷ [])) ≡ s
but_last-brace [] = refl
but_last-brace (c ∷ []) = refl
but_last-brace (c ∷ d ∷ s) = ap (λ l. c ∷ l) (but_last-brace (d ∷ s))

ends_in_brace-brace : (s : Bytes) → ends_in_brace (s ++ (b'}' ∷ [])) ≡ true
ends_in_brace-brace [] = refl
ends_in_brace-brace (c ∷ []) = refl
ends_in_brace-brace (c ∷ d ∷ s) = ends_in_brace-brace (d ∷ s)

trim_braces-schema_text : (m : Dict Bytes Bytes) → trim_braces (schema_text m) ≡ fields_text m
unfolding trim_braces
trim_braces-schema_text m =
    rw (ends_in_brace-brace (fields_text m)) (but_last-brace (fields_text m))

IsFree-append : (p : ℕ → Bool) (s t : Bytes) → IsFree p s → IsFree p t → IsFree p (s ++ t)
IsFree-append p [] t h k = k
IsFree-append p (c ∷ s) t h k = (h.0, IsFree-append p s t h.1 k)

IsFree-is_mark :
    (p : ℕ → Bool) (s : Bytes)
    → ((c : ℕ) → is_mark c ≡ false → p c ≡ false)
    → IsFree is_mark s
    → IsFree p s
IsFree-is_mark p [] f h = tt
IsFree-is_mark p (c ∷ s) f h = (f c h.0, IsFree-is_mark p s f h.1)

no_space : (s : Bytes) → IsFree is_mark s → IsFree is_space s
no_space s = IsFree-is_mark is_space s (λ c h. ground (arith, h))

no_comma : (s : Bytes) → IsFree is_mark s → IsFree (λ c. c == b',') s
no_comma s = IsFree-is_mark (λ c. c == b',') s (λ c h. ground (arith, h))

no_colon : (s : Bytes) → IsFree is_mark s → IsFree (λ c. c == b':') s
no_colon s = IsFree-is_mark (λ c. c == b':') s (λ c h. ground (arith, h))

module _ (f : Bytes × Bytes) (plain : IsPlainText f.0 × IsPlainText f.1) where
  part_no_comma : IsFree (λ c. c == b',') (part f)
  part_no_comma =
      IsFree-append (λ c. c == b',') f.0 (b':' ∷ f.1) (no_comma f.0 plain.0.free)
        (refl, no_comma f.1 plain.1.free)

  part_no_space : IsFree is_space (part f)
  part_no_space =
      IsFree-append is_space f.0 (b':' ∷ f.1) (no_space f.0 plain.0.free)
        (refl, no_space f.1 plain.1.free)

  split_and_trim-part : split_and_trim (part f) b':' ≡ f.0 ∷ f.1 ∷ []
  unfolding split_and_trim
  split_and_trim-part =
      rw
        (
          split_by-part b':' f.0 f.1 (no_colon f.0 plain.0.free),
          split_by-last b':' f.1 (no_colon f.1 plain.1.free),
          trim_space-IsFree f.0 (no_space f.0 plain.0.free),
          trim_space-IsFree f.1 (no_space f.1 plain.1.free),
          plain.0.some_bytes,
          plain.1.some_bytes,
        )
        refl

part_here : (f : Bytes × Bytes) → IsPlainText f.0 → is_blank (part f) ≡ false
part_here ([], typ) h = refl
part_here (c ∷ k, typ) h = refl

split_and_trim-fields_text :
    (f : Bytes × Bytes) (m : Dict Bytes Bytes)
    → IsPlainSchema (f ∷ m)
    → split_and_trim (fields_text (f ∷ m)) b',' ≡ map part (f ∷ m)
unfolding split_and_trim
split_and_trim-fields_text f [] h =
    rw
      (
        split_by-last b',' (part f) (part_no_comma f h.0),
        trim_space-IsFree (part f) (part_no_space f h.0),
        part_here f h.0.0,
      )
      refl
split_and_trim-fields_text f (g ∷ m) h =
    rw
      (
        split_by-part b',' (part f) (fields_text (g ∷ m)) (part_no_comma f h.0),
        trim_space-IsFree (part f) (part_no_space f h.0),
        part_here f h.0.0,
      )
      (ap (λ l. part f ∷ l) (split_and_trim-fields_text g m h.1))

first_found :
    (b : Bool) (o : Option Bytes) (typ : Bytes) (before : Option Bytes)
    → (b ≡ true → o ≡ none)
    → or_else o (if b then some typ else before) ≡ or_else (if b then some typ else o) before
first_found true o typ before h = ap (λ x. or_else x (some typ)) (h refl)
first_found false o typ before h = refl

-- What `add_fields` finds first in `m`, and else what was there.
lookup-add_fields :
    (k : Bytes) (m out : Dict Bytes Bytes)
    → IsPlainSchema m
    → IsDistinct m
    → lookup k (add_fields (map part m) out) ≡ or_else (lookup k m) (lookup k out)
unfolding add_fields lookup
lookup-add_fields k [] out h d = refl
lookup-add_fields k ((j, typ) ∷ m) out h d =
    ap (λ ps. lookup k (add_fields (map part m) (add_field ps out)))
      (split_and_trim-part (j, typ) h.0)
    ∙ lookup-add_fields k m (insert j typ out) h.1 d.1
    ∙ ap (or_else (lookup k m)) (lookup-insert j k typ out)
    ∙ first_found (same_bytes j k) (lookup k m) typ (lookup k out)
        (λ e. ap (λ (x : Bytes). lookup x m) (sym ((same_bytes_iff j k).0 e)) ∙ d.0)

if_not :
    (b : Bool) (k : Bytes) (m : Dict Bytes Bytes)
    → b ≡ false
    → lookup k (if b then [] else m) ≡ lookup k m
if_not b k m h = rw h refl

fields_here :
    (f : Bytes × Bytes) (m : Dict Bytes Bytes)
    → IsPlainText f.0
    → is_blank (fields_text (f ∷ m)) ≡ false
fields_here ([], typ) [] h = refl
fields_here (c ∷ k, typ) [] h = refl
fields_here ([], typ) (g ∷ m) h = refl
fields_here (c ∷ k, typ) (g ∷ m) h = refl

or_none : (o : Option Bytes) → or_else o none ≡ o
or_none none = refl
or_none (some a) = refl

-- A schema printed from plain fields declares just these.
pub lookup-split_schema :
    (k : Bytes) (m : Dict Bytes Bytes)
    → IsPlainSchema m
    → IsDistinct m
    → lookup k (split_schema (schema_text m)) ≡ lookup k m
unfolding split_schema lookup
lookup-split_schema k [] h d = refl
lookup-split_schema k (f ∷ m) h d =
    ap (λ i. lookup k (if is_blank i then [] else add_fields (split_and_trim i b',') []))
      (trim_braces-schema_text (f ∷ m))
    ∙ if_not (is_blank (fields_text (f ∷ m))) k
        (add_fields (split_and_trim (fields_text (f ∷ m)) b',') []) (fields_here f m h.0.0)
    ∙ ap (λ ps. lookup k (add_fields ps [])) (split_and_trim-fields_text f m h)
    ∙ lookup-add_fields k (f ∷ m) [] h d
    ∙ or_none (lookup k (f ∷ m))
