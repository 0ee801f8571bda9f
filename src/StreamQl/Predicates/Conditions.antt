-- ===== src/StreamQl/Predicates/Conditions.antt =====
-- Conditions of three words, what they say of a record, and that their texts compile to that.
use stream_flow.Prelude.{
  ℕ, ◌≡◌, refl, sym, ap, ◌∙◌, Bool, false, Option, none, some, [], ◌∷◌, ◌++◌, Bytes, ascii,
  bytes_key, same_bytes, ◌==◌, if◌then◌else◌,
}
use mathlib.Core.List.{append_assoc}
use stream_flow.Dict.{lookup}
use stream_flow.Int64.{less}
use stream_flow.Text.{is_space, is_quote, is_blank, trim_space, fields, join_words, parse_int64}
use stream_flow.Text.Laws.{
  IsFree, trim_space-append, words_from-word, words_from-last, trim_quotes-IsFree,
}
use stream_flow.Processor.Values.{Floats, Value, Record, text, int, float, opaque, counts, groups}
use stream_flow.StreamQl.Predicates.{
  is_equals, compare_if, test_value, predicate_of, compile_predicate,
}

pub data Comparison : Type 0 where
  equal equal_twice more fewer : Comparison

abbrev pub sign : Comparison → Bytes
sign equal = ascii "="
sign equal_twice = ascii "=="
sign more = ascii ">"
sign fewer = ascii "<"

abbrev pub compares : Comparison → ℕ → ℕ → Bool
compares equal a b = a == b
compares equal_twice a b = a == b
compares more a b = less b a
compares fewer a b = less a b

abbrev compares_text : Comparison → Bytes → Bytes → Bool
compares_text equal a b = same_bytes a b
compares_text equal_twice a b = same_bytes a b
compares_text more a b = false
compares_text fewer a b = false

-- A field, a comparison and an operand.
pub record Condition : Type 0 where
  pub field : Bytes
  pub comparison : Comparison
  pub operand : Bytes

abbrev pub condition_text : Condition → Bytes
condition_text k = k.field ++ (32 ∷ (sign k.comparison ++ (32 ∷ k.operand)))

-- Both words have no white space, and the operand no quotes.
pub record IsPlain (k : Condition) : Type 0 where
  pub named : is_blank k.field ≡ false
  pub one_name : IsFree is_space k.field
  pub given : is_blank k.operand ≡ false
  pub one_operand : IsFree is_space k.operand
  pub unquoted : IsFree is_quote k.operand

abbrev compares_if : Comparison → ℕ → Option ℕ → Bool
compares_if c n none = false
compares_if c n (some i) = compares c n i

module _ (w : Floats) where
  abbrev pub value_meets : Comparison → Bytes → Option (Value w) → Bool
  value_meets c operand none = false
  value_meets c operand (some (int n)) = compares_if c n (parse_int64 operand)
  value_meets c operand (some (text s)) = compares_text c s operand
  value_meets c operand (some (float x)) = false
  value_meets c operand (some (opaque o)) = false
  value_meets c operand (some (counts m)) = false
  value_meets c operand (some (groups g)) = false

  -- The field is an int that compares so with the operand read as an int64, or a string that is the
  -- operand where equality is asked.
  abbrev pub meets : Condition → Record w → Bool
  meets k r = value_meets k.comparison k.operand (lookup k.field r)

  sign-IsFree : (c : Comparison) → IsFree is_space (sign c)
  sign-IsFree equal = (refl, tt)
  sign-IsFree equal_twice = (refl, (refl, tt))
  sign-IsFree more = (refl, tt)
  sign-IsFree fewer = (refl, tt)

  sign_here : (c : Comparison) → is_blank (sign c) ≡ false
  sign_here equal = refl
  sign_here equal_twice = refl
  sign_here more = refl
  sign_here fewer = refl

  trim_space-condition_text :
      (k : Condition) → IsPlain k → trim_space (condition_text k) ≡ condition_text k
  trim_space-condition_text k p =
      let between = 32 ∷ (sign k.comparison ++ (32 ∷ [])) in
      let parts : k.field ++ (between ++ k.operand) ≡ condition_text k =
        ap (λ l. k.field ++ (32 ∷ l)) (append_assoc (sign k.comparison) (32 ∷ []) k.operand) in
      ap trim_space (sym parts)
      ∙ trim_space-append k.field between k.operand p.named p.one_name p.given p.one_operand
      ∙ parts

  is_blank-append : (s t : Bytes) → is_blank s ≡ false → is_blank (s ++ t) ≡ false
  is_blank-append [] t h = absurd (cc)
  is_blank-append (c ∷ s) t h = refl

  pub is_blank-condition_text :
      (k : Condition) → IsPlain k → is_blank (trim_space (condition_text k)) ≡ false
  is_blank-condition_text k p =
      ap is_blank (trim_space-condition_text k p)
      ∙ is_blank-append k.field (32 ∷ (sign k.comparison ++ (32 ∷ k.operand))) p.named

  fields-condition_text :
      (k : Condition)
      → IsPlain k
      → fields (trim_space (condition_text k)) ≡ k.field ∷ sign k.comparison ∷ k.operand ∷ []
  unfolding fields
  fields-condition_text k p =
      ap fields (trim_space-condition_text k p)
      ∙ words_from-word [] k.field (sign k.comparison ++ (32 ∷ k.operand)) p.named p.one_name
      ∙ ap (λ l. k.field ∷ l)
          (words_from-word [] (sign k.comparison) k.operand (sign_here k.comparison)
              (sign-IsFree k.comparison)
            ∙ ap (λ l. sign k.comparison ∷ l) (words_from-last [] k.operand p.given p.one_operand))

  compare_if-compares_if :
      (c : Comparison) (n : ℕ) (o : Option ℕ) → compare_if (sign c) n o ≡ compares_if c n o
  compare_if-compares_if c n none = refl
  compare_if-compares_if equal n (some i) = refl
  compare_if-compares_if equal_twice n (some i) = refl
  compare_if-compares_if more n (some i) = refl
  compare_if-compares_if fewer n (some i) = refl

  text-compares_text :
      (c : Comparison) (s operand : Bytes)
      → (if is_equals (sign c) then same_bytes s operand else false) ≡ compares_text c s operand
  text-compares_text equal s operand = refl
  text-compares_text equal_twice s operand = refl
  text-compares_text more s operand = refl
  text-compares_text fewer s operand = refl

  test_value-value_meets :
      (c : Comparison) (operand : Bytes) (v : Option (Value w))
      → test_value w (sign c) operand v ≡ value_meets c operand v
  unfolding test_value
  test_value-value_meets c operand none = refl
  test_value-value_meets c operand (some (int n)) = compare_if-compares_if c n (parse_int64 operand)
  test_value-value_meets c operand (some (text s)) = text-compares_text c s operand
  test_value-value_meets c operand (some (float x)) = refl
  test_value-value_meets c operand (some (opaque o)) = refl
  test_value-value_meets c operand (some (counts m)) = refl
  test_value-value_meets c operand (some (groups g)) = refl

  pub compile_predicate-meets :
      (k : Condition) (r : Record w)
      → IsPlain k
      → compile_predicate w (condition_text k) r ≡ meets k r
  unfolding compile_predicate predicate_of join_words
  compile_predicate-meets k r p =
      ap (λ ws. predicate_of w ws r) (fields-condition_text k p)
      ∙ ap (λ v. test_value w (sign k.comparison) v (lookup k.field r))
          (trim_quotes-IsFree k.operand p.unquoted)
      ∙ test_value-value_meets k.comparison k.operand (lookup k.field r)
