-- ===== src/Decimal/Laws.antt =====
-- What was printed is scanned back.
use stream_flow.Prelude.{
  ℕ, zero, suc, ◌+◌, ◌-◌, ◌*◌, ◌/◌, ◌%◌, ◌^◌, ◌≤◌, ◌<◌, ◌≡◌, refl, ap, ◌∙◌, true, false, some, [],
  ◌∷◌, ◌++◌, Bytes, ltb, ◌==◌, arith, Bool-cases, inl, inr, ltb→lt, sym,
}
use native.Mathlib.Nat.{pow-suc}
use mathlib.Core.List.{append_assoc, append-nil}
use stream_flow.Int64.{IsInt64, is_neg}
use stream_flow.Decimal.{
  digits, print_int64, is_digit, scan_digits, scan_below, scan_int64, negated,
}

scan_digit :
    (acc d : ℕ) (rest : Bytes)
    → d < 10
    → scan_digits acc ((b'0' + d) ∷ rest) ≡ scan_digits (acc * 10 + d) rest
unfolding scan_digits
scan_digit acc d rest h =
    let back : b'0' + d - b'0' ≡ d = omega arith in
    let yes' : is_digit (b'0' + d) ≡ true = ground arith in rw (yes', back)

-- The digits of a number, and then the rest.
scan_digits-digits :
    (fuel n : ℕ) (rest : Bytes)
    → n < 10 ^ fuel
    → scan_digits 0 (digits fuel n ++ rest) ≡ scan_digits n rest
unfolding digits
scan_digits-digits zero n rest h = let e : n ≡ 0 = omega arith in rw e
scan_digits-digits (suc fuel) n rest h = elim (Bool-cases (ltb n 10)) [
  | inl small ↦
      let e : 0 * 10 + n ≡ n = omega arith in
      rw small (scan_digit 0 n rest (ltb→lt n 10 small) ∙ ap (λ k. scan_digits k rest) e)
  | inr large ↦
      let e : n / 10 * 10 + n % 10 ≡ n = omega arith in
      rw (large, append_assoc)
        (scan_digits-digits fuel (n / 10) ((b'0' + n % 10) ∷ rest) (omega (arith, pow-suc 10 fuel))
          ∙ scan_digit (n / 10) (n % 10) rest (omega arith)
          ∙ ap (λ k. scan_digits k rest) e)
]

scan_digits-nil : (acc : ℕ) → scan_digits acc [] ≡ acc
unfolding scan_digits
scan_digits-nil acc = refl

-- A number begins with a digit.
digits_head :
    (fuel n : ℕ) → (c : ℕ) × (cs : Bytes) × (digits (suc fuel) n ≡ c ∷ cs) × (is_digit c ≡ true)
unfolding digits
digits_head zero n = elim (Bool-cases (ltb n 10)) [
  | inl small ↦ (b'0' + n, [], rw small, ground arith)
  | inr large ↦ (b'0' + n % 10, [], rw large, ground arith)
]
digits_head (suc fuel) n = elim (Bool-cases (ltb n 10)) [
  | inl small ↦ (b'0' + n, [], rw small, ground arith)
  | inr large ↦
      let (c, cs, e, d) = digits_head fuel (n / 10) in
      (c, cs ++ ((b'0' + n % 10) ∷ []), rw large (ap (λ l. l ++ ((b'0' + n % 10) ∷ [])) e), d)
]

scan_below-some :
    (limit c n : ℕ) (cs : Bytes)
    → is_digit c ≡ true
    → scan_digits 0 (c ∷ cs) ≡ n
    → n ≤ limit
    → scan_below limit (c ∷ cs) ≡ some n
unfolding scan_below
scan_below-some limit c n cs d e h = ground arith

scan_below-digits :
    (limit n : ℕ) → n < 10 ^ 20 → n ≤ limit → scan_below limit (digits 20 n) ≡ some n
scan_below-digits limit n small h =
    let (c, cs, e, d) = digits_head 19 n in
    ap (scan_below limit) e
    ∙ scan_below-some limit c n cs d
        (ap (scan_digits 0) (sym e ∙ sym (append-nil (digits 20 n)))
          ∙ scan_digits-digits 20 n [] small
          ∙ scan_digits-nil n)
        h

negated-some : (n : ℕ) → 0 < n → negated (some n) ≡ some (2 ^ 64 - n)
unfolding negated
negated-some zero h = absurd (omega arith)
negated-some (suc n) h = refl

pub scan_int64-print_int64 : (v : ℕ) → IsInt64 v → scan_int64 (print_int64 v) ≡ some v
unfolding scan_int64 print_int64
scan_int64-print_int64 v h = elim (Bool-cases (is_neg v)) [
  | inl neg ↦
      let back : 2 ^ 64 - (2 ^ 64 - v) ≡ v = omega arith in
      rw neg (
        ap negated (scan_below-digits (2 ^ 63) (2 ^ 64 - v) (ground arith) (ground arith))
        ∙ negated-some (2 ^ 64 - v) (omega arith)
        ∙ ap some back)
  | inr nonneg ↦
      let (c, cs, e, d) = digits_head 19 v in
      let blank : (c == b' ') ≡ false = ground arith in
      let minus : (c == b'-') ≡ false = ground arith in
      let plus : (c == b'+') ≡ false = ground arith in
      rw (nonneg, e, blank, minus, plus)
        (ap (scan_below (2 ^ 63 - 1)) (sym e)
          ∙ scan_below-digits (2 ^ 63 - 1) v (ground arith) (ground arith))
]

pub digits_injective : (m n : ℕ) → m < 10 ^ 20 → n < 10 ^ 20 → digits 20 m ≡ digits 20 n → m ≡ n
digits_injective m n h k e =
    sym (scan_digits-nil m)
    ∙ sym (scan_digits-digits 20 m [] h)
    ∙ ap (λ l. scan_digits 0 (l ++ [])) e
    ∙ scan_digits-digits 20 n [] k
    ∙ scan_digits-nil n
