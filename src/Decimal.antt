-- ===== src/Decimal.antt =====
-- `fmt.Sprintf("%d", v)` and `fmt.Sscanf(s, "%d", &v)` of an int64.
pub mod Laws
use stream_flow.Prelude.{
  ℕ, zero, suc, ◌+◌, ◌-◌, ◌*◌, ◌/◌, ◌%◌, ◌^◌, ◌<◌, Bool, ◌&&◌, Option, none, some, List, [], ◌∷◌,
  ◌++◌, Bytes, ltb, leb, ◌==◌, if◌then◌else◌,
}
use stream_flow.Int64.{is_neg}

-- At most `fuel` digits; twenty are enough for any number below 2 ^ 64.
unfoldable pub digits : ℕ → ℕ → Bytes
digits zero n = []
digits (suc fuel) n =
    let front = digits fuel (n / 10) in
    if ltb n 10 then (b'0' + n) ∷ [] else front ++ ((b'0' + n % 10) ∷ [])

unfoldable pub print_int64 : ℕ → Bytes
unfolding digits
print_int64 v = if is_neg v then b'-' ∷ digits 20 (2 ^ 64 - v) else digits 20 v

abbrev pub is_digit : ℕ → Bool
is_digit c = leb b'0' c && leb c b'9'

-- The digits in front, read behind those that gave `acc`.
unfoldable pub scan_digits : ℕ → Bytes → ℕ
scan_digits acc [] = acc
scan_digits acc (c ∷ cs) = if is_digit c then scan_digits (acc * 10 + (c - b'0')) cs else acc

-- An unsigned number of at most `limit`, which begins with a digit.
unfoldable pub scan_below : ℕ → Bytes → Option ℕ
unfolding scan_digits
scan_below limit [] = none
scan_below limit (c ∷ cs) =
    if is_digit c
    then (if leb (scan_digits 0 (c ∷ cs)) limit then some (scan_digits 0 (c ∷ cs)) else none)
    else none

unfoldable pub negated : Option ℕ → Option ℕ
negated none = none
negated (some zero) = some 0
negated (some (suc n)) = some (2 ^ 64 - suc n)

unfoldable pub scan_signed : Bytes → Option ℕ
unfolding scan_below negated
scan_signed [] = none
scan_signed (c ∷ cs) =
    if c == b'-'
    then negated (scan_below (2 ^ 63) cs)
    else if c == b'+'
    then scan_below (2 ^ 63 - 1) cs
    else scan_below (2 ^ 63 - 1) (c ∷ cs)

-- Leading blanks are skipped.
unfoldable pub scan_int64 : Bytes → Option ℕ
unfolding scan_signed
scan_int64 [] = none
scan_int64 (c ∷ cs) = let rest = scan_int64 cs in if c == b' ' then rest else scan_signed (c ∷ cs)
