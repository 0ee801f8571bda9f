-- ===== src/Text.antt =====
-- What the code uses of packages strings and strconv, on ASCII text.
pub mod Laws
use stream_flow.Prelude.{
  ℕ, ◌+◌, ◌-◌, ◌*◌, ◌^◌, Bool, true, false, ◌&&◌, ◌||◌, Option, none, some, List, [], ◌∷◌, ◌++◌,
  Bytes, leb, ◌==◌, map, if◌then◌else◌,
}
use stream_flow.Decimal.{is_digit, negated}

-- `strings.ToLower`
abbrev pub lower_byte : ℕ → ℕ
lower_byte c = if leb b'A' c && leb c b'Z' then c + 32 else c

abbrev pub to_lower : Bytes → Bytes
to_lower s = map lower_byte s

-- `strings.HasPrefix(s, prefix)`
unfoldable pub has_prefix : Bytes → Bytes → Bool
has_prefix s [] = true
has_prefix [] (p ∷ ps) = false
has_prefix (c ∷ cs) (p ∷ ps) = (c == p) && has_prefix cs ps

-- `strings.Contains(s, sub)`
unfoldable pub contains_text : Bytes → Bytes → Bool
unfolding has_prefix
contains_text [] sub = has_prefix [] sub
contains_text (c ∷ cs) sub = has_prefix (c ∷ cs) sub || contains_text cs sub

abbrev pub is_space : ℕ → Bool
is_space c = (c == 32) || (leb 9 c && leb c 13)

-- `strings.TrimSpace`
unfoldable pub trim_left : Bytes → Bytes
trim_left [] = []
trim_left (c ∷ cs) = if is_space c then trim_left cs else c ∷ cs

abbrev pub drop_if_blank : ℕ → Bytes → Bytes
drop_if_blank c [] = if is_space c then [] else c ∷ []
drop_if_blank c (d ∷ ds) = c ∷ d ∷ ds

unfoldable pub trim_right : Bytes → Bytes
trim_right [] = []
trim_right (c ∷ cs) = drop_if_blank c (trim_right cs)

unfoldable pub trim_space : Bytes → Bytes
unfolding trim_left trim_right
trim_space s = trim_right (trim_left s)

-- The digits of a number and nothing else.
unfoldable pub parse_digits : ℕ → Bytes → Option ℕ
parse_digits acc [] = some acc
parse_digits acc (c ∷ cs) =
    let rest = parse_digits (acc * 10 + (c - b'0')) cs in if is_digit c then rest else none

abbrev pub parse_below : ℕ → Bytes → Option ℕ
parse_below limit [] = none
parse_below limit (c ∷ cs) = elim (parse_digits 0 (c ∷ cs)) [
  | none ↦ none
  | some n ↦ if leb n limit then some n else none
]

-- `strconv.ParseInt(s, 10, 64)` and `strconv.Atoi(s)`, as an int64.
unfoldable pub parse_int64 : Bytes → Option ℕ
unfolding parse_digits
parse_int64 [] = none
parse_int64 (c ∷ cs) =
    if c == b'-'
    then negated (parse_below (2 ^ 63) cs)
    else if c == b'+'
    then parse_below (2 ^ 63 - 1) cs
    else parse_below (2 ^ 63 - 1) (c ∷ cs)

-- `strings.Split(s, sep)` by one byte; the result has at least one element.
abbrev pub cons_first : ℕ → List Bytes → List Bytes
cons_first c [] = (c ∷ []) ∷ []
cons_first c (s ∷ ss) = (c ∷ s) ∷ ss

unfoldable pub split_by : ℕ → Bytes → List Bytes
split_by sep [] = [] ∷ []
split_by sep (c ∷ cs) =
    let rest = split_by sep cs in if c == sep then [] ∷ rest else cons_first c rest

abbrev pub is_blank : Bytes → Bool
is_blank [] = true
is_blank (c ∷ cs) = false

-- `strings.Fields(s)`: the words between blanks.
unfoldable pub words_from : Bytes → Bytes → List Bytes
words_from word [] = if is_blank word then [] else word ∷ []
words_from word (c ∷ cs) =
    let next = words_from [] cs in
    let longer = words_from (word ++ (c ∷ [])) cs in
    if is_space c then (if is_blank word then next else word ∷ next) else longer

unfoldable pub fields : Bytes → List Bytes
unfolding words_from
fields s = words_from [] s

-- `strings.Join(words, " ")`
unfoldable pub join_words : List Bytes → Bytes
join_words [] = []
join_words (w ∷ []) = w
join_words (w ∷ v ∷ ws) = w ++ (32 ∷ join_words (v ∷ ws))

-- `strings.Trim(s, "'\"")`
abbrev pub is_quote : ℕ → Bool
is_quote c = (c == 39) || (c == 34)

unfoldable pub trim_quotes_left : Bytes → Bytes
trim_quotes_left [] = []
trim_quotes_left (c ∷ cs) = if is_quote c then trim_quotes_left cs else c ∷ cs

abbrev pub drop_if_quote : ℕ → Bytes → Bytes
drop_if_quote c [] = if is_quote c then [] else c ∷ []
drop_if_quote c (d ∷ ds) = c ∷ d ∷ ds

unfoldable pub trim_quotes_right : Bytes → Bytes
trim_quotes_right [] = []
trim_quotes_right (c ∷ cs) = drop_if_quote c (trim_quotes_right cs)

unfoldable pub trim_quotes : Bytes → Bytes
unfolding trim_quotes_left trim_quotes_right
trim_quotes s = trim_quotes_right (trim_quotes_left s)
