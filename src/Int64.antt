-- ===== src/Int64.antt =====
-- Go's int64, as the bit pattern of its two's complement: a number below 2 ^ 64. The pattern of a
-- negative number is at least 2 ^ 63. Also the big-endian bytes of broker/types.go and of the
-- standard encoding/binary.
pub mod Encoding
use stream_flow.Prelude.{
  ℕ, zero, suc, ◌+◌, ◌*◌, ◌/◌, ◌^◌, ◌%◌, ◌<◌, Bool, true, false, List, [], ◌∷◌, Bytes, ltb, leb,
  if◌then◌else◌,
}

abbrev pub IsInt64 : ℕ → Type 0
IsInt64 a = a < 2 ^ 64

abbrev pub IsByte : ℕ → Type 0
IsByte b = b < 256

abbrev pub is_neg : ℕ → Bool
is_neg a = leb (2 ^ 63) a

-- a < b, signed.
abbrev pub less : ℕ → ℕ → Bool
less a b =
    if is_neg a then (if is_neg b then ltb a b else true) else (if is_neg b then false else ltb a b)

-- a + b, wrapping around.
abbrev pub add : ℕ → ℕ → ℕ
add a b = (a + b) % 2 ^ 64

-- a <= 0, as in the guards that replace a bad limit by a default.
abbrev pub is_not_positive : ℕ → Bool
is_not_positive a = if is_neg a then true else leb a 0

-- The rounds `n - 1, …, 0` of `b = append(b, byte(v >> (8 * i)))`.
unfoldable pub put_bytes : ℕ → ℕ → Bytes
put_bytes zero v = []
put_bytes (suc i) v = (v / 2 ^ (8 * i) % 256) ∷ put_bytes i v

-- At most `n` rounds of `v = (v << 8) | int64(b[i])`, which end with the bytes. The low eight bits
-- of `v << 8` are 0, so the `|` is a sum.
unfoldable pub get_bytes : ℕ → ℕ → Bytes → ℕ
get_bytes zero v bs = v
get_bytes (suc n) v [] = v
get_bytes (suc n) v (b ∷ bs) = get_bytes n (v * 256 % 2 ^ 64 + b) bs

unfoldable pub int64_to_bytes : ℕ → Bytes
unfolding put_bytes
int64_to_bytes v = put_bytes 8 v

unfoldable pub bytes_to_int64 : Bytes → ℕ
unfolding get_bytes
bytes_to_int64 bs = get_bytes 8 0 bs

-- `binary.BigEndian.PutUint32` of a `uint32`, or the four shifts written out, and its reader.
unfoldable pub put_uint32 : ℕ → Bytes
unfolding put_bytes
put_uint32 v = put_bytes 4 v

unfoldable pub get_uint32 : Bytes → ℕ
unfolding get_bytes
get_uint32 bs = get_bytes 4 0 bs
