-- ===== src/Int64/Encoding.antt =====
-- Round trips of the big-endian encodings, both ways.
use stream_flow.Prelude.{ℕ, ◌^◌, ◌<◌, ◌≡◌, refl, ◌++◌, Bytes, arith, length}
use stream_flow.Int64.{IsInt64, int64_to_bytes, bytes_to_int64, put_uint32, get_uint32}

pub length-int64_to_bytes : (v : ℕ) → length (int64_to_bytes v) ≡ 8
unfolding int64_to_bytes
length-int64_to_bytes v = refl

pub length-put_uint32 : (v : ℕ) → length (put_uint32 v) ≡ 4
unfolding put_uint32
length-put_uint32 v = refl

pub bytes_to_int64-int64_to_bytes :
    (v : ℕ) (rest : Bytes) → IsInt64 v → bytes_to_int64 (int64_to_bytes v ++ rest) ≡ v
unfolding int64_to_bytes bytes_to_int64
bytes_to_int64-int64_to_bytes v rest h = omega arith

pub get_uint32-put_uint32 :
    (v : ℕ) (rest : Bytes) → v < 2 ^ 32 → get_uint32 (put_uint32 v ++ rest) ≡ v
unfolding put_uint32 get_uint32
get_uint32-put_uint32 v rest h = omega arith

pub get_uint32_put : (v : ℕ) → v < 2 ^ 32 → get_uint32 (put_uint32 v) ≡ v
unfolding put_uint32 get_uint32
get_uint32_put v h = omega arith

pub bytes_to_int64_to : (v : ℕ) → IsInt64 v → bytes_to_int64 (int64_to_bytes v) ≡ v
unfolding int64_to_bytes bytes_to_int64
bytes_to_int64_to v h = omega arith
