-- ===== src/Wire/Buffer/RoundTrip.antt =====
-- The writers and the readers of the buffer of p11kit/rpc.go, one after the other.
use go_p11_kit.Base.{
  ℕ, ◌^◌, ◌%◌, append_assoc, [], ◌<◌, ◌≡◌, ◌≢◌, some, ◌++◌, length, arith, length-append,
  take-length, drop-length,
}
use go_p11_kit.Wire.Buffer.{
  Bytes, be32, be64, be_value, uint32, uint64, byte_array, byte_array_body, null_length,
  add_byte_array,
}

be32-value : (n : ℕ) → n < 2 ^ 32 → be_value 0 (be32 n) ≡ n
unfolding be32
be32-value n h = omega arith

be64-value : (n : ℕ) → n < 2 ^ 64 → be_value 0 (be64 n) ≡ n
unfolding be64
be64-value n h = omega arith

pub uint32-be32 : (n : ℕ) (rest : Bytes) → n < 2 ^ 32 → uint32 (be32 n ++ rest) ≡ (some n, rest)
unfolding uint32 be32
uint32-be32 n rest h = ground (arith, be32-value n)

pub uint64-be64 : (n : ℕ) (rest : Bytes) → n < 2 ^ 64 → uint64 (be64 n ++ rest) ≡ (some n, rest)
unfolding uint64 be64
uint64-be64 n rest h = ground (arith, be64-value n)

pub byte_array_body_lem :
    (a rest : Bytes)
    → length a ≢ null_length
    → byte_array_body (length a) (a ++ rest) ≡ (some (some a), rest)
unfolding byte_array_body
byte_array_body_lem a rest h =
    ground (arith, length-append a rest, take-length a rest, drop-length a rest)

-- `byteArray` reads back what `addByteArray` wrote, and leaves what follows, for bytes of a length
-- below the one that stands for nil.
pub byte_array-add_byte_array :
    (a rest : Bytes)
    → length a < null_length
    → byte_array (add_byte_array [] a ++ rest) ≡ (some (some a), rest)
unfolding byte_array add_byte_array
byte_array-add_byte_array a rest h =
    rw (append_assoc, small, uint32-be32 (length a) (a ++ rest) (omega arith))
      (byte_array_body_lem a rest (omega arith))
  where
    small : length a % 2 ^ 32 ≡ length a
    small = omega arith
