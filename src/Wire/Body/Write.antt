-- ===== src/Wire/Body/Write.antt =====
-- The `write…` methods of the body: each appends to the signature and to the buffer.
use go_p11_kit.Base.{ℕ, zero, suc, ◌%◌, ◌^◌, Option, none, some, List, [], ◌∷◌, ◌++◌, length}
use go_p11_kit.Wire.Buffer.{Bytes, add_byte, add_uint32, add_uint64, add_byte_array}
use go_p11_kit.Wire.Attributes.{Attribute, add_attribute}
use go_p11_kit.Wire.Body.{
  Body, sig_attribute_array, sig_byte, sig_byte_array, sig_string, sig_ulong, sig_ulong_array,
  sig_version,
}

pub record Version : Type 0 where
  pub major : ℕ
  pub minor : ℕ

-- `writeSig`, with the buffer that the method leaves.
unfoldable pub write : Body → Bytes → Bytes → Body
write b sig buffer = record b { signature = b.signature ++ sig; buffer = buffer }

unfoldable pub add_attributes : Bytes → List Attribute → Bytes
unfolding add_attribute
add_attributes b [] = b
add_attributes b (a ∷ attrs) = add_attributes (add_attribute b a) attrs

unfoldable pub write_attribute_array : Body → List Attribute → Body
unfolding write add_uint32 add_attributes
write_attribute_array b attrs =
    write b sig_attribute_array (add_attributes (add_uint32 b.buffer (length attrs % 2 ^ 32)) attrs)

unfoldable pub write_byte : Body → ℕ → Body
unfolding write add_byte
write_byte b c = write b sig_byte (add_byte b.buffer c)

-- A nil array is written as the length `n` alone.
unfoldable pub add_optional_bytes : Bytes → Option Bytes → ℕ → Bytes
unfolding add_byte add_uint32 add_byte_array
add_optional_bytes b none n = add_uint32 (add_byte b 0) n
add_optional_bytes b (some a) n = add_byte_array (add_byte b 1) a

unfoldable pub write_byte_array : Body → Option Bytes → ℕ → Body
unfolding write add_optional_bytes
write_byte_array b a n = write b sig_byte_array (add_optional_bytes b.buffer a n)

unfoldable pub write_ulong : Body → ℕ → Body
unfolding write add_uint64
write_ulong b n = write b sig_ulong (add_uint64 b.buffer n)

unfoldable pub add_ulongs : Bytes → List ℕ → Bytes
unfolding add_uint64
add_ulongs b [] = b
add_ulongs b (n ∷ ns) = add_ulongs (add_uint64 b n) ns

unfoldable pub add_optional_ulongs : Bytes → Option (List ℕ) → ℕ → Bytes
unfolding add_ulongs add_byte add_uint32
add_optional_ulongs b none n = add_uint32 (add_byte b 0) n
add_optional_ulongs b (some a) n = add_ulongs (add_uint32 (add_byte b 1) (length a % 2 ^ 32)) a

unfoldable pub write_ulong_array : Body → Option (List ℕ) → ℕ → Body
unfolding write add_optional_ulongs
write_ulong_array b a n = write b sig_ulong_array (add_optional_ulongs b.buffer a n)

-- The loop of `writeString` over `n` places: the bytes of the string, then spaces.
unfoldable pub add_padded : Bytes → Bytes → ℕ → Bytes
unfolding add_byte
add_padded b s zero = b
add_padded b [] (suc n) = add_padded (add_byte b b' ') [] n
add_padded b (c ∷ s) (suc n) = add_padded (add_byte b c) s n

unfoldable pub write_string : Body → Bytes → ℕ → Body
unfolding write add_uint32 add_padded
write_string b s n = write b sig_string (add_padded (add_uint32 b.buffer n) s n)

unfoldable pub write_version : Body → Version → Body
unfolding write add_byte
write_version b v = write b sig_version (add_byte (add_byte b.buffer v.major) v.minor)
