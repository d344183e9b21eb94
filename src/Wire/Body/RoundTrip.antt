-- ===== src/Wire/Body/RoundTrip.antt =====
-- The `write…` and `read…` methods of the body of p11kit/rpc.go, one after the other.
use go_p11_kit.Base.{
  ℕ, ◌^◌, ◌%◌, ◌<◌, ◌≡◌, refl, ap, sym, ◌∙◌, Option, none, some, List, [], ◌∷◌, ◌++◌, length, All,
  arith, append_assoc, append-nil,
}
use go_p11_kit.Wire.Buffer.{Bytes, be32, null_length, add_uint32, add_uint64, add_byte_array}
use go_p11_kit.Wire.Buffer.RoundTrip.{uint32-be32, uint64-be64, byte_array-add_byte_array}
use go_p11_kit.Wire.Attributes.{Attribute, value, add_value, add_attribute}
use go_p11_kit.Wire.Attributes.RoundTrip.{IsEncodable, attribute-add_attribute}
use go_p11_kit.Wire.Body.{Body, empty_body}
use go_p11_kit.Wire.Body.Write.{
  write, add_attributes, write_attribute_array, write_byte_array, write_ulong,
}
use go_p11_kit.Wire.Body.Read.{attributes, read_attribute_array, read_byte_array, read_ulong}

-- A body with more of a signature and more fields behind it.
abbrev pub followed : Body → Bytes → Bytes → Body
followed b s rest = record b { signature = b.signature ++ s; buffer = b.buffer ++ rest }

add_value-append :
    (a : Attribute) (o : Option Bytes) (b : Bytes) → add_value a o b ≡ b ++ add_value a o []
unfolding add_value
add_value-append a none b = refl
add_value-append a (some val) b = simp append_assoc

add_attribute-append : (b : Bytes) (a : Attribute) → add_attribute b a ≡ b ++ add_attribute [] a
unfolding add_attribute add_uint32
add_attribute-append b a =
    add_value-append a (value a) (b ++ be32 a.typ)
    ∙ append_assoc b (be32 a.typ) (add_value a (value a) [])
    ∙ ap (◌++◌ b) (sym (add_value-append a (value a) (be32 a.typ)))

add_attributes-append :
    (b : Bytes) (attrs : List Attribute) → add_attributes b attrs ≡ b ++ add_attributes [] attrs
unfolding add_attributes
add_attributes-append b [] = sym (append-nil b)
add_attributes-append b (a ∷ attrs) =
    add_attributes-append (add_attribute b a) attrs
    ∙ ap (λ (x : Bytes). x ++ add_attributes [] attrs) (add_attribute-append b a)
    ∙ append_assoc b (add_attribute [] a) _
    ∙ ap (◌++◌ b) (sym (add_attributes-append (add_attribute [] a) attrs))

attributes-add_attributes :
    (attrs : List Attribute) (rest : Bytes)
    → All IsEncodable attrs
    → attributes (length attrs) (add_attributes [] attrs ++ rest) ≡ (some attrs, rest)
unfolding attributes add_attributes
attributes-add_attributes [] rest h = refl
attributes-add_attributes (a ∷ attrs) rest (h, hs) = rw (
  add_attributes-append (add_attribute [] a) attrs,
  append_assoc (add_attribute [] a) (add_attributes [] attrs) rest,
  attribute-add_attribute a (add_attributes [] attrs ++ rest) h,
  attributes-add_attributes attrs rest hs,
)

-- `readAttributeArray` reads back the attributes that `writeAttributeArray` wrote, and leaves the
-- rest of the signature and of the fields, for fewer than 2^32 attributes that the wire can carry.
pub read_attribute_array-write_attribute_array :
    (call : ℕ) (attrs : List Attribute) (s rest : Bytes)
    → length attrs < 2 ^ 32
    → All IsEncodable attrs
    → read_attribute_array (followed (write_attribute_array (empty_body call) attrs) s rest)
      ≡ (some attrs, followed (empty_body call) s rest)
unfolding read_attribute_array write_attribute_array write add_uint32
read_attribute_array-write_attribute_array call attrs s rest h hs =
    let small : length attrs % 2 ^ 32 ≡ length attrs = omega arith in
    rw (
      small,
      add_attributes-append (be32 (length attrs)) attrs,
      append_assoc (be32 (length attrs)) (add_attributes [] attrs) rest,
      uint32-be32 (length attrs) (add_attributes [] attrs ++ rest) h,
      attributes-add_attributes attrs rest hs,
    )

-- `readUlong` reads back the uint64 that `writeUlong` wrote, and leaves the rest.
pub read_ulong-write_ulong :
    (call n : ℕ) (s rest : Bytes)
    → n < 2 ^ 64
    → read_ulong (followed (write_ulong (empty_body call) n) s rest)
      ≡ (some n, followed (empty_body call) s rest)
unfolding read_ulong write_ulong write add_uint64
read_ulong-write_ulong call n s rest h = rw (uint64-be64 n rest h)

-- The length that is read: the one given, where there is no array.
abbrev pub unsent : Option Bytes → ℕ → ℕ
unsent none n = n
unsent (some a) n = 0

-- `readByteArray` reads back the array that `writeByteArray` wrote, and of a nil array the uint32
-- that stands for it, and leaves the rest, for an array of a length below that of nil.
pub read_byte_array-write_byte_array :
    (call n : ℕ) (o : Option Bytes) (s rest : Bytes)
    → n < 2 ^ 32
    → ((a : Bytes) → o ≡ some a → length a < null_length)
    → read_byte_array (followed (write_byte_array (empty_body call) o n) s rest)
      ≡ ((some (o, unsent o n)), followed (empty_body call) s rest)
unfolding read_byte_array write_byte_array write add_uint32
read_byte_array-write_byte_array call n none s rest h k = rw (uint32-be32 n rest h)
read_byte_array-write_byte_array call n (some a) s rest h k =
    unfold add_byte_array in rw (byte_array-add_byte_array a rest (k a refl))
