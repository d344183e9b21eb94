-- ===== src/Wire/Attributes/RoundTrip.antt =====
-- `addAttribute` and `attribute` of p11kit/rpc.go, one after the other.
use go_p11_kit.Base.{ℕ, ◌%◌, ◌^◌, ◌<◌, ◌≡◌, ◌∙◌, some, [], ◌∷◌, ◌++◌, arith, append_assoc, length}
use go_p11_kit.Base.Int.{pos}
use go_p11_kit.Codes.ValueTypes.{byte, ulong, date, byte_array, value_type}
use go_p11_kit.Wire.Buffer
use go_p11_kit.Wire.Buffer.{
  Bytes, be32, be64, null_length, add_byte, add_uint32, add_uint64, add_byte_array, uint32,
}
use go_p11_kit.Wire.Buffer.RoundTrip.{uint32-be32, uint64-be64, byte_array-add_byte_array}
use go_p11_kit.Wire.Dates.{add_date}
use go_p11_kit.Wire.Dates.RoundTrip.{IsFourDigit, date-add_date}
use go_p11_kit.Wire.Attributes.{
  Attribute, empty_attribute, byte_attribute, ulong_attribute, date_attribute, bytes_attribute,
  value_length, add_value, add_attribute, typed_value, attribute,
}

-- The attributes that the wire can carry: one value at most, of the type that the number has.
pub data IsEncodable : Attribute → Type 0 where
  no_value : (t : ℕ) → t < 2 ^ 32 → IsEncodable (empty_attribute t)
  one_byte : (t n : ℕ) → t < 2 ^ 32 → value_type t ≡ byte → IsEncodable (byte_attribute t n)
  one_ulong :
      (t n : ℕ) → t < 2 ^ 32 → value_type t ≡ ulong → n < 2 ^ 64 → IsEncodable (ulong_attribute t n)
  one_date :
      (t y m d : ℕ)
      → t < 2 ^ 32
      → value_type t ≡ date
      → IsFourDigit y m d
      → IsEncodable (date_attribute t (record { year = pos y; month = m; day = d }))
  some_bytes :
      (t : ℕ) (a : Bytes)
      → t < 2 ^ 32
      → value_type t ≡ byte_array
      → length a < null_length
      → IsEncodable (bytes_attribute t (some a))

-- The value that is read when one was written, whatever length went before it.
valued :
    (a : Attribute) (t : ℕ) (val rest : Bytes)
    → t < 2 ^ 32
    → attribute (add_value a (some val) (be32 t) ++ rest)
      ≡ typed_value t (value_type t) (val ++ rest)
unfolding attribute add_value
valued a t val rest h =
    let n = value_length (value_type a.typ) a val in
    simp append_assoc (
      rw (
        uint32-be32 t (1 ∷ (be32 (n % 2 ^ 32) ++ (val ++ rest))) h,
        uint32-be32 (n % 2 ^ 32) (val ++ rest) (omega arith),
      ))

-- `attribute` reads back what `addAttribute` wrote, and leaves whatever follows it, for an attribute
-- with no value or with one of the type that `valueType` gives to its number (a byte, a uint64, a
-- date of a four-digit year, or bytes of a length below that of nil).
pub attribute-add_attribute :
    (a : Attribute) (rest : Bytes)
    → IsEncodable a
    → attribute (add_attribute [] a ++ rest) ≡ (some a, rest)
unfolding add_attribute typed_value Buffer.byte
attribute-add_attribute a rest (no_value t h) =
    unfold attribute add_value in rw (append_assoc, uint32-be32 t (0 ∷ rest) h)
attribute-add_attribute a rest (one_byte t n h e) =
    valued (byte_attribute t n) t (n ∷ []) rest h ∙ rw e
attribute-add_attribute a rest (one_ulong t n h e k) =
    valued (ulong_attribute t n) t (be64 n) rest h ∙ rw (e, uint64-be64 n rest k)
attribute-add_attribute a rest (one_date t y m d h e v) =
    valued _ t (add_date [] (record { year = pos y; month = m; day = d })) rest h
    ∙ rw (e, date-add_date y m d rest v)
attribute-add_attribute a rest (some_bytes t x h e k) =
    valued (bytes_attribute t (some x)) t (add_byte_array [] x) rest h
    ∙ rw (e, byte_array-add_byte_array x rest k)
