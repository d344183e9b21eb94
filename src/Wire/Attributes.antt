-- ===== src/Wire/Attributes.antt =====
-- The `attribute` of p11kit/attribute.go, and its encoding in p11kit/rpc.go.
pub mod RoundTrip
use go_p11_kit.Base.{
  ℕ, ◌%◌, ◌^◌, Option, none, some, List, [], ◌∷◌, ◌++◌, ◌==◌, if◌then◌else◌, length,
}
use go_p11_kit.Codes.ValueTypes.{
  ValueType, byte, ulong, mechanism_array, date, byte_array, unsupported, value_type,
}
use go_p11_kit.Wire.Buffer
use go_p11_kit.Wire.Buffer.{
  Bytes, Reader, ◌>>=◌, ◌>>◌, pure, fail, add_byte, add_uint32, add_uint64, add_byte_array, uint32,
  uint64,
}
use go_p11_kit.Wire.Dates
use go_p11_kit.Wire.Dates.{Time, add_date}

-- A nil pointer is `none`, and so are nil bytes; nothing ever sets or reads `mechanisms`.
pub record Attribute : Type 0 where
  pub typ : ℕ
  pub byte_value : Option ℕ
  pub ulong_value : Option ℕ
  pub mechanisms : List ℕ
  pub date_value : Option Time
  pub bytes_value : Option Bytes

-- `attribute{typ: typ}`
abbrev pub empty_attribute : ℕ → Attribute
empty_attribute t = record {
  typ = t;
  byte_value = none;
  ulong_value = none;
  mechanisms = [];
  date_value = none;
  bytes_value = none;
}

-- Attributes with one field set, as the source's composite literals build them.
abbrev pub byte_attribute : ℕ → ℕ → Attribute
byte_attribute t n = record (empty_attribute t) { byte_value = some n }

abbrev pub ulong_attribute : ℕ → ℕ → Attribute
ulong_attribute t n = record (empty_attribute t) { ulong_value = some n }

abbrev pub date_attribute : ℕ → Time → Attribute
date_attribute t d = record (empty_attribute t) { date_value = some d }

abbrev pub bytes_attribute : ℕ → Option Bytes → Attribute
bytes_attribute t a = record (empty_attribute t) { bytes_value = a }

-- The fields of `value`, in the order in which it tries them.
unfoldable pub value_of : Option ℕ → Option ℕ → Option Bytes → Option Time → Option Bytes
unfolding add_uint64 add_byte_array add_date
value_of (some n) u a d = some (n ∷ [])
value_of none (some n) a d = some (add_uint64 [] n)
value_of none none (some a) d = some (add_byte_array [] a)
value_of none none none (some t) = some (add_date [] t)
value_of none none none none = none

unfoldable pub value : Attribute → Option Bytes
unfolding value_of
value a = value_of a.byte_value a.ulong_value a.bytes_value a.date_value

-- `len` of a slice that may be nil
abbrev pub len : Option Bytes → ℕ
len none = 0
len (some a) = length a

-- The length that goes before the value: for a byte array, that of the array alone.
unfoldable pub value_length : ValueType → Attribute → Bytes → ℕ
value_length byte_array a val = len a.bytes_value
value_length byte a val = length val
value_length ulong a val = length val
value_length mechanism_array a val = length val
value_length date a val = length val
value_length unsupported a val = length val

-- What `addAttribute` writes behind the type.
unfoldable pub add_value : Attribute → Option Bytes → Bytes → Bytes
unfolding value_length add_byte add_uint32
add_value a none b = add_byte b 0
add_value a (some val) b =
    add_uint32 (add_byte b 1) (value_length (value_type a.typ) a val % 2 ^ 32) ++ val

unfoldable pub add_attribute : Bytes → Attribute → Bytes
unfolding add_value add_uint32 value
add_attribute b a = add_value a (value a) (add_uint32 b a.typ)

-- The `switch` of `attribute`.
unfoldable pub typed_value : ℕ → ValueType → Reader Attribute
typed_value t byte = do n ← Buffer.byte; pure (byte_attribute t n)
typed_value t ulong = do n ← uint64; pure (ulong_attribute t n)
typed_value t mechanism_array = fail
typed_value t date = do d ← Dates.date; pure (date_attribute t d)
typed_value t byte_array = do a ← Buffer.byte_array; pure (bytes_attribute t a)
typed_value t unsupported = fail

-- The value, if the validity byte is not 0; its length is read and not looked at.
unfoldable pub valid_value : ℕ → ℕ → Reader Attribute
unfolding typed_value uint32
valid_value t validity =
    if validity == 0 then pure (empty_attribute t) else do uint32; typed_value t (value_type t)

unfoldable pub attribute : Reader Attribute
unfolding valid_value uint32 Buffer.byte
attribute = do t ← uint32; validity ← Buffer.byte; valid_value t validity
