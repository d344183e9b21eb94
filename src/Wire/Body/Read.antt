-- ===== src/Wire/Body/Read.antt =====
-- The `read…` methods of the body: each takes its letters off the signature and its bytes off the
-- buffer, and does nothing once one of them has failed.
use go_p11_kit.Base.{ℕ, zero, suc, Option, none, some, List, [], ◌∷◌, ◌==◌, if◌then◌else◌}
use go_p11_kit.Result.{Failure, invalid_signature, unexpected_eof, Result, ok, err, failed}
use go_p11_kit.Wire.Buffer
use go_p11_kit.Wire.Buffer.{Bytes, Reader, uint32, uint64, byte_array}
use go_p11_kit.Wire.Attributes.{Attribute, attribute}
use go_p11_kit.Wire.Mechanisms.{Mechanism, mechanism}
use go_p11_kit.Wire.Body.{
  Body, error_of, sig_attribute_array, sig_attribute_buffer, sig_byte, sig_byte_array,
  sig_byte_buffer, sig_mechanism, sig_ulong, sig_ulong_buffer, sig_zero_string,
}

-- `strings.HasPrefix` and `strings.TrimPrefix`: what stands behind the prefix.
unfoldable pub trim_prefix : Bytes → Bytes → Option Bytes
trim_prefix [] s = some s
trim_prefix (x ∷ p) [] = none
trim_prefix (x ∷ p) (y ∷ s) = let rest = trim_prefix p s in if x == y then rest else none

-- A method of the body returns `none` where it leaves the caller's variable as it was.
abbrev pub Parser : Type 0 → Type 0
Parser A = Body → Option A × Body

abbrev pub continue : {A B : Type 0} → Option A → (A → Parser B) → Parser B
continue none f b = (none, b)
continue (some a) f b = f a b

-- The methods that would follow a failed one find `error` set, and change nothing.
infixl 5 ◌>>=◌ ◌>>◌
abbrev pub ◌>>=◌ : {A B : Type 0} → Parser A → (A → Parser B) → Parser B
◌>>=◌ m f b = continue (m b).0 f (m b).1

abbrev pub ◌>>◌ : {A B : Type 0} → Parser A → Parser B → Parser B
m >> k = m >>= λ _. k

abbrev pub pure : {A : Type 0} → A → Parser A
pure a b = (some a, b)

-- `decode` once the signature has matched.
abbrev finish : {A : Type 0} → Body → Option A × Bytes → Option A × Body
finish b (some a, rest) = (some a, record b { buffer = rest })
finish b (none, rest) = (none, record b { buffer = rest; error = some unexpected_eof })

abbrev decode_after : {A : Type 0} → Option Bytes → Reader A → Body → Option A × Body
decode_after none fn b = (none, record b { error = some invalid_signature })
decode_after (some s) fn b = finish (record b { signature = s }) (fn b.buffer)

abbrev decode_if : {A : Type 0} → Option Failure → Bytes → Reader A → Body → Option A × Body
decode_if (some e) sig fn b = (none, b)
decode_if none sig fn b = decode_after (trim_prefix sig b.signature) fn b

unfoldable pub decode : {A : Type 0} → Bytes → Reader A → Parser A
unfolding trim_prefix
decode sig fn b = decode_if b.error sig fn b

unfoldable pub read_byte : Parser ℕ
unfolding decode
read_byte = decode sig_byte Buffer.byte

unfoldable pub attributes : ℕ → Reader (List Attribute)
unfolding attribute
attributes zero = Buffer.pure []
attributes (suc n) =
    Buffer.◌>>=◌ attribute λ a. Buffer.◌>>=◌ (attributes n) λ attrs. Buffer.pure (a ∷ attrs)

unfoldable pub attribute_array : Reader (List Attribute)
unfolding attributes uint32
attribute_array = Buffer.◌>>=◌ uint32 attributes

unfoldable pub read_attribute_array : Parser (List Attribute)
unfolding decode attribute_array
read_attribute_array = decode sig_attribute_array attribute_array

abbrev optional_bytes_body : ℕ → Reader (Option Bytes × ℕ)
optional_bytes_body has_content =
    if has_content == 0
    then (Buffer.◌>>=◌ uint32 λ n. Buffer.pure (none, n))
    else (Buffer.◌>>=◌ byte_array λ a. Buffer.pure (a, 0))

unfoldable pub optional_bytes : Reader (Option Bytes × ℕ)
unfolding uint32 byte_array Buffer.byte
optional_bytes = Buffer.◌>>=◌ Buffer.byte optional_bytes_body

-- The array, nil if it was not sent, and the length that came in its place.
unfoldable pub read_byte_array : Parser (Option Bytes × ℕ)
unfolding decode optional_bytes
read_byte_array = decode sig_byte_array optional_bytes

abbrev pub string_of : Option Bytes → Bytes
string_of none = []
string_of (some a) = a

unfoldable pub read_zero_string : Parser Bytes
unfolding decode byte_array
read_zero_string = decode sig_zero_string (Buffer.◌>>=◌ byte_array λ a. Buffer.pure (string_of a))

unfoldable pub read_ulong : Parser ℕ
unfolding decode uint64
read_ulong = decode sig_ulong uint64

unfoldable pub read_ulong_buffer : Parser ℕ
unfolding decode uint32
read_ulong_buffer = decode sig_ulong_buffer uint32

unfoldable pub read_byte_buffer : Parser ℕ
unfolding decode uint32
read_byte_buffer = decode sig_byte_buffer uint32

unfoldable pub read_mechanism : Parser Mechanism
unfolding decode mechanism
read_mechanism = decode sig_mechanism mechanism

pub record AttributeTemplate : Type 0 where
  pub typ : ℕ
  pub len : ℕ

unfoldable pub templates : ℕ → Reader (List AttributeTemplate)
unfolding uint32
templates zero = Buffer.pure []
templates (suc n) = Buffer.◌>>=◌ uint32 λ t.
    Buffer.◌>>=◌ uint32
      λ l. Buffer.◌>>=◌ (templates n) λ ts. Buffer.pure (record { typ = t; len = l } ∷ ts)

unfoldable pub template_array : Reader (List AttributeTemplate)
unfolding templates uint32
template_array = Buffer.◌>>=◌ uint32 templates

unfoldable pub read_attribute_buffer : Parser (List AttributeTemplate)
unfolding decode template_array
read_attribute_buffer = decode sig_attribute_buffer template_array

abbrev pub checked : {A : Type 0} → Option A → Option Failure → Result A
checked r (some e) = err (failed e)
checked (some a) none = ok a
checked none none = err (failed unexpected_eof)

-- A handler's reads, and the `req.err()` behind them. A method that leaves its variable alone has
-- set `error`, so the last clause of `checked` is never taken.
unfoldable pub request : {A : Type 0} → Parser A → Body → Result A
unfolding error_of
request p req = checked (p req).0 (error_of (p req).1)
