-- ===== src/Wire/Body.antt =====
-- The `body` of p11kit/rpc.go: the signature and the fields of a call, written and read in step.
pub mod Write
pub mod Read
pub mod RoundTrip
use go_p11_kit.Base.{ℕ, Option, none, some, List, [], ◌∷◌, length, ◌==◌, if◌then◌else◌}
use go_p11_kit.Result.{Failure, trailing_elements, trailing_data, Error, failed}
use go_p11_kit.Wire.Buffer.{Bytes}

pub record Body : Type 0 where
  pub call : ℕ
  pub signature : Bytes
  pub buffer : Bytes
  pub error : Option Failure

-- `&body{call: call}`
abbrev pub empty_body : ℕ → Body
empty_body c = record { call = c; signature = []; buffer = []; error = none }

unfoldable pub new_response : Body → Body
new_response req = empty_body req.call

abbrev pub sig_attribute_array : Bytes
sig_attribute_array = b'a' ∷ b'A' ∷ []

abbrev pub sig_attribute_buffer : Bytes
sig_attribute_buffer = b'f' ∷ b'A' ∷ []

abbrev pub sig_byte : Bytes
sig_byte = b'y' ∷ []

abbrev pub sig_byte_array : Bytes
sig_byte_array = b'a' ∷ b'y' ∷ []

abbrev pub sig_byte_buffer : Bytes
sig_byte_buffer = b'f' ∷ b'y' ∷ []

abbrev pub sig_mechanism : Bytes
sig_mechanism = b'M' ∷ []

abbrev pub sig_string : Bytes
sig_string = b's' ∷ []

abbrev pub sig_ulong : Bytes
sig_ulong = b'u' ∷ []

abbrev pub sig_ulong_array : Bytes
sig_ulong_array = b'a' ∷ b'u' ∷ []

abbrev pub sig_ulong_buffer : Bytes
sig_ulong_buffer = b'f' ∷ b'u' ∷ []

abbrev pub sig_version : Bytes
sig_version = b'v' ∷ []

abbrev pub sig_zero_string : Bytes
sig_zero_string = b'z' ∷ []

abbrev failure_of : Option Failure → Bytes → Bytes → Option Failure
failure_of (some e) s b = some e
failure_of none (x ∷ s) b = some trailing_elements
failure_of none [] (x ∷ b) = some trailing_data
failure_of none [] [] = none

-- `err`: the first failure, or what is left unread.
unfoldable pub error_of : Body → Option Failure
error_of b = failure_of b.error b.signature b.buffer
