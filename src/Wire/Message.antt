-- ===== src/Wire/Message.antt =====
-- `readRequest` and `writeResponse` of p11kit/rpc.go: the framing of bodies in a stream.
-- A stream is the list of the bytes that come before its end.
pub mod RoundTrip
pub mod Length
use go_p11_kit.Base.{
  ℕ, ◌+◌, ◌%◌, ◌^◌, Option, none, some, List, [], ◌∷◌, ◌++◌, ltb, if◌then◌else◌, length, take, drop,
}
use go_p11_kit.Result.{Failure, no_header, no_body, malformed_body, Result, ok, err, failed}
use go_p11_kit.Wire.Buffer.{
  Bytes, Reader, ◌>>=◌, pure, uint32, byte_array, add_uint32, add_byte_array,
}
use go_p11_kit.Wire.Body.{Body}
use go_p11_kit.Wire.Body.Read.{string_of}

pub record Header : Type 0 where
  pub id : ℕ
  pub options_len : ℕ
  pub buffer_len : ℕ

-- binary.Read of a header
unfoldable pub header : Reader Header
unfolding uint32
header = do
  id ← uint32
  options_len ← uint32
  buffer_len ← uint32
  pure (record { id = id; options_len = options_len; buffer_len = buffer_len })

abbrev body_of : ℕ → Option Bytes → Bytes → Option Body
body_of call sig buffer =
    some (record { call = call; signature = string_of sig; buffer = buffer; error = none })

-- The call and the signature at the front of a body.
unfoldable pub call_fields : Reader (ℕ × Option Bytes)
unfolding uint32 byte_array
call_fields = do call ← uint32; sig ← byte_array; pure (call, sig)

abbrev parsed : ℕ → Option (ℕ × Option Bytes) → Bytes → Result (ℕ × Body)
parsed id none buffer = err (failed malformed_body)
parsed id (some (call, sig)) buffer =
    ok (id, record { call = call; signature = string_of sig; buffer = buffer; error = none })

-- The options are skipped, and the rest of the message's bytes are its body.
unfoldable pub parse_message : Header → Bytes → Result (ℕ × Body)
unfolding call_fields
parse_message h b =
    let (fields, buffer) = call_fields (drop h.options_len b) in parsed h.id fields buffer

abbrev framed : Header → Bytes → Result (ℕ × Body) × Bytes
framed h b =
    let n = h.options_len + h.buffer_len in
    if ltb (length b) n then (err (failed no_body), []) else (parse_message h (take n b), drop n b)

abbrev with_header : Option Header → Bytes → Result (ℕ × Body) × Bytes
with_header none b = (err (failed no_header), [])
with_header (some h) b = framed h b

-- The message's id and body, and the stream behind it.
unfoldable pub read_request : Bytes → Result (ℕ × Body) × Bytes
unfolding header parse_message
read_request s = with_header (header s).0 (header s).1

unfoldable pub write_response : ℕ → Body → Bytes
unfolding add_uint32 add_byte_array
write_response id b =
    let body_len = 4 + 4 + length b.signature + length b.buffer in
    let front = add_uint32 (add_uint32 (add_uint32 [] id) 0) (body_len % 2 ^ 32) in
    add_byte_array (add_uint32 front b.call) b.signature ++ b.buffer
