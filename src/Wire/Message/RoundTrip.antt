-- ===== src/Wire/Message/RoundTrip.antt =====
-- `writeResponse` and `readRequest` of p11kit/rpc.go, one after the other.
use go_p11_kit.Base.{
  ℕ, ◌+◌, ◌%◌, ◌^◌, ◌<◌, ◌≡◌, ap, sym, none, some, [], ◌++◌, arith, le→ltb, length, length-append,
  take-length, drop-length, append_assoc,
}
use go_p11_kit.Result.{ok}
use go_p11_kit.Wire.Buffer.{Bytes, be32, add_byte_array, null_length}
use go_p11_kit.Wire.Buffer.RoundTrip.{uint32-be32, byte_array-add_byte_array}
use go_p11_kit.Wire.Body.{Body}
use go_p11_kit.Wire.Message.{
  Header, header, call_fields, framed, parse_message, read_request, write_response,
}

-- The bodies that fit in a message.
pub record IsSendable (b : Body) : Type 0 where
  pub call : b.call < 2 ^ 32
  pub signature : length b.signature < null_length
  pub size : 8 + length b.signature + length b.buffer < 2 ^ 32
  pub no_error : b.error ≡ none

header_lem :
    (id n : ℕ) (rest : Bytes)
    → id < 2 ^ 32
    → n < 2 ^ 32
    → header (be32 id ++ (be32 0 ++ (be32 n ++ rest)))
      ≡ (some (record { id = id; options_len = 0; buffer_len = n }), rest)
unfolding header
header_lem id n rest h k =
    rw (uint32-be32 id _ h, uint32-be32 0 (be32 n ++ rest) (omega arith), uint32-be32 n rest k)

abbrev body_bytes : Body → Bytes
body_bytes b = be32 b.call ++ (add_byte_array [] b.signature ++ b.buffer)

call_fields_lem :
    (b : Body)
    → IsSendable b
    → call_fields (body_bytes b) ≡ (some (b.call, some b.signature), b.buffer)
unfolding call_fields
call_fields_lem b v =
    rw (uint32-be32 b.call _ v.call, byte_array-add_byte_array b.signature b.buffer v.signature)

length-body_bytes : (b : Body) → length (body_bytes b) ≡ 8 + length b.signature + length b.buffer
unfolding add_byte_array be32
length-body_bytes b = omega (arith, length-append b.signature b.buffer)

write_response_lem :
    (id : ℕ) (b : Body) (rest : Bytes)
    → write_response id b ++ rest
      ≡ be32 id
        ++ (be32 0
            ++ (be32 ((8 + length b.signature + length b.buffer) % 2 ^ 32)
                ++ (body_bytes b ++ rest)))
unfolding write_response add_byte_array
write_response_lem id b rest = simp append_assoc

framed_lem :
    (h : Header) (xs rest : Bytes)
    → h.options_len + h.buffer_len ≡ length xs
    → framed h (xs ++ rest) ≡ (parse_message h xs, rest)
framed_lem h xs rest e = rw (
  e,
  le→ltb (length (xs ++ rest)) (length xs) (omega (arith, length-append xs rest)),
  take-length xs rest,
  drop-length xs rest,
)

parse_message_lem :
    (id n : ℕ) (b : Body)
    → IsSendable b
    → parse_message (record { id = id; options_len = 0; buffer_len = n }) (body_bytes b)
      ≡ ok (id, b)
unfolding parse_message
parse_message_lem id n b v =
    rw (call_fields_lem b v) (ap (λ e. ok (id, record b { error = e })) (sym v.no_error))

-- `readRequest` reads back the id and the body that `writeResponse` wrote, and leaves what follows,
-- for a uint32 id and a body without an error whose call and whose size fit in a uint32.
pub read_request-write_response :
    (id : ℕ) (b : Body) (rest : Bytes)
    → id < 2 ^ 32
    → IsSendable b
    → read_request (write_response id b ++ rest) ≡ (ok (id, b), rest)
unfolding read_request
read_request-write_response id b rest h v =
    let n : ℕ = 8 + length b.signature + length b.buffer in
    let small : n % 2 ^ 32 ≡ n = omega (arith, v.size) in
    rw (
      write_response_lem id b rest,
      small,
      header_lem id n (body_bytes b ++ rest) h v.size,
      framed_lem (record { id = id; options_len = 0; buffer_len = n }) (body_bytes b) rest
          (omega (arith, length-body_bytes b)),
      parse_message_lem id n b v,
    )
