-- ===== src/Wire/Message/Length.antt =====
-- What `readRequest` of p11kit/rpc.go takes off the stream.
use go_p11_kit.Base.{ℕ, ◌+◌, ◌≤◌, ◌<◌, ◌≡◌, refl, none, some, Option, length, length-drop, arith}
use go_p11_kit.Result.{ok}
use go_p11_kit.Wire.Buffer.{Bytes, uint32}
use go_p11_kit.Wire.Body.{Body}
use go_p11_kit.Wire.Message.{Header, header, framed, with_header, read_request}

length-uint32 : (b : Bytes) → length (uint32 b).1 ≤ length b
unfolding uint32
length-uint32 b = ground (arith, length-drop 4 b)

uint32-shorter : (b : Bytes) (n : ℕ) → (uint32 b).0 ≡ some n → length (uint32 b).1 + 4 ≡ length b
unfolding uint32
uint32-shorter b n h = ground (arith, length-drop 4 b)

header-shorter : (b : Bytes) (h : Header) → (header b).0 ≡ some h → length (header b).1 < length b
unfolding header
header-shorter b h e =
    ground
      (arith, uint32-shorter b, length-uint32 (uint32 b).1, length-uint32 (uint32 (uint32 b).1).1)

length-framed : (h : Header) (b : Bytes) → length (framed h b).1 ≤ length b
length-framed h b = ground (arith, length-drop (h.options_len + h.buffer_len) b)

with_header-shorter :
    (s b : Bytes) (o : Option Header) (m : ℕ × Body)
    → ((h : Header) → o ≡ some h → length b < length s)
    → (with_header o b).0 ≡ ok m
    → length (with_header o b).1 < length s
with_header-shorter s b none m short e = cc
with_header-shorter s b (some h) m short e = omega (arith, short h refl, length-framed h b)

-- The stream behind a message that `readRequest` returned is shorter than the one before it.
pub read_request-shorter :
    (s : Bytes) (m : ℕ × Body) → (read_request s).0 ≡ ok m → length (read_request s).1 < length s
unfolding read_request
read_request-shorter s m e = with_header-shorter s (header s).1 (header s).0 m (header-shorter s) e
