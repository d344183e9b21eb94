-- ===== src/Wire/Buffer.antt =====
-- The `buffer` of p11kit/rpc.go: a byte slice that the writers append to, and that the readers
-- take bytes off the front of. A byte is a number below 256; `uint32(n)` is `n % 2 ^ 32`.
pub mod RoundTrip
use go_p11_kit.Base.{
  ℕ, zero, suc, ◌+◌, ◌*◌, ◌/◌, ◌%◌, ◌^◌, ◌<◌, Bool, false, Option, none, some, List, [], ◌∷◌, ◌++◌,
  ltb, ◌==◌, if◌then◌else◌, length, take, drop,
}

abbrev pub Bytes : Type 0
Bytes = List ℕ

-- binary.BigEndian.PutUint32
unfoldable pub be32 : ℕ → Bytes
be32 n = (n / 2 ^ 24 % 256) ∷ (n / 2 ^ 16 % 256) ∷ (n / 2 ^ 8 % 256) ∷ (n % 256) ∷ []

-- binary.BigEndian.PutUint64
unfoldable pub be64 : ℕ → Bytes
unfolding be32
be64 n = be32 (n / 2 ^ 32) ++ be32 (n % 2 ^ 32)

-- binary.BigEndian.Uint32 and Uint64, over the whole slice
abbrev pub be_value : ℕ → Bytes → ℕ
be_value acc [] = acc
be_value acc (b ∷ bs) = be_value (acc * 256 + b) bs

-- The writers: each takes the buffer first.
unfoldable pub add_byte : Bytes → ℕ → Bytes
add_byte b by = b ++ by ∷ []

unfoldable pub add_uint32 : Bytes → ℕ → Bytes
add_uint32 b n = b ++ be32 n

unfoldable pub add_uint64 : Bytes → ℕ → Bytes
add_uint64 b n = b ++ be64 n

unfoldable pub add_byte_array : Bytes → Bytes → Bytes
unfolding add_uint32
add_byte_array b a = add_uint32 b (length a % 2 ^ 32) ++ a

-- A reader returns what it read, or `none` for Go's `false`, and the bytes that are left.
abbrev pub Reader : Type 0 → Type 0
Reader A = Bytes → Option A × Bytes

abbrev pub continue : {A B : Type 0} → Option A → (A → Reader B) → Reader B
continue none f b = (none, b)
continue (some a) f b = f a b

infixl 5 ◌>>=◌ ◌>>◌
abbrev pub ◌>>=◌ : {A B : Type 0} → Reader A → (A → Reader B) → Reader B
◌>>=◌ m f b = continue (m b).0 f (m b).1

abbrev pub ◌>>◌ : {A B : Type 0} → Reader A → Reader B → Reader B
m >> k = m >>= λ _. k

abbrev pub pure : {A : Type 0} → A → Reader A
pure a b = (some a, b)

-- `return false`
abbrev pub fail : {A : Type 0} → Reader A
fail b = (none, b)

unfoldable pub byte : Reader ℕ
byte [] = (none, [])
byte (x ∷ b) = (some x, b)

unfoldable pub uint32 : Reader ℕ
uint32 b = if ltb (length b) 4 then (none, b) else (some (be_value 0 (take 4 b)), drop 4 b)

unfoldable pub uint64 : Reader ℕ
uint64 b = if ltb (length b) 8 then (none, b) else (some (be_value 0 (take 8 b)), drop 8 b)

unfoldable pub peek_uint32 : ℕ → Bytes → Bool
peek_uint32 n b = if ltb (length b) 4 then false else be_value 0 (take 4 b) == n

-- `0xffffffff` stands for a nil slice: the reader succeeds and sets nothing.
abbrev pub null_length : ℕ
null_length = 0xffff_ffff

-- The rest of `byteArray`, once the length `n` is read.
unfoldable pub byte_array_body : ℕ → Reader (Option Bytes)
byte_array_body n b =
    if n == null_length
    then (some none, b)
    else if ltb (length b) n
    then (none, b)
    else (some (some (take n b)), drop n b)

unfoldable pub byte_array : Reader (Option Bytes)
unfolding uint32 byte_array_body
byte_array = do n ← uint32; byte_array_body n
