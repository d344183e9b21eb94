-- ===== src/Token/Keys.antt =====
-- The keys of Go's crypto packages, as far as p11kit/attribute.go looks into them.
use go_p11_kit.Base.{ℕ}
use go_p11_kit.Base.Int.{ℤ}

-- The four named curves, and any other `elliptic.Curve` by the sizes of its field and its order.
pub data Curve : Type 0 where
  p224 p256 p384 p521 : Curve
  other_curve : (bit_size order_bits : ℕ) → Curve

-- curve.Params().BitSize
unfoldable pub bit_size : Curve → ℕ
bit_size p224 = 224
bit_size p256 = 256
bit_size p384 = 384
bit_size p521 = 521
bit_size (other_curve b o) = b

-- curve.Params().N.BitLen()
unfoldable pub order_bits : Curve → ℕ
order_bits p224 = 224
order_bits p256 = 256
order_bits p384 = 384
order_bits p521 = 521
order_bits (other_curve b o) = o

-- The dynamic types of a `crypto.PublicKey`; the number of an `other_public` tells it from others.
pub data PublicKey : Type 0 where
  ecdsa_public : (curve : Curve) → (x y : ℕ) → PublicKey
  rsa_public : (n e : ℕ) → PublicKey
  other_public : ℕ → PublicKey

-- A `crypto.Signer`: an `*ecdsa.PrivateKey`, or one of another type with its `Public()`.
pub data Signer : Type 0 where
  ecdsa_private : (curve : Curve) → (x y d : ℕ) → Signer
  other_private : ℕ → PublicKey → Signer

unfoldable pub public : Signer → PublicKey
public (ecdsa_private c x y d) = ecdsa_public c x y
public (other_private k p) = p

-- crypto.Hash; `no_hash` is crypto.Hash(0)
pub data Hash : Type 0 where
  no_hash sha224 sha256 sha384 sha512 : Hash

-- hash.Size()
unfoldable pub hash_size : Hash → ℕ
hash_size no_hash = 0
hash_size sha224 = 28
hash_size sha256 = 32
hash_size sha384 = 48
hash_size sha512 = 64

-- The options of `Sign`: a hash alone, or `rsa.PSSOptions`.
pub data SignerOpts : Type 0 where
  plain : Hash → SignerOpts
  pss : (salt_length : ℤ) → Hash → SignerOpts
