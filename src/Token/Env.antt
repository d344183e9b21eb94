-- ===== src/Token/Env.antt =====
-- What the library calls and does not implement: keys, randomness, ASN.1 and curve arithmetic of
-- Go's crypto packages, and the callbacks of a slot. One value answers the calls of one request, so
-- another request may get other answers.
use go_p11_kit.Base.{ℕ, Bool, Option, List}
use go_p11_kit.Base.Int.{ℤ}
use go_p11_kit.Result.{Result}
use go_p11_kit.Wire.Buffer.{Bytes}
use go_p11_kit.Token.Keys.{Curve, PublicKey, Signer, Hash, SignerOpts}
use go_p11_kit.Token.Object.{Object}

pub record Env : Type 0 where
  -- priv.Sign(rand.Reader, data, opts)
  pub sign : Signer → Bytes → SignerOpts → Result Bytes
  -- asn1.Unmarshal into R and S, of which the absolute values are used
  pub unmarshal_signature : Bytes → Result (ℕ × ℕ)
  -- the n-th rand.Int(rand.Reader, maxUint64) of the request
  pub random : ℕ → Result ℕ
  -- x509.MarshalPKIXPublicKey, and asn1.Marshal of an object identifier, an octet string and an
  -- integer: `none` is their error
  pub marshal_public : PublicKey → Option Bytes
  pub marshal_oid : List ℕ → Option Bytes
  pub marshal_octets : Bytes → Option Bytes
  pub marshal_integer : ℕ → Option Bytes
  -- asn1.Unmarshal into an object identifier: `none` is its error
  pub unmarshal_oid : Bytes → Option (List ℕ)
  -- elliptic.Marshal, IsOnCurve, and the x-coordinate of ScalarMult
  pub marshal_point : Curve → ℕ → ℕ → Bytes
  pub is_on_curve : Curve → ℕ → ℕ → Bool
  pub scalar_mult : Curve → ℕ → ℕ → ℕ → ℕ
  -- rsa.GenerateKey and ecdsa.GenerateKey: `none` is their error
  pub generate_rsa : ℤ → Option Signer
  pub generate_ecdsa : Curve → Option Signer
  -- the sum of a hash
  pub hash : Hash → Bytes → Bytes
  -- Slot.GetObjects and Slot.MechanismInfo of the slot with this ID
  pub get_objects : ℕ → Result (List Object)
  pub mechanism_info : ℕ → ℕ → Result (ℕ × ℕ × ℕ)
