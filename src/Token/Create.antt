-- ===== src/Token/Create.antt =====
-- The objects that p11kit/attribute.go makes of keys and certificates.
pub mod Sensitive
use go_p11_kit.Base.{
  ℕ, zero, suc, ◌+◌, ◌*◌, ◌/◌, ◌%◌, ◌^◌, Bool, true, false, Option, none, some, List, [], ◌∷◌, ◌++◌,
  ◌==◌, if◌then◌else◌, length, not,
}
use go_p11_kit.Codes.Attributes.{
  attribute_class, attribute_verify_recover, attribute_wrap, attribute_derive, attribute_verify,
  attribute_local, attribute_public_key_info, attribute_token, attribute_sensitive,
  attribute_always_sensitive, attribute_extractable, attribute_never_extractable,
  attribute_always_authenticate, attribute_sign, attribute_unwrap, attribute_key_type,
  attribute_ec_params, attribute_decrypt, attribute_value, attribute_encrypt, attribute_ec_point,
  attribute_modulus, attribute_modulus_bits, attribute_public_exponent, attribute_private_exponent,
  attribute_prime1, attribute_prime2, attribute_exponent1, attribute_exponent2,
  attribute_coefficient, attribute_certificate_type, attribute_subject, attribute_issuer,
  attribute_id, attribute_serial_number, attribute_start_date, attribute_end_date,
  attribute_object_id,
}
use go_p11_kit.Codes.Mechanisms.{
  ckc_x509, cko_certificate, cko_public_key, cko_private_key, ckk_rsa, ckk_ecdsa,
}
use go_p11_kit.Result.{
  Result, ok, err, failed, unsupported_key, no_encoding, not_a_key, ◌>>=◌, or_fail,
}
use go_p11_kit.Wire.Buffer.{Bytes}
use go_p11_kit.Wire.Dates.{Time}
use go_p11_kit.Wire.Attributes.{
  Attribute, empty_attribute, byte_attribute, ulong_attribute, date_attribute, bytes_attribute,
}
use go_p11_kit.Token.Keys.{
  Curve, p224, p256, p384, p521, other_curve, PublicKey, ecdsa_public, rsa_public, other_public,
  Signer, public,
}
use go_p11_kit.Token.Object.{Object}
use go_p11_kit.Token.Env.{Env}

-- x.Bytes(): as many bytes as the number needs, which is fewer than its value and one.
unfoldable pub nat_bytes : ℕ → ℕ → Bytes
nat_bytes zero x = []
nat_bytes (suc fuel) x =
    let front = nat_bytes fuel (x / 256) in if x == 0 then [] else front ++ (x % 256) ∷ []

abbrev pub oid_named_curve : Curve → Option (List ℕ)
oid_named_curve p224 = some (1 ∷ 3 ∷ 132 ∷ 0 ∷ 33 ∷ [])
oid_named_curve p256 = some (1 ∷ 2 ∷ 840 ∷ 10045 ∷ 3 ∷ 1 ∷ 7 ∷ [])
oid_named_curve p384 = some (1 ∷ 3 ∷ 132 ∷ 0 ∷ 34 ∷ [])
oid_named_curve p521 = some (1 ∷ 3 ∷ 132 ∷ 0 ∷ 35 ∷ [])
oid_named_curve (other_curve b o) = none

-- The attributes that both classes of key have.
unfoldable pub common_attributes : Bytes → Bool → List Attribute
common_attributes spki is_private =
    ulong_attribute attribute_class (if is_private then cko_private_key else cko_public_key)
    ∷ byte_attribute attribute_verify_recover 0
    ∷ byte_attribute attribute_wrap 0
    ∷ byte_attribute attribute_derive 0
    ∷ byte_attribute attribute_verify (if is_private then 0 else 1)
    ∷ byte_attribute attribute_local 0
    ∷ bytes_attribute attribute_public_key_info (some spki)
    ∷ []

unfoldable pub private_attributes : Bool → List Attribute
private_attributes false = []
private_attributes true =
    byte_attribute attribute_token 1
    ∷ byte_attribute attribute_sensitive 1
    ∷ byte_attribute attribute_always_sensitive 1
    ∷ byte_attribute attribute_extractable 0
    ∷ byte_attribute attribute_never_extractable 1
    ∷ byte_attribute attribute_always_authenticate 0
    ∷ byte_attribute attribute_sign 1
    ∷ byte_attribute attribute_unwrap 0
    ∷ []

-- The end of the attributes of an RSA key.
unfoldable pub rsa_attributes : ℕ → ℕ → Bool → List Attribute
unfolding nat_bytes
rsa_attributes n e is_private =
    let modulus = nat_bytes (suc n) n in
    let exponent = nat_bytes (suc e) e in
    ulong_attribute attribute_key_type ckk_rsa
    ∷ bytes_attribute attribute_modulus (some modulus)
    ∷ ulong_attribute attribute_modulus_bits (8 * length modulus % 2 ^ 64)
    ∷ bytes_attribute attribute_public_exponent (some exponent)
    ∷ (if is_private
        then byte_attribute attribute_decrypt 1
          ∷ empty_attribute attribute_private_exponent
          ∷ empty_attribute attribute_prime1
          ∷ empty_attribute attribute_prime2
          ∷ empty_attribute attribute_exponent1
          ∷ empty_attribute attribute_exponent2
          ∷ empty_attribute attribute_coefficient
          ∷ []
        else byte_attribute attribute_encrypt 1 ∷ [])

module _ (env : Env) where
  unfoldable pub ecdsa_point : Curve → ℕ → ℕ → Bool → Result (List Attribute)
  ecdsa_point c x y true =
      ok (byte_attribute attribute_decrypt 0 ∷ empty_attribute attribute_value ∷ [])
  ecdsa_point c x y false = do
    point ← or_fail (env.marshal_octets (env.marshal_point c x y)) (failed no_encoding)
    ok (byte_attribute attribute_encrypt 0 ∷ bytes_attribute attribute_ec_point (some point) ∷ [])

  -- The end of the attributes of an ECDSA key.
  unfoldable pub ecdsa_attributes : Curve → ℕ → ℕ → Bool → Result (List Attribute)
  unfolding ecdsa_point
  ecdsa_attributes c x y is_private = do
    oid ← or_fail (oid_named_curve c) (failed unsupported_key)
    params ← or_fail (env.marshal_oid oid) (failed no_encoding)
    point ← ecdsa_point c x y is_private
    ok (
        ulong_attribute attribute_key_type ckk_ecdsa
        ∷ bytes_attribute attribute_ec_params (some params)
        ∷ point)

  unfoldable pub typed_attributes : PublicKey → Bool → Result (List Attribute)
  unfolding ecdsa_attributes rsa_attributes
  typed_attributes (ecdsa_public c x y) is_private = ecdsa_attributes c x y is_private
  typed_attributes (rsa_public n e) is_private = ok (rsa_attributes n e is_private)
  typed_attributes (other_public k) is_private = err (failed unsupported_key)

  unfoldable pub new_key_object : PublicKey → Bool → Result (List Attribute)
  unfolding typed_attributes common_attributes private_attributes
  new_key_object key is_private = do
    spki ← or_fail (env.marshal_public key) (failed no_encoding)
    typed ← typed_attributes key is_private
    ok ((common_attributes spki is_private ++ private_attributes is_private) ++ typed)

  -- `draw` is how many random numbers the request has drawn before. A key that is no
  -- `crypto.Signer` is `none`.
  unfoldable pub new_private_key_object : ℕ → Option Signer → Result Object
  unfolding new_key_object public
  new_private_key_object draw priv = do
    signer ← or_fail priv (failed not_a_key)
    id ← env.random draw
    attrs ← new_key_object (public signer) true
    ok (record { id = id; attributes = attrs; pub_key = none; priv_key = some signer })

  unfoldable pub new_public_key_object : ℕ → PublicKey → Result Object
  unfolding new_key_object
  new_public_key_object draw key = do
    id ← env.random draw
    attrs ← new_key_object key false
    ok (record { id = id; attributes = attrs; pub_key = some key; priv_key = none })

-- The fields of an `x509.Certificate` that are read. A raw field may be nil.
pub record Certificate : Type 0 where
  pub serial_number : ℕ
  pub raw : Option Bytes
  pub raw_subject : Option Bytes
  pub raw_issuer : Option Bytes
  pub raw_subject_public_key_info : Option Bytes
  pub not_before : Time
  pub not_after : Time
  pub public_key : PublicKey

abbrev pub is_key : Option PublicKey → Option Signer → Bool
is_key none none = false
is_key (some p) s = true
is_key none (some s) = true

module _ (env : Env) where
  unfoldable pub new_x509_certificate_object : ℕ → Certificate → Result Object
  new_x509_certificate_object draw cert = do
    id ← env.random draw
    serial ← or_fail (env.marshal_integer cert.serial_number) (failed no_encoding)
    ok (record {
      id = id;
      attributes =
          byte_attribute attribute_token 1
          ∷ ulong_attribute attribute_class cko_certificate
          ∷ ulong_attribute attribute_certificate_type ckc_x509
          ∷ bytes_attribute attribute_subject cert.raw_subject
          ∷ bytes_attribute attribute_issuer cert.raw_issuer
          ∷ bytes_attribute attribute_value cert.raw
          ∷ bytes_attribute attribute_id (some serial)
          ∷ bytes_attribute attribute_serial_number (some serial)
          ∷ date_attribute attribute_start_date cert.not_before
          ∷ date_attribute attribute_end_date cert.not_after
          ∷ bytes_attribute attribute_public_key_info cert.raw_subject_public_key_info
          ∷ [];
      pub_key = none;
      priv_key = none;
    })

  unfoldable pub set_certificate : Object → Certificate → Result Object
  set_certificate o cert = if not (is_key o.pub_key o.priv_key) then err (failed not_a_key) else do
    serial ← or_fail (env.marshal_integer cert.serial_number) (failed no_encoding)
    ok (record o {
      attributes =
          o.attributes
          ++ bytes_attribute attribute_id (some serial)
            ∷ bytes_attribute attribute_subject cert.raw_subject
            ∷ bytes_attribute attribute_object_id (some serial)
            ∷ bytes_attribute attribute_public_key_info cert.raw_subject_public_key_info
            ∷ [];
    })
