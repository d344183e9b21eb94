-- ===== src/Token/Generate.antt =====
-- `generateKeyPair` of p11kit/attribute.go: new key pairs from the templates of C_GenerateKeyPair.
use go_p11_kit.Base.{
  ℕ, ◌%◌, ◌^◌, Bool, Option, none, some, List, [], ◌∷◌, ltb, ◌==◌, ◌&&◌, not, if◌then◌else◌, length,
  bytes_equal,
}
use go_p11_kit.Base.Int.{int_of_uint64}
use go_p11_kit.Codes.Attributes.{
  attribute_modulus_bits, attribute_public_exponent, attribute_ec_params,
}
use go_p11_kit.Codes.Errors.{
  err_attribute_value_invalid, err_template_incomplete, err_key_size_range, err_general_error,
  err_curve_not_supported, err_mechanism_invalid,
}
use go_p11_kit.Codes.Mechanisms.{ckm_rsa_key_pair_gen, ckm_ec_key_pair_gen}
use go_p11_kit.Result.{Result, ok, err, ckr, ◌>>=◌, or_fail}
use go_p11_kit.Wire.Buffer.{Bytes, be_value}
use go_p11_kit.Wire.Body.Read.{string_of}
use go_p11_kit.Wire.Attributes.{Attribute}
use go_p11_kit.Wire.Mechanisms.{Mechanism}
use go_p11_kit.Token.Keys.{Curve, p224, p256, p384, p521, Signer, public}
use go_p11_kit.Token.Object.{Object, set_attributes, find_attribute}
use go_p11_kit.Token.Create.{new_public_key_object, new_private_key_object}
use go_p11_kit.Token.Env.{Env}

-- `len(t.bytes) != 0 && n.SetBytes(t.bytes).Int64() != 65537`: the low 64 bits are compared.
unfoldable pub is_bad_exponent : Bytes → Bool
is_bad_exponent b = not (length b == 0) && not (be_value 0 b % 2 ^ 64 == 65537)

abbrev pub later_bits : Option ℕ → Option ℕ → Option ℕ
later_bits none old = old
later_bits (some n) old = some n

-- The loop of `generateRSAKeyPair`: the last CKA_MODULUS_BITS that is a number.
unfoldable pub modulus_bits : List Attribute → Option ℕ → Result (Option ℕ)
unfolding is_bad_exponent
modulus_bits [] bits = ok bits
modulus_bits (a ∷ tmpl) bits =
    let rest =
      modulus_bits tmpl
        (if a.typ == attribute_modulus_bits then later_bits a.ulong_value bits else bits) in
    if a.typ == attribute_public_exponent && is_bad_exponent (string_of a.bytes_value)
    then err (ckr err_attribute_value_invalid)
    else rest

-- The loop of `generateECKeyPair`: the bytes of the first CKA_EC_PARAMS.
unfoldable pub ec_params : Option Attribute → Bytes
ec_params none = []
ec_params (some a) = string_of a.bytes_value

-- The entries of `curveOIDs`; no two curves have one identifier, so their order does not matter.
abbrev pub curve_oids : List (Curve × List ℕ)
curve_oids =
    (p224, 1 ∷ 3 ∷ 132 ∷ 0 ∷ 33 ∷ [])
    ∷ (p256, 1 ∷ 2 ∷ 840 ∷ 10045 ∷ 3 ∷ 1 ∷ 7 ∷ [])
    ∷ (p384, 1 ∷ 3 ∷ 132 ∷ 0 ∷ 34 ∷ [])
    ∷ (p521, 1 ∷ 3 ∷ 132 ∷ 0 ∷ 35 ∷ [])
    ∷ []

abbrev pub curve_in : List (Curve × List ℕ) → List ℕ → Option Curve
curve_in [] oid = none
curve_in ((c, o) ∷ curves) oid = if bytes_equal o oid then some c else curve_in curves oid

unfoldable pub curve_for_oid : List ℕ → Option Curve
curve_for_oid oid = curve_in curve_oids oid

module _ (env : Env) where
  unfoldable pub generate_rsa_key_pair : List Attribute → Result Signer
  unfolding modulus_bits
  generate_rsa_key_pair tmpl = do
    found ← modulus_bits tmpl none
    bits ← or_fail found (ckr err_template_incomplete)
    if ltb bits 1024
        then err (ckr err_key_size_range)
        else or_fail (env.generate_rsa (int_of_uint64 bits)) (ckr err_general_error)

  unfoldable pub generate_ec_key_pair : List Attribute → Result Signer
  unfolding ec_params find_attribute curve_for_oid
  generate_ec_key_pair tmpl =
      let params = ec_params (find_attribute tmpl attribute_ec_params) in
      if length params == 0 then err (ckr err_template_incomplete) else do
        oid ← or_fail (env.unmarshal_oid params) (ckr err_curve_not_supported)
        curve ← or_fail (curve_for_oid oid) (ckr err_curve_not_supported)
        or_fail (env.generate_ecdsa curve) (ckr err_general_error)

  unfoldable pub generate_key : ℕ → List Attribute → Result Signer
  unfolding generate_rsa_key_pair generate_ec_key_pair
  generate_key t tmpl =
      if t == ckm_rsa_key_pair_gen
      then generate_rsa_key_pair tmpl
      else if t == ckm_ec_key_pair_gen
      then generate_ec_key_pair tmpl
      else err (ckr err_mechanism_invalid)

  unfoldable pub generate_key_pair :
      Mechanism → List Attribute → List Attribute → Result (Object × Object)
  unfolding generate_key new_public_key_object new_private_key_object set_attributes public
  generate_key_pair m pub_tmpl priv_tmpl = do
    key ← generate_key m.typ pub_tmpl
    public_object ← new_public_key_object env 0 (public key)
    private_object ← new_private_key_object env 1 (some key)
    ok (set_attributes public_object pub_tmpl, set_attributes private_object priv_tmpl)
