-- ===== src/Token/Derive.antt =====
-- CKM_ECDH1_DERIVE: `deriveECDH` of p11kit/attribute.go and what it calls.
pub mod Kdf
pub mod Resize
pub mod Permission
use go_p11_kit.Base.{
  ℕ, zero, suc, ◌+◌, ◌-◌, ◌*◌, ◌/◌, ◌%◌, ◌^◌, Bool, true, false, Option, none, some, List, [], ◌∷◌,
  ◌++◌, ltb, leb, ◌==◌, ◌||◌, not, if◌then◌else◌, length, take, drop, replicate,
}
use mathlib.Core.Option.{get_or}
use go_p11_kit.Base.Int.{ℤ, pos, negsuc, int_of_uint64}
use go_p11_kit.Codes.Attributes.{
  attribute_derive, attribute_class, attribute_key_type, attribute_value_len, attribute_value,
}
use go_p11_kit.Codes.Errors.{
  err_key_type_inconsistent, err_key_function_not_permitted, err_mechanism_param_invalid,
  err_arguments_bad, err_domain_params_invalid,
}
use go_p11_kit.Codes.Mechanisms.{
  ckd_null, ckd_sha224_kdf, ckd_sha256_kdf, ckd_sha384_kdf, ckd_sha512_kdf, cko_secret_key,
  ckk_generic_secret,
}
use go_p11_kit.Result.{Result, ok, err, ckr, failed, panicked, ◌>>=◌, ◌>>◌}
use go_p11_kit.Wire.Buffer.{Bytes, be32, be_value}
use go_p11_kit.Wire.Body.Read.{string_of}
use go_p11_kit.Wire.Attributes.{Attribute, ulong_attribute, bytes_attribute}
use go_p11_kit.Wire.Mechanisms.{
  Params, no_params, raw, rsa_pkcs_pss_params, ecdh1_derive_params, Mechanism,
}
use go_p11_kit.Token.Keys.{
  Curve, bit_size, Signer, ecdsa_private, other_private, Hash, sha224, sha256, sha384, sha512,
}
use go_p11_kit.Token.Object
use go_p11_kit.Token.Object.{Object}
use go_p11_kit.Token.Sign.{fill_bytes}
use go_p11_kit.Token.Env.{Env}

-- The most that `make` allocates on a 64-bit machine; beyond it `make` panics.
abbrev pub max_alloc : ℕ
max_alloc = 2 ^ 48

-- The copies of `resizeSecret`: the leading bytes, or leading zeros.
unfoldable pub resized : Bytes → ℕ → Bytes
resized secret n =
    if ltb n (length secret) then take n secret else replicate (n - length secret) 0 ++ secret

unfoldable pub resize_secret : Bytes → ℕ → Result Bytes
unfolding resized
resize_secret secret n =
    if length secret == n
    then ok secret
    else if ltb max_alloc n
    then err (failed panicked)
    else ok (resized secret n)

unfoldable pub hash_for_kdf : ℕ → Result Hash
hash_for_kdf kdf =
    if kdf == ckd_sha224_kdf
    then ok sha224
    else if kdf == ckd_sha256_kdf
    then ok sha256
    else if kdf == ckd_sha384_kdf
    then ok sha384
    else if kdf == ckd_sha512_kdf
    then ok sha512
    else err (ckr err_mechanism_param_invalid)

-- The last value of this type in a template that `setUint64` takes.
unfoldable pub last_ulong : ℕ → List Attribute → ℕ → ℕ
last_ulong t [] n = n
last_ulong t (a ∷ tmpl) n = last_ulong t tmpl (if a.typ == t then get_or a.ulong_value n else n)

-- `a.setByte(&b) && b != 0`
unfoldable pub is_true : Option ℕ → Bool
is_true none = false
is_true (some b) = not (b == 0)

abbrev pub permitted : Option Attribute → Result (Unit {0})
permitted none = err (ckr err_key_function_not_permitted)
permitted (some a) =
    if is_true a.byte_value then ok tt else err (ckr err_key_function_not_permitted)

-- The guard on CKA_DERIVE.
unfoldable pub check_derive : Object → Result (Unit {0})
unfolding is_true Object.attribute_value
check_derive o = permitted (Object.attribute_value o attribute_derive)

module _ (env : Env) where
  -- Hash(Z || counter || sharedData)
  unfoldable pub kdf_block : Hash → Bytes → Bytes → ℕ → Bytes
  unfolding be32
  kdf_block h secret shared counter = env.hash h (secret ++ (be32 counter ++ shared))

  -- The loop of `x963KDF`, on fuel; the counter wraps as a uint32 does.
  unfoldable pub kdf_loop : ℕ → Hash → Bytes → Bytes → ℕ → ℕ → Bytes → Bytes
  unfolding kdf_block
  kdf_loop zero h secret shared out_len counter out = out
  kdf_loop (suc fuel) h secret shared out_len counter out =
      let more =
        kdf_loop fuel h secret shared out_len ((counter + 1) % 2 ^ 32)
          (out ++ kdf_block h secret shared counter) in
      if ltb (length out) out_len then more else out

  -- Each round adds a byte at least, so `out_len` rounds are enough.
  unfoldable pub x963_kdf : Bytes → Hash → Bytes → ℤ → Result Bytes
  unfolding kdf_loop
  x963_kdf secret h shared (pos zero) = err (ckr err_mechanism_param_invalid)
  x963_kdf secret h shared (pos (suc n)) =
      ok (take (suc n) (kdf_loop (suc n) h secret shared (suc n) 1 []))
  x963_kdf secret h shared (negsuc n) = err (ckr err_mechanism_param_invalid)

  -- `publicData[0] != 0x04`, for data of the right length
  abbrev is_uncompressed : Bytes → Bool
  is_uncompressed [] = false
  is_uncompressed (b ∷ bs) = b == 0x04

  abbrev on_curve_secret : Curve → ℕ → ℕ → ℕ → ℕ → Result Bytes
  on_curve_secret c d byte_len x y =
      if not (env.is_on_curve c x y)
      then err (ckr err_domain_params_invalid)
      else ok (fill_bytes byte_len (env.scalar_mult c x y d))

  unfoldable pub ecdh_shared_secret : Curve → ℕ → Bytes → Result Bytes
  unfolding bit_size fill_bytes
  ecdh_shared_secret c d public_data =
      let byte_len = (bit_size c + 7) / 8 in
      if not (length public_data == 1 + 2 * byte_len) || not (is_uncompressed public_data)
      then err (ckr err_arguments_bad)
      else on_curve_secret c d byte_len (be_value 0 (take byte_len (drop 1 public_data)))
          (be_value 0 (drop (1 + byte_len) public_data))

  -- The key derivation function, unless it is CKD_NULL.
  unfoldable pub apply_kdf : ℕ → Bytes → Bytes → ℕ → Result Bytes
  unfolding hash_for_kdf x963_kdf
  apply_kdf kdf secret shared value_len =
      if kdf == ckd_null
      then ok secret
      else do h ← hash_for_kdf kdf; x963_kdf secret h shared (int_of_uint64 value_len)

  -- The rest of `deriveECDH`, once the shared secret is known.
  unfoldable pub derived_object : ℕ → Bytes → List Attribute → Bytes → Result Object
  unfolding last_ulong apply_kdf resize_secret
  derived_object kdf shared tmpl secret =
      let class = last_ulong attribute_class tmpl cko_secret_key in
      let key_type = last_ulong attribute_key_type tmpl ckk_generic_secret in
      let value_len = last_ulong attribute_value_len tmpl (length secret) in
      do
        stretched ← apply_kdf kdf secret shared value_len
        value ← resize_secret stretched value_len
        id ← env.random 0
        ok (record {
          id = id;
          attributes =
              ulong_attribute attribute_class class
              ∷ ulong_attribute attribute_key_type key_type
              ∷ bytes_attribute attribute_value (some value)
              ∷ ulong_attribute attribute_value_len value_len
              ∷ [];
          pub_key = none;
          priv_key = none;
        })

  abbrev derive_with : Option Signer → ℕ → Bytes → Bytes → Object → List Attribute → Result Object
  derive_with none kdf shared public_data base tmpl = err (ckr err_key_type_inconsistent)
  derive_with (some (other_private k p)) kdf shared public_data base tmpl =
      err (ckr err_key_type_inconsistent)
  derive_with (some (ecdsa_private c x y d)) kdf shared public_data base tmpl = do
    check_derive base
    secret ← ecdh_shared_secret c d public_data
    derived_object kdf shared tmpl secret

  abbrev derive_params : Params → Object → List Attribute → Result Object
  derive_params (ecdh1_derive_params kdf shared public_data) base tmpl =
      derive_with base.priv_key kdf (string_of shared) (string_of public_data) base tmpl
  derive_params no_params base tmpl = err (ckr err_mechanism_param_invalid)
  derive_params (raw b) base tmpl = err (ckr err_mechanism_param_invalid)
  derive_params (rsa_pkcs_pss_params h m s) base tmpl = err (ckr err_mechanism_param_invalid)

  unfoldable pub derive_ecdh : Mechanism → Object → List Attribute → Result Object
  unfolding check_derive ecdh_shared_secret derived_object
  derive_ecdh m base tmpl = derive_params m.params base tmpl
