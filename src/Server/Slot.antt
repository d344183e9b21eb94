-- ===== src/Server/Slot.antt =====
-- The `Slot` of p11kit/p11kit.go.
use go_p11_kit.Base.{
  ℕ, ◌*◌, ◌^◌, Bool, Option, none, some, List, [], ◌∷◌, ◌==◌, if◌then◌else◌, bit_or,
}
use go_p11_kit.Codes.Errors.{err_mechanism_invalid}
use go_p11_kit.Codes.Mechanisms.{
  ckm_rsa_key_pair_gen, ckm_rsa_pkcs, ckm_rsa_pkcs_pss, ckm_ec_key_pair_gen, ckm_ecdsa,
  ckm_ecdh1_derive, ckf_hw, ckf_generate_key_pair, ckf_sign, ckf_derive,
}
use go_p11_kit.Result.{Result, ok, err, ckr}
use go_p11_kit.Wire.Buffer.{Bytes}
use go_p11_kit.Wire.Body.Write.{Version}
use go_p11_kit.Token.Object.{Object}
use go_p11_kit.Token.Env.{Env}

-- The callbacks `GetObjects` and `MechanismInfo` are fields of `Env`; here is whether they are set.
pub record Slot : Type 0 where
  pub id : ℕ
  pub description : Bytes
  pub label : Bytes
  pub manufacturer : Bytes
  pub model : Bytes
  pub serial : Bytes
  pub hardware_version : Version
  pub firmware_version : Version
  pub objects : List Object
  pub has_get_objects : Bool
  pub mechanisms : Option (List ℕ)
  pub has_mechanism_info : Bool
  pub initialized : Bool

abbrev or_default : Option (List ℕ) → List ℕ
or_default (some ms) = ms
or_default none =
    ckm_rsa_key_pair_gen ∷ ckm_rsa_pkcs ∷ ckm_rsa_pkcs_pss ∷ ckm_ec_key_pair_gen ∷ ckm_ecdsa
    ∷ ckm_ecdh1_derive ∷ []

unfoldable pub slot_mechanisms : Slot → List ℕ
slot_mechanisms s = or_default s.mechanisms

abbrev max_size : ℕ
max_size = 2 * 2 ^ 24

-- The `switch` of `mechanismInfo`: the smallest and the largest key, and the flags.
unfoldable pub default_mechanism_info : ℕ → Result (ℕ × ℕ × ℕ)
default_mechanism_info m =
    if m == ckm_rsa_key_pair_gen
    then ok (0, max_size, bit_or ckf_hw ckf_generate_key_pair)
    else if m == ckm_rsa_pkcs
    then ok (0, max_size, bit_or ckf_hw ckf_sign)
    else if m == ckm_rsa_pkcs_pss
    then ok (0, max_size, bit_or ckf_hw ckf_sign)
    else if m == ckm_ec_key_pair_gen
    then ok (0, max_size, bit_or ckf_hw ckf_generate_key_pair)
    else if m == ckm_ecdsa
    then ok (0, max_size, bit_or ckf_hw ckf_sign)
    else if m == ckm_ecdh1_derive
    then ok (0, max_size, bit_or ckf_hw ckf_derive)
    else err (ckr err_mechanism_invalid)

unfoldable pub mechanism_info : Env → Slot → ℕ → Result (ℕ × ℕ × ℕ)
unfolding default_mechanism_info
mechanism_info env s m =
    if s.has_mechanism_info then env.mechanism_info s.id m else default_mechanism_info m
