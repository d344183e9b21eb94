-- ===== src/Wire/Mechanisms.antt =====
-- The `mechanism` of p11kit/attribute.go, and how p11kit/rpc.go reads it.
use go_p11_kit.Base.{
  ℕ, Bool, true, false, Option, none, some, [], ◌∷◌, ◌==◌, if◌then◌else◌, contains, length,
}
use go_p11_kit.Codes.Mechanisms.{
  ckm_rsa_key_pair_gen, ckm_ec_key_pair_gen, ckm_rsa_pkcs, ckm_ecdsa, ckm_rsa_pkcs_pss,
  ckm_ecdh1_derive,
}
use go_p11_kit.Wire.Buffer
use go_p11_kit.Wire.Buffer.{
  Bytes, Reader, ◌>>=◌, ◌>>◌, pure, uint32, uint64, byte_array, peek_uint32, null_length,
}

-- The dynamic types of the field `params`: nil, `[]byte` (itself perhaps nil),
-- `rsaPKCSPSSParams` and `ecdh1DeriveParams`.
pub data Params : Type 0 where
  no_params : Params
  raw : Option Bytes → Params
  rsa_pkcs_pss_params : (hash_alg mgf salt_len : ℕ) → Params
  ecdh1_derive_params : (kdf : ℕ) → (shared_data public_data : Option Bytes) → Params

pub record Mechanism : Type 0 where
  pub typ : ℕ
  pub params : Params

abbrev pub zero_mechanism : Mechanism
zero_mechanism = record { typ = 0; params = no_params }

unfoldable pub has_no_params : Params → Bool
has_no_params (raw none) = true
has_no_params (raw (some b)) = length b == 0
has_no_params no_params = false
has_no_params (rsa_pkcs_pss_params h m s) = false
has_no_params (ecdh1_derive_params k s p) = false

unfoldable pub mechanism_has_no_parameters : ℕ → Bool
mechanism_has_no_parameters =
    contains
      (ckm_rsa_key_pair_gen ∷ ckm_ec_key_pair_gen ∷ ckm_rsa_pkcs ∷ ckm_ecdsa ∷ 0xffff_ffff ∷ [])

-- The marker that old clients append to a mechanism without parameters is skipped.
unfoldable pub skip_marker : Reader (Unit {0})
unfolding uint32 peek_uint32
skip_marker b = if peek_uint32 null_length b then (some tt, (uint32 b).1) else (some tt, b)

rsa_pkcs_pss_reader : Reader Params
unfolding uint64
rsa_pkcs_pss_reader = do
  hash_alg ← uint64
  mgf ← uint64
  salt_len ← uint64
  pure (rsa_pkcs_pss_params hash_alg mgf salt_len)

ecdh1_derive_reader : Reader Params
unfolding uint64 byte_array
ecdh1_derive_reader = do
  kdf ← uint64
  shared_data ← byte_array
  public_data ← byte_array
  pure (ecdh1_derive_params kdf shared_data public_data)

raw_reader : Reader Params
unfolding byte_array
raw_reader = do p ← byte_array; pure (raw p)

-- The `switch` of `readMechanism`.
unfoldable pub typed_params : ℕ → Reader Params
unfolding rsa_pkcs_pss_reader ecdh1_derive_reader raw_reader
typed_params t =
    if t == ckm_rsa_pkcs_pss
    then rsa_pkcs_pss_reader
    else if t == ckm_ecdh1_derive
    then ecdh1_derive_reader
    else raw_reader

plain_reader : Reader Params
unfolding skip_marker
plain_reader = do skip_marker; pure (raw (some []))

param_reader : ℕ → Reader Params
unfolding typed_params Buffer.byte
param_reader t = do
  has_param ← Buffer.byte
  if has_param == 0 then pure (raw (some [])) else typed_params t

unfoldable pub params_of : ℕ → Reader Params
unfolding mechanism_has_no_parameters plain_reader param_reader
params_of t = if mechanism_has_no_parameters t then plain_reader else param_reader t

unfoldable pub mechanism : Reader Mechanism
unfolding params_of uint32
mechanism = do t ← uint32; p ← params_of t; pure (record { typ = t; params = p })
