-- ===== src/Token/Sign.antt =====
-- The `sign` functions of p11kit/attribute.go.
pub mod Width
use go_p11_kit.Base.{
  ℕ, zero, suc, ◌+◌, ◌*◌, ◌/◌, ◌%◌, ◌^◌, Bool, true, false, Option, none, some, List, [], ◌∷◌, ◌++◌,
  ltb, ◌==◌, not, if◌then◌else◌,
}
use go_p11_kit.Base.Int.{int_of_uint64}
use go_p11_kit.Codes.Errors.{
  err_key_handle_invalid, err_mechanism_invalid, err_arguments_bad, err_mechanism_param_invalid,
}
use go_p11_kit.Codes.Mechanisms.{
  ckm_rsa_pkcs, ckm_rsa_pkcs_pss, ckm_ecdsa, ckm_sha256, ckm_sha384, ckm_sha512, ckg_mgf1_sha256,
  ckg_mgf1_sha384, ckg_mgf1_sha512,
}
use go_p11_kit.Result.{
  Result, ok, err, ckr, failed, ◌>>=◌, unsupported_key, wrong_params, bad_signature,
}
use go_p11_kit.Wire.Buffer.{Bytes}
use go_p11_kit.Wire.Body.Read.{trim_prefix}
use go_p11_kit.Wire.Mechanisms.{
  Params, no_params, raw, rsa_pkcs_pss_params, ecdh1_derive_params, Mechanism, has_no_params,
}
use go_p11_kit.Token.Keys.{
  Curve, order_bits, PublicKey, ecdsa_public, rsa_public, other_public, Signer, public, Hash,
  no_hash, sha224, sha256, sha384, sha512, SignerOpts, plain, pss,
}
use go_p11_kit.Token.Object.{Object}
use go_p11_kit.Token.Env.{Env}

-- x.FillBytes of a slice of `w` bytes
unfoldable pub fill_bytes : ℕ → ℕ → Bytes
fill_bytes zero x = []
fill_bytes (suc w) x = fill_bytes w (x / 256) ++ (x % 256) ∷ []

-- x.BitLen() > 8 * w
abbrev pub too_large : ℕ → ℕ → Bool
too_large x w = not (ltb x (2 ^ (8 * w)))

-- (pub.Params().N.BitLen() + 7) / 8
abbrev pub scalar_size : Curve → ℕ
scalar_size c = (order_bits c + 7) / 8

-- The checks and the encoding at the end of `signECDSA`.
unfoldable pub raw_signature : PublicKey → ℕ × ℕ → Result Bytes
unfolding fill_bytes order_bits
raw_signature (ecdsa_public c x y) (r, s) =
    let size = scalar_size c in
    if too_large r size
    then err (failed bad_signature)
    else if too_large s size
    then err (failed bad_signature)
    else ok (fill_bytes size r ++ fill_bytes size s)
raw_signature (rsa_public n e) rs = err (failed unsupported_key)
raw_signature (other_public k) rs = err (failed unsupported_key)

-- The fixed prefixes of a DigestInfo, in the order of the source. Go goes through the map
-- `hashPrefixes` in an order of its own each time, so the order is an argument below.
abbrev pub hash_prefixes : List (Hash × Bytes)
hash_prefixes =
    (
      sha224,
      0x30 ∷ 0x2d ∷ 0x30 ∷ 0x0d ∷ 0x06 ∷ 0x09 ∷ 0x60 ∷ 0x86 ∷ 0x48 ∷ 0x01 ∷ 0x65 ∷ 0x03 ∷ 0x04
          ∷ 0x02 ∷ 0x04 ∷ 0x05 ∷ 0x00 ∷ 0x04 ∷ 0x1c ∷ [],
    )
    ∷ (
      sha256,
      0x30 ∷ 0x31 ∷ 0x30 ∷ 0x0d ∷ 0x06 ∷ 0x09 ∷ 0x60 ∷ 0x86 ∷ 0x48 ∷ 0x01 ∷ 0x65 ∷ 0x03 ∷ 0x04
          ∷ 0x02 ∷ 0x01 ∷ 0x05 ∷ 0x00 ∷ 0x04 ∷ 0x20 ∷ [],
    )
    ∷ (
      sha384,
      0x30 ∷ 0x41 ∷ 0x30 ∷ 0x0d ∷ 0x06 ∷ 0x09 ∷ 0x60 ∷ 0x86 ∷ 0x48 ∷ 0x01 ∷ 0x65 ∷ 0x03 ∷ 0x04
          ∷ 0x02 ∷ 0x02 ∷ 0x05 ∷ 0x00 ∷ 0x04 ∷ 0x30 ∷ [],
    )
    ∷ (
      sha512,
      0x30 ∷ 0x51 ∷ 0x30 ∷ 0x0d ∷ 0x06 ∷ 0x09 ∷ 0x60 ∷ 0x86 ∷ 0x48 ∷ 0x01 ∷ 0x65 ∷ 0x03 ∷ 0x04
          ∷ 0x02 ∷ 0x03 ∷ 0x05 ∷ 0x00 ∷ 0x04 ∷ 0x40 ∷ [],
    )
    ∷ []

abbrev or_else {ℓ} : {A B : Type ℓ} → Option A → (A → B) → B → B
or_else none f b = b
or_else (some a) f b = f a

-- The loop of `signRSAPKCS`: the first hash whose prefix the data has, and the digest behind it.
unfoldable pub find_prefix : List (Hash × Bytes) → Bytes → Option (Hash × Bytes)
unfolding trim_prefix
find_prefix [] d = none
find_prefix ((h, p) ∷ prefixes) d =
    let rest = find_prefix prefixes d in or_else (trim_prefix p d) (λ digest. some (h, digest)) rest

-- The hash and the mask generation function of a hash algorithm.
unfoldable pub pss_hash : ℕ → Option (Hash × ℕ)
pss_hash alg =
    if alg == ckm_sha256
    then some (sha256, ckg_mgf1_sha256)
    else if alg == ckm_sha384
    then some (sha384, ckg_mgf1_sha384)
    else if alg == ckm_sha512
    then some (sha512, ckg_mgf1_sha512)
    else none

abbrev pss_opts : Option (Hash × ℕ) → ℕ → ℕ → Result SignerOpts
pss_opts none mgf salt_len = err (ckr err_mechanism_param_invalid)
pss_opts (some (h, g)) mgf salt_len =
    if g == mgf then ok (pss (int_of_uint64 salt_len) h) else err (ckr err_mechanism_param_invalid)

unfoldable pub pss_options : Params → Result SignerOpts
unfolding pss_hash
pss_options (rsa_pkcs_pss_params alg mgf salt_len) = pss_opts (pss_hash alg) mgf salt_len
pss_options no_params = err (failed wrong_params)
pss_options (raw b) = err (failed wrong_params)
pss_options (ecdh1_derive_params k s p) = err (failed wrong_params)

module _ (env : Env) where
  unfoldable pub sign_ecdsa : Signer → Mechanism → Bytes → Result Bytes
  unfolding raw_signature has_no_params public
  sign_ecdsa priv m d = if not (has_no_params m.params) then err (ckr err_arguments_bad) else do
    der ← env.sign priv d (plain no_hash)
    rs ← env.unmarshal_signature der
    raw_signature (public priv) rs

  abbrev sign_digest : Signer → Option (Hash × Bytes) → Result Bytes
  sign_digest priv none = err (ckr err_arguments_bad)
  sign_digest priv (some (h, digest)) = env.sign priv digest (plain h)

  unfoldable pub sign_rsa_pkcs : List (Hash × Bytes) → Signer → Mechanism → Bytes → Result Bytes
  unfolding has_no_params find_prefix
  sign_rsa_pkcs prefixes priv m d =
      if not (has_no_params m.params)
      then err (ckr err_arguments_bad)
      else sign_digest priv (find_prefix prefixes d)

  unfoldable pub sign_rsa_pkcs_pss : Signer → Mechanism → Bytes → Result Bytes
  unfolding pss_options
  sign_rsa_pkcs_pss priv m d = do opts ← pss_options m.params; env.sign priv d opts

  unfoldable pub sign_with : Option Signer → Mechanism → Bytes → Result Bytes
  unfolding sign_ecdsa sign_rsa_pkcs sign_rsa_pkcs_pss
  sign_with none m d = err (ckr err_key_handle_invalid)
  sign_with (some priv) m d =
      if m.typ == ckm_rsa_pkcs
      then sign_rsa_pkcs hash_prefixes priv m d
      else if m.typ == ckm_rsa_pkcs_pss
      then sign_rsa_pkcs_pss priv m d
      else if m.typ == ckm_ecdsa
      then sign_ecdsa priv m d
      else err (ckr err_mechanism_invalid)

  unfoldable pub sign : Object → Mechanism → Bytes → Result Bytes
  unfolding sign_with
  sign o m d = sign_with o.priv_key m d
