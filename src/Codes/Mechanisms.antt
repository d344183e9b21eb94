-- ===== src/Codes/Mechanisms.antt =====
-- The mechanism, hash, object and flag constants of p11kit/attribute.go and p11kit/p11kit.go.
use go_p11_kit.Base.{ℕ}

abbrev pub ckc_x509 : ℕ
ckc_x509 = 0

abbrev pub cku_so : ℕ
cku_so = 0x00000000

abbrev pub cku_user : ℕ
cku_user = 0x00000001

abbrev pub cko_data : ℕ
cko_data = 0x00000000

abbrev pub cko_certificate : ℕ
cko_certificate = 0x00000001

abbrev pub cko_public_key : ℕ
cko_public_key = 0x00000002

abbrev pub cko_private_key : ℕ
cko_private_key = 0x00000003

abbrev pub cko_secret_key : ℕ
cko_secret_key = 0x00000004

abbrev pub ckk_rsa : ℕ
ckk_rsa = 0x00000000

abbrev pub ckk_generic_secret : ℕ
ckk_generic_secret = 0x00000000

abbrev pub ckk_ecdsa : ℕ
ckk_ecdsa = 0x00000003

abbrev pub ckm_rsa_key_pair_gen : ℕ
ckm_rsa_key_pair_gen = 0x00000000

abbrev pub ckm_rsa_pkcs : ℕ
ckm_rsa_pkcs = 0x00000001

abbrev pub ckm_rsa_pkcs_pss : ℕ
ckm_rsa_pkcs_pss = 0x0000000d

abbrev pub ckm_ec_key_pair_gen : ℕ
ckm_ec_key_pair_gen = 0x00001040

abbrev pub ckm_ecdsa : ℕ
ckm_ecdsa = 0x00001041

abbrev pub ckm_ecdh1_derive : ℕ
ckm_ecdh1_derive = 0x00001050

abbrev pub ckm_sha256 : ℕ
ckm_sha256 = 0x00000250

abbrev pub ckm_sha384 : ℕ
ckm_sha384 = 0x00000260

abbrev pub ckm_sha512 : ℕ
ckm_sha512 = 0x00000270

abbrev pub ckg_mgf1_sha256 : ℕ
ckg_mgf1_sha256 = 0x00000002

abbrev pub ckg_mgf1_sha384 : ℕ
ckg_mgf1_sha384 = 0x00000003

abbrev pub ckg_mgf1_sha512 : ℕ
ckg_mgf1_sha512 = 0x00000004

abbrev pub ckd_null : ℕ
ckd_null = 0x00000001

abbrev pub ckd_sha224_kdf : ℕ
ckd_sha224_kdf = 0x00000005

abbrev pub ckd_sha256_kdf : ℕ
ckd_sha256_kdf = 0x00000006

abbrev pub ckd_sha384_kdf : ℕ
ckd_sha384_kdf = 0x00000007

abbrev pub ckd_sha512_kdf : ℕ
ckd_sha512_kdf = 0x00000008

abbrev pub ckf_hw : ℕ
ckf_hw = 0x00000001

abbrev pub ckf_generate_key_pair : ℕ
ckf_generate_key_pair = 0x00010000

abbrev pub ckf_derive : ℕ
ckf_derive = 0x00000010

abbrev pub ckf_encrypt : ℕ
ckf_encrypt = 0x00000100

abbrev pub ckf_decrypt : ℕ
ckf_decrypt = 0x00000200

abbrev pub ckf_sign : ℕ
ckf_sign = 0x00000800

abbrev pub ckf_verify : ℕ
ckf_verify = 0x00002000
