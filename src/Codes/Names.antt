-- ===== src/Codes/Names.antt =====
-- The `String` methods of p11kit/, and the verbs of Go's fmt that they use.
pub mod RoundTrip
use Prim.Native.String.{String}
use go_p11_kit.Base.{
  ℕ, zero, suc, ◌+◌, ◌-◌, ◌/◌, ◌%◌, Option, none, some, List, [], ◌∷◌, ◌++◌, ltb, ◌==◌,
  if◌then◌else◌, length, replicate, codes,
}
use go_p11_kit.Codes.Errors.{err_strings}
use go_p11_kit.Codes.Calls.{call_strings}
use go_p11_kit.Codes.AttributeNames.{attribute_strings}
use go_p11_kit.Codes.Mechanisms.{
  ckm_rsa_key_pair_gen, ckm_rsa_pkcs, ckm_rsa_pkcs_pss, ckm_ec_key_pair_gen, ckm_ecdsa,
  ckm_ecdh1_derive,
}

abbrev pub digit : ℕ → ℕ
digit k = if ltb k 10 then 48 + k else 87 + k

-- The digits of a number, on fuel; a uint64 has at most 20 in base 10 and 16 in base 16.
unfoldable pub number : (base fuel : ℕ) → ℕ → List ℕ
number base zero n = []
number base (suc fuel) n =
    let front = number base fuel (n / base) in
    if ltb n base then digit n ∷ [] else front ++ digit (n % base) ∷ []

-- %d
unfoldable pub decimal : ℕ → List ℕ
unfolding number
decimal n = number 10 20 n

-- %x
unfoldable pub hex : ℕ → List ℕ
unfolding number
hex n = number 16 16 n

-- A width of `width` with zeros.
unfoldable pub pad : ℕ → List ℕ → List ℕ
pad width s = replicate (width - length s) 48 ++ s

-- `s, ok := table[n]`
unfoldable pub find_string : List (ℕ × String) → ℕ → Option String
find_string [] n = none
find_string ((k, s) ∷ table) n = if k == n then some s else find_string table n

abbrev pub name_or : Option String → List ℕ → List ℕ
name_or (some s) unknown = codes s
name_or none unknown = unknown

unfoldable pub error_string : ℕ → List ℕ
unfolding find_string err_strings hex pad
error_string e =
    name_or (find_string err_strings e) (codes "unknown pkcs11 error: 0x" ++ pad 8 (hex e))

unfoldable pub call_string : ℕ → List ℕ
unfolding find_string call_strings decimal
call_string c =
    name_or (find_string call_strings c) (codes "unknown call(" ++ (decimal c ++ codes ")"))

unfoldable pub attribute_string : ℕ → List ℕ
unfolding find_string attribute_strings hex
attribute_string a =
    name_or (find_string attribute_strings a) (codes "attribute(0x" ++ (hex a ++ codes ")"))

unfoldable pub mechanism_to_string : List (ℕ × String)
mechanism_to_string =
    (ckm_rsa_key_pair_gen, "CKM_RSA_PKCS_KEY_PAIR_GEN")
    ∷ (ckm_rsa_pkcs, "CKM_RSA_PKCS")
    ∷ (ckm_rsa_pkcs_pss, "CKM_RSA_PKCS_PSS")
    ∷ (ckm_ec_key_pair_gen, "CKM_EC_KEY_PAIR_GEN")
    ∷ (ckm_ecdsa, "CKM_ECDSA")
    ∷ (ckm_ecdh1_derive, "CKM_ECDH1_DERIVE")
    ∷ []

unfoldable pub mechanism_string : ℕ → List ℕ
unfolding find_string mechanism_to_string hex pad
mechanism_string t =
    name_or (find_string mechanism_to_string t)
      (codes "CK_MECHANISM_TYPE(0x" ++ (pad 8 (hex t) ++ codes ")"))
