-- ===== src/Examples/Generator.antt =====
-- The theorem on the generator of errors.go, and its list of definitions.
use go_p11_kit.Base.{
  ℕ, ◌≡◌, refl, List, [], ◌∷◌, map, All, codes, ◌+◌, ◌-◌, ◌*◌, ltb, if◌then◌else◌, drop, split,
  split_by, fields, to_lower, trim_suffix,
}
use go_p11_kit.Codes.Errors.{err_strings}
use go_p11_kit.ErrorsGenerate.Raw.{spread, ckr_raw}
use go_p11_kit.ErrorsGenerate.{ErrorCode, cased, to_go_name, code_of, codes_of, error_codes}
use go_p11_kit.ErrorsGenerate.Lines.{
  Define, define_line, IsDefine, is_word-IsWord, listed, error_codes-spread,
}

abbrev defines : List Define
defines =
    record { name = codes "CKR_OK"; padding = 3; number = codes "0x00000000UL" }
    ∷ record { name = codes "CKR_PIN_INCORRECT"; padding = 1; number = codes "0x000000A0UL" }
    ∷ []

defines-IsDefine : All IsDefine defines
defines-IsDefine = (
  (is_word-IsWord (codes "CKR_OK") refl, is_word-IsWord (codes "0x00000000UL") refl),
  (
    (is_word-IsWord (codes "CKR_PIN_INCORRECT") refl, is_word-IsWord (codes "0x000000A0UL") refl),
    tt,
  ),
)

error_codes-spread_example : error_codes (spread (map define_line defines)) ≡ listed defines
error_codes-spread_example = error_codes-spread defines defines-IsDefine

listed-defines :
    listed defines
    ≡ record {
      spec_name = codes "CKR_PIN_INCORRECT";
      go_name = codes "errPINIncorrect";
      value = codes "0x000000a0";
    }
      ∷ []
unfolding split split_by cased to_go_name to_lower trim_suffix
listed-defines = refl

abbrev digit : ℕ → ℕ
digit c = if ltb c 58 then c - 48 else c - 87

abbrev hex : ℕ → List ℕ → ℕ
hex n [] = n
hex n (c ∷ s) = hex (n * 16 + digit c) s

abbrev row : ErrorCode → ℕ × List ℕ
row c = (hex 0 (drop 2 c.value), c.spec_name)

-- The generator's own text has the codes and the names of errors.go, in their order.
error_codes-ckr_raw : map row (error_codes ckr_raw) ≡ map (λ p. (p.0, codes p.1)) err_strings
unfolding error_codes ckr_raw codes_of code_of split fields to_lower trim_suffix err_strings
error_codes-ckr_raw = refl
