-- ===== src/Examples/Names.antt =====
-- The theorem on the texts of numbers, at a number without a name in some tables, and some texts.
use go_p11_kit.Base.{◌≡◌, refl, codes, arith}
use go_p11_kit.Codes.Errors.{err_strings}
use go_p11_kit.Codes.Calls.{call_strings}
use go_p11_kit.Codes.AttributeNames.{attribute_strings}
use go_p11_kit.Codes.Names.{
  error_string, call_string, attribute_string, mechanism_to_string, mechanism_string,
}
use go_p11_kit.Codes.Names.RoundTrip.{read_name, read_name-string}

read_name-string_example :
    (read_name err_strings 16 (codes "unknown pkcs11 error: 0x") (error_string 1000) ≡ 1000)
    × (read_name call_strings 10 (codes "unknown call(") (call_string 1000) ≡ 1000)
    × (read_name attribute_strings 16 (codes "attribute(0x") (attribute_string 1000) ≡ 1000)
    × (read_name mechanism_to_string 16 (codes "CK_MECHANISM_TYPE(0x") (mechanism_string 1000)
        ≡ 1000)
read_name-string_example = read_name-string 1000 (omega arith)

error_string-unknown : error_string 1000 ≡ codes "unknown pkcs11 error: 0x000003e8"
unfolding error_string err_strings
error_string-unknown = refl

error_string-known : error_string 0xa0 ≡ codes "CKR_PIN_INCORRECT"
unfolding error_string err_strings
error_string-known = refl

call_string-unknown : call_string 1000 ≡ codes "unknown call(1000)"
unfolding call_string call_strings
call_string-unknown = refl
