-- ===== src/Codes/ValueTypes.antt =====
-- How `valueType` of p11kit/attribute.go sorts the attribute types by the encoding of their values.
use go_p11_kit.Base.{ℕ, List, [], ◌∷◌, if◌then◌else◌, contains}
use go_p11_kit.Codes.Attributes.{
  attribute_ac_issuer, attribute_allowed_mechanisms, attribute_always_authenticate,
  attribute_always_sensitive, attribute_application, attribute_attr_types, attribute_auth_pin_flags,
  attribute_base, attribute_bits_per_pixel, attribute_certificate_category,
  attribute_certificate_type, attribute_char_columns, attribute_char_rows, attribute_char_sets,
  attribute_check_value, attribute_class, attribute_coefficient, attribute_color,
  attribute_copyable, attribute_decrypt, attribute_default_cms_attributes, attribute_derive,
  attribute_ec_params, attribute_ec_point, attribute_encoding_methods, attribute_encrypt,
  attribute_end_date, attribute_exponent1, attribute_exponent2, attribute_extractable,
  attribute_has_reset, attribute_hash_of_issuer_public_key, attribute_hash_of_subject_public_key,
  attribute_hw_feature_type, attribute_id, attribute_issuer, attribute_java_midp_security_domain,
  attribute_key_gen_mechanism, attribute_key_type, attribute_label, attribute_local,
  attribute_mechanism_type, attribute_mime_types, attribute_modifiable, attribute_modulus,
  attribute_modulus_bits, attribute_never_extractable, attribute_object_id, attribute_owner,
  attribute_pixel_x, attribute_pixel_y, attribute_prime, attribute_prime1, attribute_prime2,
  attribute_prime_bits, attribute_private, attribute_private_exponent, attribute_public_exponent,
  attribute_public_key_info, attribute_required_cms_attributes, attribute_reset_on_init,
  attribute_resolution, attribute_secondary_auth, attribute_sensitive, attribute_serial_number,
  attribute_sign, attribute_sign_recover, attribute_start_date, attribute_subject,
  attribute_subprime, attribute_subprime_bits, attribute_supported_cms_attributes, attribute_token,
  attribute_trusted, attribute_unwrap, attribute_unwrap_template, attribute_url, attribute_value,
  attribute_value_bits, attribute_value_len, attribute_verify, attribute_verify_recover,
  attribute_wrap, attribute_wrap_template, attribute_wrap_with_trusted,
}

-- `unsupported` is the 0 of the source.
pub data ValueType : Type 0 where
  byte ulong mechanism_array date byte_array unsupported : ValueType

byte_types : List ℕ
byte_types =
    attribute_token ∷ attribute_private ∷ attribute_trusted ∷ attribute_sensitive
    ∷ attribute_encrypt ∷ attribute_decrypt ∷ attribute_wrap ∷ attribute_unwrap ∷ attribute_sign
    ∷ attribute_sign_recover ∷ attribute_verify ∷ attribute_verify_recover ∷ attribute_derive
    ∷ attribute_extractable ∷ attribute_local ∷ attribute_never_extractable
    ∷ attribute_always_sensitive ∷ attribute_modifiable ∷ attribute_copyable
    ∷ attribute_secondary_auth ∷ attribute_always_authenticate ∷ attribute_wrap_with_trusted
    ∷ attribute_reset_on_init ∷ attribute_has_reset ∷ attribute_color ∷ []

ulong_types : List ℕ
ulong_types =
    attribute_class ∷ attribute_certificate_type ∷ attribute_certificate_category
    ∷ attribute_java_midp_security_domain ∷ attribute_key_type ∷ attribute_modulus_bits
    ∷ attribute_prime_bits ∷ attribute_subprime_bits ∷ attribute_value_bits ∷ attribute_value_len
    ∷ attribute_key_gen_mechanism ∷ attribute_auth_pin_flags ∷ attribute_hw_feature_type
    ∷ attribute_pixel_x ∷ attribute_pixel_y ∷ attribute_resolution ∷ attribute_char_rows
    ∷ attribute_char_columns ∷ attribute_bits_per_pixel ∷ attribute_mechanism_type ∷ []

template_types : List ℕ
template_types = attribute_wrap_template ∷ attribute_unwrap_template ∷ []

mechanism_array_types : List ℕ
mechanism_array_types = attribute_allowed_mechanisms ∷ []

date_types : List ℕ
date_types = attribute_start_date ∷ attribute_end_date ∷ []

byte_array_types : List ℕ
byte_array_types =
    attribute_label ∷ attribute_application ∷ attribute_value ∷ attribute_object_id
    ∷ attribute_issuer ∷ attribute_serial_number ∷ attribute_ac_issuer ∷ attribute_owner
    ∷ attribute_attr_types ∷ attribute_url ∷ attribute_hash_of_subject_public_key
    ∷ attribute_hash_of_issuer_public_key ∷ attribute_check_value ∷ attribute_subject ∷ attribute_id
    ∷ attribute_modulus ∷ attribute_public_exponent ∷ attribute_private_exponent ∷ attribute_prime1
    ∷ attribute_prime2 ∷ attribute_exponent1 ∷ attribute_exponent2 ∷ attribute_coefficient
    ∷ attribute_public_key_info ∷ attribute_prime ∷ attribute_subprime ∷ attribute_base
    ∷ attribute_ec_params ∷ attribute_ec_point ∷ attribute_char_sets ∷ attribute_encoding_methods
    ∷ attribute_mime_types ∷ attribute_required_cms_attributes ∷ attribute_default_cms_attributes
    ∷ attribute_supported_cms_attributes ∷ []

unfoldable pub value_type : ℕ → ValueType
unfolding byte_types ulong_types template_types mechanism_array_types date_types byte_array_types
value_type a =
    if contains byte_types a
    then byte
    else if contains ulong_types a
    then ulong
    else if contains template_types a
    then unsupported
    else if contains mechanism_array_types a
    then mechanism_array
    else if contains date_types a
    then date
    else if contains byte_array_types a
    then byte_array
    else unsupported
