-- ===== src/Codes/AttributeNames.antt =====
-- The names of the attribute types, `attributeString` of p11kit/attribute.go.
use Prim.Native.String.{String}
use go_p11_kit.Base.{ℕ, List, [], ◌∷◌}
use go_p11_kit.Codes.Attributes.{
  attribute_ac_issuer, attribute_allowed_mechanisms, attribute_always_authenticate,
  attribute_always_sensitive, attribute_application, attribute_attr_types, attribute_auth_pin_flags,
  attribute_base, attribute_bits_per_pixel, attribute_certificate_category,
  attribute_certificate_type, attribute_char_columns, attribute_char_rows, attribute_char_sets,
  attribute_check_value, attribute_class, attribute_coefficient, attribute_color,
  attribute_copyable, attribute_decrypt, attribute_default_cms_attributes, attribute_derive,
  attribute_destroyable, attribute_ec_point, attribute_ecdsa_params, attribute_encoding_methods,
  attribute_encrypt, attribute_end_date, attribute_exponent1, attribute_exponent2,
  attribute_extractable, attribute_has_reset, attribute_hash_of_issuer_public_key,
  attribute_hash_of_subject_public_key, attribute_hw_feature_type, attribute_id, attribute_issuer,
  attribute_java_midp_security_domain, attribute_key_gen_mechanism, attribute_key_type,
  attribute_label, attribute_local, attribute_mechanism_type, attribute_mime_types,
  attribute_modifiable, attribute_modulus, attribute_modulus_bits, attribute_name_hash_algorithm,
  attribute_never_extractable, attribute_object_id, attribute_owner, attribute_pixel_x,
  attribute_pixel_y, attribute_prime, attribute_prime1, attribute_prime2, attribute_prime_bits,
  attribute_private, attribute_private_exponent, attribute_public_exponent,
  attribute_public_key_info, attribute_required_cms_attributes, attribute_reset_on_init,
  attribute_resolution, attribute_secondary_auth, attribute_sensitive, attribute_serial_number,
  attribute_sign, attribute_sign_recover, attribute_start_date, attribute_subject,
  attribute_subprime, attribute_subprime_bits, attribute_supported_cms_attributes, attribute_token,
  attribute_trusted, attribute_unwrap, attribute_unwrap_template, attribute_url, attribute_value,
  attribute_value_bits, attribute_value_len, attribute_vendor_defined, attribute_verify,
  attribute_verify_recover, attribute_wrap, attribute_wrap_template, attribute_wrap_with_trusted,
}

unfoldable pub attribute_strings : List (ℕ × String)
attribute_strings =
    (attribute_class, "CKA_CLASS")
    ∷ (attribute_token, "CKA_TOKEN")
    ∷ (attribute_private, "CKA_PRIVATE")
    ∷ (attribute_label, "CKA_LABEL")
    ∷ (attribute_application, "CKA_APPLICATION")
    ∷ (attribute_value, "CKA_VALUE")
    ∷ (attribute_object_id, "CKA_OBJECT_ID")
    ∷ (attribute_certificate_type, "CKA_CERTIFICATE_TYPE")
    ∷ (attribute_issuer, "CKA_ISSUER")
    ∷ (attribute_serial_number, "CKA_SERIAL_NUMBER")
    ∷ (attribute_ac_issuer, "CKA_AC_ISSUER")
    ∷ (attribute_owner, "CKA_OWNER")
    ∷ (attribute_attr_types, "CKA_ATTR_TYPES")
    ∷ (attribute_trusted, "CKA_TRUSTED")
    ∷ (attribute_certificate_category, "CKA_CERTIFICATE_CATEGORY")
    ∷ (attribute_java_midp_security_domain, "CKA_JAVA_MIDP_SECURITY_DOMAIN")
    ∷ (attribute_url, "CKA_URL")
    ∷ (attribute_hash_of_subject_public_key, "CKA_HASH_OF_SUBJECT_PUBLIC_KEY")
    ∷ (attribute_hash_of_issuer_public_key, "CKA_HASH_OF_ISSUER_PUBLIC_KEY")
    ∷ (attribute_name_hash_algorithm, "CKA_NAME_HASH_ALGORITHM")
    ∷ (attribute_check_value, "CKA_CHECK_VALUE")
    ∷ (attribute_key_type, "CKA_KEY_TYPE")
    ∷ (attribute_subject, "CKA_SUBJECT")
    ∷ (attribute_id, "CKA_ID")
    ∷ (attribute_sensitive, "CKA_SENSITIVE")
    ∷ (attribute_encrypt, "CKA_ENCRYPT")
    ∷ (attribute_decrypt, "CKA_DECRYPT")
    ∷ (attribute_wrap, "CKA_WRAP")
    ∷ (attribute_unwrap, "CKA_UNWRAP")
    ∷ (attribute_sign, "CKA_SIGN")
    ∷ (attribute_sign_recover, "CKA_SIGN_RECOVER")
    ∷ (attribute_verify, "CKA_VERIFY")
    ∷ (attribute_verify_recover, "CKA_VERIFY_RECOVER")
    ∷ (attribute_derive, "CKA_DERIVE")
    ∷ (attribute_start_date, "CKA_START_DATE")
    ∷ (attribute_end_date, "CKA_END_DATE")
    ∷ (attribute_modulus, "CKA_MODULUS")
    ∷ (attribute_modulus_bits, "CKA_MODULUS_BITS")
    ∷ (attribute_public_exponent, "CKA_PUBLIC_EXPONENT")
    ∷ (attribute_private_exponent, "CKA_PRIVATE_EXPONENT")
    ∷ (attribute_prime1, "CKA_PRIME_1")
    ∷ (attribute_prime2, "CKA_PRIME_2")
    ∷ (attribute_exponent1, "CKA_EXPONENT_1")
    ∷ (attribute_exponent2, "CKA_EXPONENT_2")
    ∷ (attribute_coefficient, "CKA_COEFFICIENT")
    ∷ (attribute_public_key_info, "CKA_PUBLIC_KEY_INFO")
    ∷ (attribute_prime, "CKA_PRIME")
    ∷ (attribute_subprime, "CKA_SUBPRIME")
    ∷ (attribute_base, "CKA_BASE")
    ∷ (attribute_prime_bits, "CKA_PRIME_BITS")
    ∷ (attribute_subprime_bits, "CKA_SUBPRIME_BITS")
    ∷ (attribute_value_bits, "CKA_VALUE_BITS")
    ∷ (attribute_value_len, "CKA_VALUE_LEN")
    ∷ (attribute_extractable, "CKA_EXTRACTABLE")
    ∷ (attribute_local, "CKA_LOCAL")
    ∷ (attribute_never_extractable, "CKA_NEVER_EXTRACTABLE")
    ∷ (attribute_always_sensitive, "CKA_ALWAYS_SENSITIVE")
    ∷ (attribute_key_gen_mechanism, "CKA_KEY_GEN_MECHANISM")
    ∷ (attribute_modifiable, "CKA_MODIFIABLE")
    ∷ (attribute_copyable, "CKA_COPYABLE")
    ∷ (attribute_destroyable, "CKA_DESTROYABLE")
    ∷ (attribute_ecdsa_params, "CKA_ECDSA_PARAMS")
    ∷ (attribute_ec_point, "CKA_EC_POINT")
    ∷ (attribute_secondary_auth, "CKA_SECONDARY_AUTH")
    ∷ (attribute_auth_pin_flags, "CKA_AUTH_PIN_FLAGS")
    ∷ (attribute_always_authenticate, "CKA_ALWAYS_AUTHENTICATE")
    ∷ (attribute_wrap_with_trusted, "CKA_WRAP_WITH_TRUSTED")
    ∷ (attribute_wrap_template, "CKA_WRAP_TEMPLATE")
    ∷ (attribute_unwrap_template, "CKA_UNWRAP_TEMPLATE")
    ∷ (attribute_hw_feature_type, "CKA_HW_FEATURE_TYPE")
    ∷ (attribute_reset_on_init, "CKA_RESET_ON_INIT")
    ∷ (attribute_has_reset, "CKA_HAS_RESET")
    ∷ (attribute_pixel_x, "CKA_PIXEL_X")
    ∷ (attribute_pixel_y, "CKA_PIXEL_Y")
    ∷ (attribute_resolution, "CKA_RESOLUTION")
    ∷ (attribute_char_rows, "CKA_CHAR_ROWS")
    ∷ (attribute_char_columns, "CKA_CHAR_COLUMNS")
    ∷ (attribute_color, "CKA_COLOR")
    ∷ (attribute_bits_per_pixel, "CKA_BITS_PER_PIXEL")
    ∷ (attribute_char_sets, "CKA_CHAR_SETS")
    ∷ (attribute_encoding_methods, "CKA_ENCODING_METHODS")
    ∷ (attribute_mime_types, "CKA_MIME_TYPES")
    ∷ (attribute_mechanism_type, "CKA_MECHANISM_TYPE")
    ∷ (attribute_required_cms_attributes, "CKA_REQUIRED_CMS_ATTRIBUTES")
    ∷ (attribute_default_cms_attributes, "CKA_DEFAULT_CMS_ATTRIBUTES")
    ∷ (attribute_supported_cms_attributes, "CKA_SUPPORTED_CMS_ATTRIBUTES")
    ∷ (attribute_allowed_mechanisms, "CKA_ALLOWED_MECHANISMS")
    ∷ (attribute_vendor_defined, "CKA_VENDOR_DEFINED")
    ∷ []
