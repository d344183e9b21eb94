-- ===== src/Codes/Attributes.antt =====
-- The attribute types of p11kit/attribute.go.
use go_p11_kit.Base.{ℕ}

abbrev pub attribute_class : ℕ
attribute_class = 0x00000000

abbrev pub attribute_token : ℕ
attribute_token = 0x00000001

abbrev pub attribute_private : ℕ
attribute_private = 0x00000002

abbrev pub attribute_label : ℕ
attribute_label = 0x00000003

abbrev pub attribute_application : ℕ
attribute_application = 0x00000010

abbrev pub attribute_value : ℕ
attribute_value = 0x00000011

abbrev pub attribute_object_id : ℕ
attribute_object_id = 0x00000012

abbrev pub attribute_certificate_type : ℕ
attribute_certificate_type = 0x00000080

abbrev pub attribute_issuer : ℕ
attribute_issuer = 0x00000081

abbrev pub attribute_serial_number : ℕ
attribute_serial_number = 0x00000082

abbrev pub attribute_ac_issuer : ℕ
attribute_ac_issuer = 0x00000083

abbrev pub attribute_owner : ℕ
attribute_owner = 0x00000084

abbrev pub attribute_attr_types : ℕ
attribute_attr_types = 0x00000085

abbrev pub attribute_trusted : ℕ
attribute_trusted = 0x00000086

abbrev pub attribute_certificate_category : ℕ
attribute_certificate_category = 0x00000087

abbrev pub attribute_java_midp_security_domain : ℕ
attribute_java_midp_security_domain = 0x00000088

abbrev pub attribute_url : ℕ
attribute_url = 0x00000089

abbrev pub attribute_hash_of_subject_public_key : ℕ
attribute_hash_of_subject_public_key = 0x0000008a

abbrev pub attribute_hash_of_issuer_public_key : ℕ
attribute_hash_of_issuer_public_key = 0x0000008b

abbrev pub attribute_name_hash_algorithm : ℕ
attribute_name_hash_algorithm = 0x0000008c

abbrev pub attribute_check_value : ℕ
attribute_check_value = 0x00000090

abbrev pub attribute_key_type : ℕ
attribute_key_type = 0x00000100

abbrev pub attribute_subject : ℕ
attribute_subject = 0x00000101

abbrev pub attribute_id : ℕ
attribute_id = 0x00000102

abbrev pub attribute_sensitive : ℕ
attribute_sensitive = 0x00000103

abbrev pub attribute_encrypt : ℕ
attribute_encrypt = 0x00000104

abbrev pub attribute_decrypt : ℕ
attribute_decrypt = 0x00000105

abbrev pub attribute_wrap : ℕ
attribute_wrap = 0x00000106

abbrev pub attribute_unwrap : ℕ
attribute_unwrap = 0x00000107

abbrev pub attribute_sign : ℕ
attribute_sign = 0x00000108

abbrev pub attribute_sign_recover : ℕ
attribute_sign_recover = 0x00000109

abbrev pub attribute_verify : ℕ
attribute_verify = 0x0000010a

abbrev pub attribute_verify_recover : ℕ
attribute_verify_recover = 0x0000010b

abbrev pub attribute_derive : ℕ
attribute_derive = 0x0000010c

abbrev pub attribute_start_date : ℕ
attribute_start_date = 0x00000110

abbrev pub attribute_end_date : ℕ
attribute_end_date = 0x00000111

abbrev pub attribute_modulus : ℕ
attribute_modulus = 0x00000120

abbrev pub attribute_modulus_bits : ℕ
attribute_modulus_bits = 0x00000121

abbrev pub attribute_public_exponent : ℕ
attribute_public_exponent = 0x00000122

abbrev pub attribute_private_exponent : ℕ
attribute_private_exponent = 0x00000123

abbrev pub attribute_prime1 : ℕ
attribute_prime1 = 0x00000124

abbrev pub attribute_prime2 : ℕ
attribute_prime2 = 0x00000125

abbrev pub attribute_exponent1 : ℕ
attribute_exponent1 = 0x00000126

abbrev pub attribute_exponent2 : ℕ
attribute_exponent2 = 0x00000127

abbrev pub attribute_coefficient : ℕ
attribute_coefficient = 0x00000128

abbrev pub attribute_public_key_info : ℕ
attribute_public_key_info = 0x00000129

abbrev pub attribute_prime : ℕ
attribute_prime = 0x00000130

abbrev pub attribute_subprime : ℕ
attribute_subprime = 0x00000131

abbrev pub attribute_base : ℕ
attribute_base = 0x00000132

abbrev pub attribute_prime_bits : ℕ
attribute_prime_bits = 0x00000133

abbrev pub attribute_subprime_bits : ℕ
attribute_subprime_bits = 0x00000134

abbrev pub attribute_value_bits : ℕ
attribute_value_bits = 0x00000160

abbrev pub attribute_value_len : ℕ
attribute_value_len = 0x00000161

abbrev pub attribute_extractable : ℕ
attribute_extractable = 0x00000162

abbrev pub attribute_local : ℕ
attribute_local = 0x00000163

abbrev pub attribute_never_extractable : ℕ
attribute_never_extractable = 0x00000164

abbrev pub attribute_always_sensitive : ℕ
attribute_always_sensitive = 0x00000165

abbrev pub attribute_key_gen_mechanism : ℕ
attribute_key_gen_mechanism = 0x00000166

abbrev pub attribute_modifiable : ℕ
attribute_modifiable = 0x00000170

abbrev pub attribute_copyable : ℕ
attribute_copyable = 0x00000171

abbrev pub attribute_destroyable : ℕ
attribute_destroyable = 0x00000172

abbrev pub attribute_ecdsa_params : ℕ
attribute_ecdsa_params = 0x00000180

abbrev pub attribute_ec_params : ℕ
attribute_ec_params = 0x00000180

abbrev pub attribute_ec_point : ℕ
attribute_ec_point = 0x00000181

abbrev pub attribute_secondary_auth : ℕ
attribute_secondary_auth = 0x00000200

abbrev pub attribute_auth_pin_flags : ℕ
attribute_auth_pin_flags = 0x00000201

abbrev pub attribute_always_authenticate : ℕ
attribute_always_authenticate = 0x00000202

abbrev pub attribute_wrap_with_trusted : ℕ
attribute_wrap_with_trusted = 0x00000210

abbrev pub attribute_wrap_template : ℕ
attribute_wrap_template = 0x40000211

abbrev pub attribute_unwrap_template : ℕ
attribute_unwrap_template = 0x40000212

abbrev pub attribute_hw_feature_type : ℕ
attribute_hw_feature_type = 0x00000300

abbrev pub attribute_reset_on_init : ℕ
attribute_reset_on_init = 0x00000301

abbrev pub attribute_has_reset : ℕ
attribute_has_reset = 0x00000302

abbrev pub attribute_pixel_x : ℕ
attribute_pixel_x = 0x00000400

abbrev pub attribute_pixel_y : ℕ
attribute_pixel_y = 0x00000401

abbrev pub attribute_resolution : ℕ
attribute_resolution = 0x00000402

abbrev pub attribute_char_rows : ℕ
attribute_char_rows = 0x00000403

abbrev pub attribute_char_columns : ℕ
attribute_char_columns = 0x00000404

abbrev pub attribute_color : ℕ
attribute_color = 0x00000405

abbrev pub attribute_bits_per_pixel : ℕ
attribute_bits_per_pixel = 0x00000406

abbrev pub attribute_char_sets : ℕ
attribute_char_sets = 0x00000480

abbrev pub attribute_encoding_methods : ℕ
attribute_encoding_methods = 0x00000481

abbrev pub attribute_mime_types : ℕ
attribute_mime_types = 0x00000482

abbrev pub attribute_mechanism_type : ℕ
attribute_mechanism_type = 0x00000500

abbrev pub attribute_required_cms_attributes : ℕ
attribute_required_cms_attributes = 0x00000501

abbrev pub attribute_default_cms_attributes : ℕ
attribute_default_cms_attributes = 0x00000502

abbrev pub attribute_supported_cms_attributes : ℕ
attribute_supported_cms_attributes = 0x00000503

abbrev pub attribute_allowed_mechanisms : ℕ
attribute_allowed_mechanisms = 0x40000600

abbrev pub attribute_vendor_defined : ℕ
attribute_vendor_defined = 0x80000000
