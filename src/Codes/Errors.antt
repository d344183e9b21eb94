-- ===== src/Codes/Errors.antt =====
-- The PKCS #11 return codes of p11kit/errors.go, and their names.
use Prim.Native.String.{String}
use go_p11_kit.Base.{ℕ, List, [], ◌∷◌}

abbrev pub err_cancel : ℕ
err_cancel = 0x00000001

abbrev pub err_host_memory : ℕ
err_host_memory = 0x00000002

abbrev pub err_slot_id_invalid : ℕ
err_slot_id_invalid = 0x00000003

abbrev pub err_general_error : ℕ
err_general_error = 0x00000005

abbrev pub err_function_failed : ℕ
err_function_failed = 0x00000006

abbrev pub err_arguments_bad : ℕ
err_arguments_bad = 0x00000007

abbrev pub err_no_event : ℕ
err_no_event = 0x00000008

abbrev pub err_need_to_create_threads : ℕ
err_need_to_create_threads = 0x00000009

abbrev pub err_cant_lock : ℕ
err_cant_lock = 0x0000000a

abbrev pub err_attribute_read_only : ℕ
err_attribute_read_only = 0x00000010

abbrev pub err_attribute_sensitive : ℕ
err_attribute_sensitive = 0x00000011

abbrev pub err_attribute_type_invalid : ℕ
err_attribute_type_invalid = 0x00000012

abbrev pub err_attribute_value_invalid : ℕ
err_attribute_value_invalid = 0x00000013

abbrev pub err_copy_prohibited : ℕ
err_copy_prohibited = 0x0000001a

abbrev pub err_action_prohibited : ℕ
err_action_prohibited = 0x0000001b

abbrev pub err_data_invalid : ℕ
err_data_invalid = 0x00000020

abbrev pub err_data_len_range : ℕ
err_data_len_range = 0x00000021

abbrev pub err_device_error : ℕ
err_device_error = 0x00000030

abbrev pub err_device_memory : ℕ
err_device_memory = 0x00000031

abbrev pub err_device_removed : ℕ
err_device_removed = 0x00000032

abbrev pub err_encrypted_data_invalid : ℕ
err_encrypted_data_invalid = 0x00000040

abbrev pub err_encrypted_data_len_range : ℕ
err_encrypted_data_len_range = 0x00000041

abbrev pub err_function_canceled : ℕ
err_function_canceled = 0x00000050

abbrev pub err_function_not_parallel : ℕ
err_function_not_parallel = 0x00000051

abbrev pub err_function_not_supported : ℕ
err_function_not_supported = 0x00000054

abbrev pub err_key_handle_invalid : ℕ
err_key_handle_invalid = 0x00000060

abbrev pub err_key_size_range : ℕ
err_key_size_range = 0x00000062

abbrev pub err_key_type_inconsistent : ℕ
err_key_type_inconsistent = 0x00000063

abbrev pub err_key_not_needed : ℕ
err_key_not_needed = 0x00000064

abbrev pub err_key_changed : ℕ
err_key_changed = 0x00000065

abbrev pub err_key_needed : ℕ
err_key_needed = 0x00000066

abbrev pub err_key_indigestible : ℕ
err_key_indigestible = 0x00000067

abbrev pub err_key_function_not_permitted : ℕ
err_key_function_not_permitted = 0x00000068

abbrev pub err_key_not_wrappable : ℕ
err_key_not_wrappable = 0x00000069

abbrev pub err_key_unextractable : ℕ
err_key_unextractable = 0x0000006a

abbrev pub err_mechanism_invalid : ℕ
err_mechanism_invalid = 0x00000070

abbrev pub err_mechanism_param_invalid : ℕ
err_mechanism_param_invalid = 0x00000071

abbrev pub err_object_handle_invalid : ℕ
err_object_handle_invalid = 0x00000082

abbrev pub err_operation_active : ℕ
err_operation_active = 0x00000090

abbrev pub err_operation_not_initialized : ℕ
err_operation_not_initialized = 0x00000091

abbrev pub err_pin_incorrect : ℕ
err_pin_incorrect = 0x000000a0

abbrev pub err_pin_invalid : ℕ
err_pin_invalid = 0x000000a1

abbrev pub err_pin_len_range : ℕ
err_pin_len_range = 0x000000a2

abbrev pub err_pin_expired : ℕ
err_pin_expired = 0x000000a3

abbrev pub err_pin_locked : ℕ
err_pin_locked = 0x000000a4

abbrev pub err_session_closed : ℕ
err_session_closed = 0x000000b0

abbrev pub err_session_count : ℕ
err_session_count = 0x000000b1

abbrev pub err_session_handle_invalid : ℕ
err_session_handle_invalid = 0x000000b3

abbrev pub err_session_parallel_not_supported : ℕ
err_session_parallel_not_supported = 0x000000b4

abbrev pub err_session_read_only : ℕ
err_session_read_only = 0x000000b5

abbrev pub err_session_exists : ℕ
err_session_exists = 0x000000b6

abbrev pub err_session_read_only_exists : ℕ
err_session_read_only_exists = 0x000000b7

abbrev pub err_session_read_write_so_exists : ℕ
err_session_read_write_so_exists = 0x000000b8

abbrev pub err_signature_invalid : ℕ
err_signature_invalid = 0x000000c0

abbrev pub err_signature_len_range : ℕ
err_signature_len_range = 0x000000c1

abbrev pub err_template_incomplete : ℕ
err_template_incomplete = 0x000000d0

abbrev pub err_template_inconsistent : ℕ
err_template_inconsistent = 0x000000d1

abbrev pub err_token_not_present : ℕ
err_token_not_present = 0x000000e0

abbrev pub err_token_not_recognized : ℕ
err_token_not_recognized = 0x000000e1

abbrev pub err_token_write_protected : ℕ
err_token_write_protected = 0x000000e2

abbrev pub err_unwrapping_key_handle_invalid : ℕ
err_unwrapping_key_handle_invalid = 0x000000f0

abbrev pub err_unwrapping_key_size_range : ℕ
err_unwrapping_key_size_range = 0x000000f1

abbrev pub err_unwrapping_key_type_inconsistent : ℕ
err_unwrapping_key_type_inconsistent = 0x000000f2

abbrev pub err_user_already_logged_in : ℕ
err_user_already_logged_in = 0x00000100

abbrev pub err_user_not_logged_in : ℕ
err_user_not_logged_in = 0x00000101

abbrev pub err_user_pin_not_initialized : ℕ
err_user_pin_not_initialized = 0x00000102

abbrev pub err_user_type_invalid : ℕ
err_user_type_invalid = 0x00000103

abbrev pub err_user_another_already_logged_in : ℕ
err_user_another_already_logged_in = 0x00000104

abbrev pub err_user_too_many_types : ℕ
err_user_too_many_types = 0x00000105

abbrev pub err_wrapped_key_invalid : ℕ
err_wrapped_key_invalid = 0x00000110

abbrev pub err_wrapped_key_len_range : ℕ
err_wrapped_key_len_range = 0x00000112

abbrev pub err_wrapping_key_handle_invalid : ℕ
err_wrapping_key_handle_invalid = 0x00000113

abbrev pub err_wrapping_key_size_range : ℕ
err_wrapping_key_size_range = 0x00000114

abbrev pub err_wrapping_key_type_inconsistent : ℕ
err_wrapping_key_type_inconsistent = 0x00000115

abbrev pub err_random_seed_not_supported : ℕ
err_random_seed_not_supported = 0x00000120

abbrev pub err_random_no_rng : ℕ
err_random_no_rng = 0x00000121

abbrev pub err_domain_params_invalid : ℕ
err_domain_params_invalid = 0x00000130

abbrev pub err_curve_not_supported : ℕ
err_curve_not_supported = 0x00000140

abbrev pub err_buffer_too_small : ℕ
err_buffer_too_small = 0x00000150

abbrev pub err_saved_state_invalid : ℕ
err_saved_state_invalid = 0x00000160

abbrev pub err_information_sensitive : ℕ
err_information_sensitive = 0x00000170

abbrev pub err_state_unsaveable : ℕ
err_state_unsaveable = 0x00000180

abbrev pub err_cryptoki_not_initialized : ℕ
err_cryptoki_not_initialized = 0x00000190

abbrev pub err_cryptoki_already_initialized : ℕ
err_cryptoki_already_initialized = 0x00000191

abbrev pub err_mutex_bad : ℕ
err_mutex_bad = 0x000001a0

abbrev pub err_mutex_not_locked : ℕ
err_mutex_not_locked = 0x000001a1

abbrev pub err_function_rejected : ℕ
err_function_rejected = 0x00000200

abbrev pub err_vendor_defined : ℕ
err_vendor_defined = 0x80000000

unfoldable pub err_strings : List (ℕ × String)
err_strings =
    (err_cancel, "CKR_CANCEL")
    ∷ (err_host_memory, "CKR_HOST_MEMORY")
    ∷ (err_slot_id_invalid, "CKR_SLOT_ID_INVALID")
    ∷ (err_general_error, "CKR_GENERAL_ERROR")
    ∷ (err_function_failed, "CKR_FUNCTION_FAILED")
    ∷ (err_arguments_bad, "CKR_ARGUMENTS_BAD")
    ∷ (err_no_event, "CKR_NO_EVENT")
    ∷ (err_need_to_create_threads, "CKR_NEED_TO_CREATE_THREADS")
    ∷ (err_cant_lock, "CKR_CANT_LOCK")
    ∷ (err_attribute_read_only, "CKR_ATTRIBUTE_READ_ONLY")
    ∷ (err_attribute_sensitive, "CKR_ATTRIBUTE_SENSITIVE")
    ∷ (err_attribute_type_invalid, "CKR_ATTRIBUTE_TYPE_INVALID")
    ∷ (err_attribute_value_invalid, "CKR_ATTRIBUTE_VALUE_INVALID")
    ∷ (err_copy_prohibited, "CKR_COPY_PROHIBITED")
    ∷ (err_action_prohibited, "CKR_ACTION_PROHIBITED")
    ∷ (err_data_invalid, "CKR_DATA_INVALID")
    ∷ (err_data_len_range, "CKR_DATA_LEN_RANGE")
    ∷ (err_device_error, "CKR_DEVICE_ERROR")
    ∷ (err_device_memory, "CKR_DEVICE_MEMORY")
    ∷ (err_device_removed, "CKR_DEVICE_REMOVED")
    ∷ (err_encrypted_data_invalid, "CKR_ENCRYPTED_DATA_INVALID")
    ∷ (err_encrypted_data_len_range, "CKR_ENCRYPTED_DATA_LEN_RANGE")
    ∷ (err_function_canceled, "CKR_FUNCTION_CANCELED")
    ∷ (err_function_not_parallel, "CKR_FUNCTION_NOT_PARALLEL")
    ∷ (err_function_not_supported, "CKR_FUNCTION_NOT_SUPPORTED")
    ∷ (err_key_handle_invalid, "CKR_KEY_HANDLE_INVALID")
    ∷ (err_key_size_range, "CKR_KEY_SIZE_RANGE")
    ∷ (err_key_type_inconsistent, "CKR_KEY_TYPE_INCONSISTENT")
    ∷ (err_key_not_needed, "CKR_KEY_NOT_NEEDED")
    ∷ (err_key_changed, "CKR_KEY_CHANGED")
    ∷ (err_key_needed, "CKR_KEY_NEEDED")
    ∷ (err_key_indigestible, "CKR_KEY_INDIGESTIBLE")
    ∷ (err_key_function_not_permitted, "CKR_KEY_FUNCTION_NOT_PERMITTED")
    ∷ (err_key_not_wrappable, "CKR_KEY_NOT_WRAPPABLE")
    ∷ (err_key_unextractable, "CKR_KEY_UNEXTRACTABLE")
    ∷ (err_mechanism_invalid, "CKR_MECHANISM_INVALID")
    ∷ (err_mechanism_param_invalid, "CKR_MECHANISM_PARAM_INVALID")
    ∷ (err_object_handle_invalid, "CKR_OBJECT_HANDLE_INVALID")
    ∷ (err_operation_active, "CKR_OPERATION_ACTIVE")
    ∷ (err_operation_not_initialized, "CKR_OPERATION_NOT_INITIALIZED")
    ∷ (err_pin_incorrect, "CKR_PIN_INCORRECT")
    ∷ (err_pin_invalid, "CKR_PIN_INVALID")
    ∷ (err_pin_len_range, "CKR_PIN_LEN_RANGE")
    ∷ (err_pin_expired, "CKR_PIN_EXPIRED")
    ∷ (err_pin_locked, "CKR_PIN_LOCKED")
    ∷ (err_session_closed, "CKR_SESSION_CLOSED")
    ∷ (err_session_count, "CKR_SESSION_COUNT")
    ∷ (err_session_handle_invalid, "CKR_SESSION_HANDLE_INVALID")
    ∷ (err_session_parallel_not_supported, "CKR_SESSION_PARALLEL_NOT_SUPPORTED")
    ∷ (err_session_read_only, "CKR_SESSION_READ_ONLY")
    ∷ (err_session_exists, "CKR_SESSION_EXISTS")
    ∷ (err_session_read_only_exists, "CKR_SESSION_READ_ONLY_EXISTS")
    ∷ (err_session_read_write_so_exists, "CKR_SESSION_READ_WRITE_SO_EXISTS")
    ∷ (err_signature_invalid, "CKR_SIGNATURE_INVALID")
    ∷ (err_signature_len_range, "CKR_SIGNATURE_LEN_RANGE")
    ∷ (err_template_incomplete, "CKR_TEMPLATE_INCOMPLETE")
    ∷ (err_template_inconsistent, "CKR_TEMPLATE_INCONSISTENT")
    ∷ (err_token_not_present, "CKR_TOKEN_NOT_PRESENT")
    ∷ (err_token_not_recognized, "CKR_TOKEN_NOT_RECOGNIZED")
    ∷ (err_token_write_protected, "CKR_TOKEN_WRITE_PROTECTED")
    ∷ (err_unwrapping_key_handle_invalid, "CKR_UNWRAPPING_KEY_HANDLE_INVALID")
    ∷ (err_unwrapping_key_size_range, "CKR_UNWRAPPING_KEY_SIZE_RANGE")
    ∷ (err_unwrapping_key_type_inconsistent, "CKR_UNWRAPPING_KEY_TYPE_INCONSISTENT")
    ∷ (err_user_already_logged_in, "CKR_USER_ALREADY_LOGGED_IN")
    ∷ (err_user_not_logged_in, "CKR_USER_NOT_LOGGED_IN")
    ∷ (err_user_pin_not_initialized, "CKR_USER_PIN_NOT_INITIALIZED")
    ∷ (err_user_type_invalid, "CKR_USER_TYPE_INVALID")
    ∷ (err_user_another_already_logged_in, "CKR_USER_ANOTHER_ALREADY_LOGGED_IN")
    ∷ (err_user_too_many_types, "CKR_USER_TOO_MANY_TYPES")
    ∷ (err_wrapped_key_invalid, "CKR_WRAPPED_KEY_INVALID")
    ∷ (err_wrapped_key_len_range, "CKR_WRAPPED_KEY_LEN_RANGE")
    ∷ (err_wrapping_key_handle_invalid, "CKR_WRAPPING_KEY_HANDLE_INVALID")
    ∷ (err_wrapping_key_size_range, "CKR_WRAPPING_KEY_SIZE_RANGE")
    ∷ (err_wrapping_key_type_inconsistent, "CKR_WRAPPING_KEY_TYPE_INCONSISTENT")
    ∷ (err_random_seed_not_supported, "CKR_RANDOM_SEED_NOT_SUPPORTED")
    ∷ (err_random_no_rng, "CKR_RANDOM_NO_RNG")
    ∷ (err_domain_params_invalid, "CKR_DOMAIN_PARAMS_INVALID")
    ∷ (err_curve_not_supported, "CKR_CURVE_NOT_SUPPORTED")
    ∷ (err_buffer_too_small, "CKR_BUFFER_TOO_SMALL")
    ∷ (err_saved_state_invalid, "CKR_SAVED_STATE_INVALID")
    ∷ (err_information_sensitive, "CKR_INFORMATION_SENSITIVE")
    ∷ (err_state_unsaveable, "CKR_STATE_UNSAVEABLE")
    ∷ (err_cryptoki_not_initialized, "CKR_CRYPTOKI_NOT_INITIALIZED")
    ∷ (err_cryptoki_already_initialized, "CKR_CRYPTOKI_ALREADY_INITIALIZED")
    ∷ (err_mutex_bad, "CKR_MUTEX_BAD")
    ∷ (err_mutex_not_locked, "CKR_MUTEX_NOT_LOCKED")
    ∷ (err_function_rejected, "CKR_FUNCTION_REJECTED")
    ∷ (err_vendor_defined, "CKR_VENDOR_DEFINED")
    ∷ []
