-- ===== src/Codes/Calls.antt =====
-- The call numbers of p11kit/rpc.go, and their names.
use Prim.Native.String.{String}
use go_p11_kit.Base.{ℕ, List, [], ◌∷◌}

abbrev pub call_error : ℕ
call_error = 0

abbrev pub call_initialize : ℕ
call_initialize = 1

abbrev pub call_finalize : ℕ
call_finalize = 2

abbrev pub call_get_info : ℕ
call_get_info = 3

abbrev pub call_get_slot_list : ℕ
call_get_slot_list = 4

abbrev pub call_get_slot_info : ℕ
call_get_slot_info = 5

abbrev pub call_get_token_info : ℕ
call_get_token_info = 6

abbrev pub call_get_mechanism_list : ℕ
call_get_mechanism_list = 7

abbrev pub call_get_mechanism_info : ℕ
call_get_mechanism_info = 8

abbrev pub call_init_token : ℕ
call_init_token = 9

abbrev pub call_open_session : ℕ
call_open_session = 10

abbrev pub call_close_session : ℕ
call_close_session = 11

abbrev pub call_close_all_sessions : ℕ
call_close_all_sessions = 12

abbrev pub call_get_session_info : ℕ
call_get_session_info = 13

abbrev pub call_init_pin : ℕ
call_init_pin = 14

abbrev pub call_set_pin : ℕ
call_set_pin = 15

abbrev pub call_get_operation_state : ℕ
call_get_operation_state = 16

abbrev pub call_set_operation_state : ℕ
call_set_operation_state = 17

abbrev pub call_login : ℕ
call_login = 18

abbrev pub call_logout : ℕ
call_logout = 19

abbrev pub call_create_object : ℕ
call_create_object = 20

abbrev pub call_copy_object : ℕ
call_copy_object = 21

abbrev pub call_destroy_object : ℕ
call_destroy_object = 22

abbrev pub call_get_object_size : ℕ
call_get_object_size = 23

abbrev pub call_get_attribute_value : ℕ
call_get_attribute_value = 24

abbrev pub call_set_attribute_value : ℕ
call_set_attribute_value = 25

abbrev pub call_find_objects_init : ℕ
call_find_objects_init = 26

abbrev pub call_find_objects : ℕ
call_find_objects = 27

abbrev pub call_find_objects_final : ℕ
call_find_objects_final = 28

abbrev pub call_encrypt_init : ℕ
call_encrypt_init = 29

abbrev pub call_encrypt : ℕ
call_encrypt = 30

abbrev pub call_encrypt_update : ℕ
call_encrypt_update = 31

abbrev pub call_encrypt_final : ℕ
call_encrypt_final = 32

abbrev pub call_decrypt_init : ℕ
call_decrypt_init = 33

abbrev pub call_decrypt : ℕ
call_decrypt = 34

abbrev pub call_decrypt_update : ℕ
call_decrypt_update = 35

abbrev pub call_decrypt_final : ℕ
call_decrypt_final = 36

abbrev pub call_digest_init : ℕ
call_digest_init = 37

abbrev pub call_digest : ℕ
call_digest = 38

abbrev pub call_digest_update : ℕ
call_digest_update = 39

abbrev pub call_digest_key : ℕ
call_digest_key = 40

abbrev pub call_digest_final : ℕ
call_digest_final = 41

abbrev pub call_sign_init : ℕ
call_sign_init = 42

abbrev pub call_sign : ℕ
call_sign = 43

abbrev pub call_sign_update : ℕ
call_sign_update = 44

abbrev pub call_sign_final : ℕ
call_sign_final = 45

abbrev pub call_sign_recover_init : ℕ
call_sign_recover_init = 46

abbrev pub call_sign_recover : ℕ
call_sign_recover = 47

abbrev pub call_verify_init : ℕ
call_verify_init = 48

abbrev pub call_verify : ℕ
call_verify = 49

abbrev pub call_verify_update : ℕ
call_verify_update = 50

abbrev pub call_verify_final : ℕ
call_verify_final = 51

abbrev pub call_verify_recover_init : ℕ
call_verify_recover_init = 52

abbrev pub call_verify_recover : ℕ
call_verify_recover = 53

abbrev pub call_digest_encrypt_update : ℕ
call_digest_encrypt_update = 54

abbrev pub call_decrypt_digest_update : ℕ
call_decrypt_digest_update = 55

abbrev pub call_sign_encrypt_update : ℕ
call_sign_encrypt_update = 56

abbrev pub call_decrypt_verify_update : ℕ
call_decrypt_verify_update = 57

abbrev pub call_generate_key : ℕ
call_generate_key = 58

abbrev pub call_generate_key_pair : ℕ
call_generate_key_pair = 59

abbrev pub call_wrap_key : ℕ
call_wrap_key = 60

abbrev pub call_unwrap_key : ℕ
call_unwrap_key = 61

abbrev pub call_derive_key : ℕ
call_derive_key = 62

abbrev pub call_seed_random : ℕ
call_seed_random = 63

abbrev pub call_generate_random : ℕ
call_generate_random = 64

abbrev pub call_wait_for_slot_event : ℕ
call_wait_for_slot_event = 65

unfoldable pub call_strings : List (ℕ × String)
call_strings =
    (call_initialize, "C_Initialize")
    ∷ (call_finalize, "C_Finalize")
    ∷ (call_get_info, "C_GetInfo")
    ∷ (call_get_slot_list, "C_GetSlotList")
    ∷ (call_get_slot_info, "C_GetSlotInfo")
    ∷ (call_get_token_info, "C_GetTokenInfo")
    ∷ (call_get_mechanism_list, "C_GetMechanismList")
    ∷ (call_get_mechanism_info, "C_GetMechanismInfo")
    ∷ (call_init_token, "C_InitToken")
    ∷ (call_open_session, "C_OpenSession")
    ∷ (call_close_session, "C_CloseSession")
    ∷ (call_close_all_sessions, "C_CloseAllSessions")
    ∷ (call_get_session_info, "C_GetSessionInfo")
    ∷ (call_init_pin, "C_InitPIN")
    ∷ (call_set_pin, "C_SetPIN")
    ∷ (call_get_operation_state, "C_GetOperationState")
    ∷ (call_set_operation_state, "C_SetOperationState")
    ∷ (call_login, "C_Login")
    ∷ (call_logout, "C_Logout")
    ∷ (call_create_object, "C_CreateObject")
    ∷ (call_copy_object, "C_CopyObject")
    ∷ (call_destroy_object, "C_DestroyObject")
    ∷ (call_get_object_size, "C_GetObjectSize")
    ∷ (call_get_attribute_value, "C_GetAttributeValue")
    ∷ (call_set_attribute_value, "C_SetAttributeValue")
    ∷ (call_find_objects_init, "C_FindObjectsInit")
    ∷ (call_find_objects, "C_FindObjects")
    ∷ (call_find_objects_final, "C_FindObjectsFinal")
    ∷ (call_encrypt_init, "C_EncryptInit")
    ∷ (call_encrypt, "C_Encrypt")
    ∷ (call_encrypt_update, "C_EncryptUpdate")
    ∷ (call_encrypt_final, "C_EncryptFinal")
    ∷ (call_decrypt_init, "C_DecryptInit")
    ∷ (call_decrypt, "C_Decrypt")
    ∷ (call_decrypt_update, "C_DecryptUpdate")
    ∷ (call_decrypt_final, "C_DecryptFinal")
    ∷ (call_digest_init, "C_DigestInit")
    ∷ (call_digest, "C_Digest")
    ∷ (call_digest_update, "C_DigestUpdate")
    ∷ (call_digest_key, "C_DigestKey")
    ∷ (call_digest_final, "C_DigestFinal")
    ∷ (call_sign_init, "C_SignInit")
    ∷ (call_sign, "C_Sign")
    ∷ (call_sign_update, "C_SignUpdate")
    ∷ (call_sign_final, "C_SignFinal")
    ∷ (call_sign_recover_init, "C_SignRecoverInit")
    ∷ (call_sign_recover, "C_SignRecover")
    ∷ (call_verify_init, "C_VerifyInit")
    ∷ (call_verify, "C_Verify")
    ∷ (call_verify_update, "C_VerifyUpdate")
    ∷ (call_verify_final, "C_VerifyFinal")
    ∷ (call_verify_recover_init, "C_VerifyRecoverInit")
    ∷ (call_verify_recover, "C_VerifyRecover")
    ∷ (call_digest_encrypt_update, "C_DigestEncryptUpdate")
    ∷ (call_decrypt_digest_update, "C_DecryptDigestUpdate")
    ∷ (call_sign_encrypt_update, "C_SignEncryptUpdate")
    ∷ (call_decrypt_verify_update, "C_DecryptVerifyUpdate")
    ∷ (call_generate_key, "C_GenerateKey")
    ∷ (call_generate_key_pair, "C_GenerateKeyPair")
    ∷ (call_wrap_key, "C_WrapKey")
    ∷ (call_unwrap_key, "C_UnwrapKey")
    ∷ (call_derive_key, "C_DeriveKey")
    ∷ (call_seed_random, "C_SeedRandom")
    ∷ (call_generate_random, "C_GenerateRandom")
    ∷ (call_wait_for_slot_event, "C_WaitForSlotEvent")
    ∷ []
