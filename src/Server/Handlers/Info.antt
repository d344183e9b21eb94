-- ===== src/Server/Handlers/Info.antt =====
-- The handlers that report on the module, its slots and its tokens, and C_InitToken.
use go_p11_kit.Base.{
  ℕ, ◌-◌, ◌%◌, ◌^◌, true, none, some, List, [], ◌∷◌, ltb, ◌==◌, ◌||◌, ◌&&◌, if◌then◌else◌, length,
  map, bytes_equal, bit_or, codes,
}
use go_p11_kit.Codes.Errors.{
  err_buffer_too_small, err_cryptoki_already_initialized, err_random_no_rng,
}
use go_p11_kit.Result.{Result, ok, err, ckr, failed, bad_handshake}
use go_p11_kit.Wire.Buffer.{Bytes}
use go_p11_kit.Wire.Body.{Body, new_response}
use go_p11_kit.Wire.Body.Read.{request, string_of}
use go_p11_kit.Wire.Body.Write.{
  Version, write_version, write_string, write_ulong, write_ulong_array,
}
use go_p11_kit.Token.Env.{Env}
use go_p11_kit.Server.Slot.{Slot, slot_mechanisms, mechanism_info}
use go_p11_kit.Server.State.{Conn, Action, ◌>>=◌, ◌>>◌, pure, lift, slot, update_slot}
use go_p11_kit.Server.Requests.{
  initialize_request, id_request, slot_list_request, count_request, two_ulongs_request,
  init_token_request,
}

-- `req.err()` where nothing is read.
abbrev pub no_request : Body → Action (Unit {0})
no_request req = lift (request (λ b. (some tt, b)) req)

abbrev pub handshake_message : Bytes
handshake_message = codes "PRIVATE-GNOME-KEYRING-PKCS11-PROTOCOL-V-1"

unfoldable pub handle_initialize : Body → Action Body
unfolding request initialize_request new_response
handle_initialize req = do
  handshake ← lift (request initialize_request req)
  if bytes_equal (string_of handshake) handshake_message
      then pure (new_response req)
      else lift (err (failed bad_handshake))

abbrev pub cryptoki_version : Version
cryptoki_version = record { major = 0x02; minor = 0x28 }

unfoldable pub info_response : Conn → Body → Body
unfolding write_version write_string write_ulong
info_response c resp =
    let resp = write_version resp cryptoki_version in
    let resp = write_string resp c.manufacturer 32 in
    let resp = write_ulong resp 0 in
    let resp = write_string resp c.library 32 in write_version resp c.library_version

unfoldable pub handle_get_info : Body → Action Body
unfolding request new_response info_response
handle_get_info req = do no_request req; λ c. (ok (info_response c (new_response req)), c)

abbrev pub effectively_infinite : ℕ
effectively_infinite = 0

abbrev pub unavailable_information : ℕ
unavailable_information = 2 ^ 64 - 1

abbrev pub ckf_token_initialized : ℕ
ckf_token_initialized = 0x00000400

unfoldable pub token_info_response : Slot → Body → Body
unfolding write_string write_ulong write_version
token_info_response s resp =
    let resp = write_string resp s.label 32 in
    let resp = write_string resp s.manufacturer 32 in
    let resp = write_string resp s.model 16 in
    let resp = write_string resp s.serial 16 in
    let resp = write_ulong resp (if s.initialized then ckf_token_initialized else 0) in
    let resp = write_ulong resp effectively_infinite in
    let resp = write_ulong resp unavailable_information in
    let resp = write_ulong resp effectively_infinite in
    let resp = write_ulong resp unavailable_information in
    let resp = write_ulong resp 0 in
    let resp = write_ulong resp 0 in
    let resp = write_ulong resp unavailable_information in
    let resp = write_ulong resp unavailable_information in
    let resp = write_ulong resp unavailable_information in
    let resp = write_ulong resp unavailable_information in
    let resp = write_version resp s.hardware_version in
    let resp = write_version resp s.firmware_version in write_string resp [] 16

unfoldable pub handle_get_token_info : Body → Action Body
unfolding request id_request new_response slot token_info_response
handle_get_token_info req = do
  slot_id ← lift (request id_request req)
  s ← slot slot_id
  pure (token_info_response s (new_response req))

-- CKF_TOKEN_PRESENT and CKF_HW_SLOT
abbrev pub slot_flags : ℕ
slot_flags = bit_or 0x01 0x04

unfoldable pub slot_info_response : Slot → Body → Body
unfolding write_string write_ulong write_version
slot_info_response s resp =
    let resp = write_string resp s.description 64 in
    let resp = write_string resp s.manufacturer 32 in
    let resp = write_ulong resp slot_flags in
    let resp = write_version resp s.hardware_version in write_version resp s.firmware_version

unfoldable pub handle_get_slot_info : Body → Action Body
unfolding request id_request new_response slot slot_info_response
handle_get_slot_info req = do
  slot_id ← lift (request id_request req)
  s ← slot slot_id
  pure (slot_info_response s (new_response req))

-- The answer of a list to a client whose buffer holds `count` numbers.
unfoldable pub mechanism_list_response : List ℕ → ℕ → Body → Result Body
unfolding write_ulong_array
mechanism_list_response m count resp =
    let n = length m % 2 ^ 32 in
    if count == 0
    then ok (write_ulong_array resp none n)
    else if ltb count n
    then err (ckr err_buffer_too_small)
    else ok (write_ulong_array resp (some m) n)

unfoldable pub handle_get_mechanism_list : Body → Action Body
unfolding request count_request new_response slot slot_mechanisms mechanism_list_response
handle_get_mechanism_list req = do
  (slot_id, count) ← lift (request count_request req)
  s ← slot slot_id
  lift (mechanism_list_response (slot_mechanisms s) count (new_response req))

unfoldable pub handle_get_mechanism_info : Env → Body → Action Body
unfolding request two_ulongs_request new_response slot mechanism_info write_ulong
handle_get_mechanism_info env req = do
  (slot_id, m) ← lift (request two_ulongs_request req)
  s ← slot slot_id
  (min_size, max_size, flags) ← lift (mechanism_info env s m)
  pure (write_ulong (write_ulong (write_ulong (new_response req) min_size) max_size) flags)

-- strings.TrimRight(label, " \x00")
unfoldable pub trim_right : Bytes → Bytes
trim_right [] = []
trim_right (c ∷ s) =
    let rest = trim_right s in if (c == 32 || c == 0) && (length rest == 0) then [] else c ∷ rest

unfoldable pub init_slot : Bytes → Slot → Slot
unfolding trim_right
init_slot label s = record s { label = trim_right label; initialized = true }

unfoldable pub handle_init_token : Body → Action Body
unfolding request init_token_request new_response slot update_slot init_slot
handle_init_token req = do
  (slot_id, label) ← lift (request init_token_request req)
  s ← slot slot_id
  if s.initialized then lift (err (ckr err_cryptoki_already_initialized)) else λ c.
      (ok (new_response req), record c { slots = update_slot slot_id (init_slot label) c.slots })

-- There is no random number generator, whatever the request.
unfoldable pub handle_generate_random : Body → Action Body
handle_generate_random req = lift (err (ckr err_random_no_rng))

unfoldable pub handle_seed_random : Body → Action Body
handle_seed_random req = lift (err (ckr err_random_no_rng))

unfoldable pub slot_list_response : List Slot → ℕ → Body → Result Body
unfolding write_ulong_array
slot_list_response slots n resp =
    if n == 0
    then ok (write_ulong_array resp none (length slots % 2 ^ 32))
    else if ltb n (length slots)
    then err (ckr err_buffer_too_small)
    else ok (write_ulong_array resp (some (map (λ s. s.id) slots)) 0)

unfoldable pub handle_get_slot_list : Body → Action Body
unfolding request slot_list_request new_response slot_list_response
handle_get_slot_list req = do
  n ← lift (request slot_list_request req)
  λ c. (slot_list_response c.slots n (new_response req), c)
