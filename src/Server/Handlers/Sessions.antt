-- ===== src/Server/Handlers/Sessions.antt =====
-- The handlers that open, close and describe sessions.
use go_p11_kit.Base.{ℕ, ◌==◌, not, if◌then◌else◌, bit_and}
use go_p11_kit.Codes.Errors.{err_session_parallel_not_supported, err_user_type_invalid}
use go_p11_kit.Codes.Mechanisms.{cku_user}
use go_p11_kit.Result.{err, ckr}
use go_p11_kit.Wire.Body.{Body, new_response}
use go_p11_kit.Wire.Body.Read.{request}
use go_p11_kit.Wire.Body.Write.{write_ulong}
use go_p11_kit.Token.Env.{Env}
use go_p11_kit.Server.Session.{Session}
use go_p11_kit.Server.State.{Action, ◌>>=◌, ◌>>◌, pure, lift, session, new_session, close_session}
use go_p11_kit.Server.Requests.{id_request, two_ulongs_request, login_request}

abbrev pub ckf_serial_session : ℕ
ckf_serial_session = 0x00000004

unfoldable pub handle_open_session : Env → Body → Action Body
unfolding request two_ulongs_request new_response new_session write_ulong
handle_open_session env req = do
  (slot_id, flags) ← lift (request two_ulongs_request req)
  if bit_and flags ckf_serial_session == 0
      then lift (err (ckr err_session_parallel_not_supported))
      else do session_id ← new_session env slot_id; pure (write_ulong (new_response req) session_id)

unfoldable pub handle_close_session : Body → Action Body
unfolding request id_request new_response close_session
handle_close_session req = do
  id ← lift (request id_request req)
  close_session id
  pure (new_response req)

-- Every user is logged in already, whatever the PIN.
unfoldable pub handle_login : Body → Action Body
unfolding request login_request new_response session
handle_login req = do
  (session_id, user_type) ← lift (request login_request req)
  session session_id
  if not (user_type == cku_user)
      then lift (err (ckr err_user_type_invalid))
      else pure (new_response req)

unfoldable pub handle_logout : Body → Action Body
unfolding request id_request new_response session
handle_logout req = do
  session_id ← lift (request id_request req)
  session session_id
  pure (new_response req)

-- The state is CKS_RO_USER_FUNCTIONS.
unfoldable pub session_info_response : Session → Body → Body
unfolding write_ulong
session_info_response s resp =
    write_ulong (write_ulong (write_ulong (write_ulong resp s.slot_id) 1) ckf_serial_session) 0

unfoldable pub handle_get_session_info : Body → Action Body
unfolding request id_request new_response session session_info_response
handle_get_session_info req = do
  session_id ← lift (request id_request req)
  s ← session session_id
  pure (session_info_response s (new_response req))
