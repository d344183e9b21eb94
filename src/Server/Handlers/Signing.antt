-- ===== src/Server/Handlers/Signing.antt =====
-- The handlers that sign, in one call or in several.
use go_p11_kit.Base.{◌%◌, ◌^◌, some, ◌++◌, length}
use go_p11_kit.Wire.Body.{Body, new_response}
use go_p11_kit.Wire.Body.Read.{request, string_of}
use go_p11_kit.Wire.Body.Write.{write_byte_array}
use go_p11_kit.Token.Object.{supports}
use go_p11_kit.Token.Sign.{sign}
use go_p11_kit.Token.Env.{Env}
use go_p11_kit.Server.Session.{session_object}
use go_p11_kit.Server.State.{Action, ◌>>=◌, ◌>>◌, pure, lift, session, write_session}
use go_p11_kit.Server.Requests.{
  sign_init_request, sign_request, sign_update_request, sign_final_request,
}

unfoldable pub handle_sign_init : Body → Action Body
unfolding request sign_init_request new_response session write_session session_object supports
handle_sign_init req = do
  (session_id, m, key_id) ← lift (request sign_init_request req)
  s ← session session_id
  o ← lift (session_object s key_id)
  lift (supports o m)
  write_session session_id (record s { sign_mechanism = m; sign_object = o })
  pure (new_response req)

unfoldable pub handle_sign : Env → Body → Action Body
unfolding request sign_request new_response session sign write_byte_array
handle_sign env req = do
  (session_id, d) ← lift (request sign_request req)
  s ← session session_id
  sig ← lift (sign env s.sign_object s.sign_mechanism (string_of d))
  pure (write_byte_array (new_response req) (some sig) (length sig % 2 ^ 32))

unfoldable pub handle_sign_update : Body → Action Body
unfolding request sign_update_request new_response session write_session
handle_sign_update req = do
  (session_id, d) ← lift (request sign_update_request req)
  s ← session session_id
  write_session session_id (record s { sign_data = s.sign_data ++ string_of d })
  pure (new_response req)

unfoldable pub handle_sign_final : Env → Body → Action Body
unfolding request sign_final_request new_response session sign write_byte_array
handle_sign_final env req = do
  session_id ← lift (request sign_final_request req)
  s ← session session_id
  sig ← lift (sign env s.sign_object s.sign_mechanism s.sign_data)
  pure (write_byte_array (new_response req) (some sig) (length sig % 2 ^ 32))
