-- ===== src/Server/Loop.antt =====
-- `Handle` of p11kit/p11kit.go: the negotiation of a version, and the loop over the requests of a
-- connection.
pub mod Runs
pub mod Answers
pub mod Fuel
use go_p11_kit.Base.{
  ℕ, zero, suc, ◌+◌, Bool, true, false, Option, none, some, List, [], ◌∷◌, ◌++◌, ◌==◌,
  if◌then◌else◌, length,
}
use go_p11_kit.Codes.Calls.{
  call_error, call_finalize, call_initialize, call_get_info, call_get_slot_list,
  call_get_token_info, call_get_slot_info, call_get_mechanism_list, call_get_mechanism_info,
  call_init_token, call_generate_random, call_seed_random, call_open_session, call_close_session,
  call_login, call_logout, call_find_objects_init, call_find_objects, call_find_objects_final,
  call_get_attribute_value, call_sign_init, call_sign, call_sign_update, call_sign_final,
  call_get_session_info, call_generate_key_pair, call_derive_key,
}
use go_p11_kit.Codes.Errors.{err_function_not_supported}
use go_p11_kit.Result.{Failure, Error, Result, ok, err, ckr, failed, no_version, foreign}
use go_p11_kit.Wire.Buffer.{Bytes}
use go_p11_kit.Wire.Body.{Body, empty_body}
use go_p11_kit.Wire.Body.Write.{write_ulong}
use go_p11_kit.Wire.Message.{read_request, write_response}
use go_p11_kit.Token.Env.{Env}
use go_p11_kit.Server.Slot.{Slot}
use go_p11_kit.Server.State.{Conn, Action, lift, pure}
use go_p11_kit.Server.Handlers.Info.{
  handle_initialize, handle_get_info, handle_get_slot_list, handle_get_token_info,
  handle_get_slot_info, handle_get_mechanism_list, handle_get_mechanism_info, handle_init_token,
  handle_generate_random, handle_seed_random,
}
use go_p11_kit.Server.Handlers.Sessions.{
  handle_open_session, handle_close_session, handle_login, handle_logout, handle_get_session_info,
}
use go_p11_kit.Server.Handlers.Objects.{
  handle_find_objects_init, handle_find_objects, handle_find_objects_final,
  handle_get_attribute_value,
}
use go_p11_kit.Server.Handlers.Signing.{
  handle_sign_init, handle_sign, handle_sign_update, handle_sign_final,
}
use go_p11_kit.Server.Handlers.NewKeys.{handle_generate_key_pair, handle_derive_key}

-- The table `handlers`, by number.
unfoldable pub handlers : Env → List (ℕ × (Body → Action Body))
handlers env =
    (call_finalize, λ req. pure req)
    ∷ (call_initialize, handle_initialize)
    ∷ (call_get_info, handle_get_info)
    ∷ (call_get_slot_list, handle_get_slot_list)
    ∷ (call_get_token_info, handle_get_token_info)
    ∷ (call_get_slot_info, handle_get_slot_info)
    ∷ (call_get_mechanism_list, handle_get_mechanism_list)
    ∷ (call_get_mechanism_info, handle_get_mechanism_info env)
    ∷ (call_init_token, handle_init_token)
    ∷ (call_generate_random, handle_generate_random)
    ∷ (call_seed_random, handle_seed_random)
    ∷ (call_open_session, handle_open_session env)
    ∷ (call_close_session, handle_close_session)
    ∷ (call_login, handle_login)
    ∷ (call_logout, handle_logout)
    ∷ (call_find_objects_init, handle_find_objects_init)
    ∷ (call_find_objects, handle_find_objects)
    ∷ (call_find_objects_final, handle_find_objects_final)
    ∷ (call_get_attribute_value, handle_get_attribute_value)
    ∷ (call_sign_init, handle_sign_init)
    ∷ (call_sign, handle_sign env)
    ∷ (call_sign_update, handle_sign_update)
    ∷ (call_sign_final, handle_sign_final env)
    ∷ (call_get_session_info, handle_get_session_info)
    ∷ (call_generate_key_pair, handle_generate_key_pair env)
    ∷ (call_derive_key, handle_derive_key env)
    ∷ []

abbrev pub find_handler : List (ℕ × (Body → Action Body)) → ℕ → Body → Action Body
find_handler [] call req = lift (err (ckr err_function_not_supported))
find_handler ((c, h) ∷ rest) call req = if c == call then h req else find_handler rest call req

unfoldable pub dispatch : Env → Body → Action Body
unfolding handlers
dispatch env req = find_handler (handlers env) req.call req

-- What goes back to the client, or why the connection ends: a return code becomes the body of an
-- error, and any other error ends the connection (a panic, the process).
pub data Reply : Type 0 where
  reply : Body → Reply
  give_up : Failure → Reply

unfoldable pub respond : Result Body → Reply
unfolding write_ulong
respond (ok resp) = reply resp
respond (err (ckr code)) = reply (write_ulong (empty_body call_error) code)
respond (err (failed f)) = give_up f

-- What happens around the connection at its n-th request: the answers of the code that the library
-- calls, what other connections have done to the slots by then, and whether the response can be
-- written.
pub record World : Type 0 where
  pub env : ℕ → Env
  pub others : ℕ → List Slot → List Slot
  pub writable : ℕ → Bool
  -- whether the version byte can be written
  pub version_writable : Bool

-- How the loop ended: by C_Finalize, by an error, by a write that failed, or (in the model
-- alone) for lack of fuel.
pub data End : Type 0 where
  finalized : End
  aborted : Failure → End
  write_aborted : End
  stuck : End

pub record Served : Type 0 where
  pub output : Bytes
  pub state : Conn
  pub end : End

unfoldable pub step : World → ℕ → Body → Action Body
unfolding dispatch
step w n req c = dispatch (w.env n) req (record c { slots = w.others n c.slots })

-- What the loop does with the outcome of a request: write it, and stop or go on.
abbrev pub answer : Bool → Bool → ℕ → Reply → Conn → Bytes → (Bytes → Served) → Served
answer writable last id (give_up f) c out go_on = record {
  output = out;
  state = c;
  end = aborted f;
}
answer false last id (reply resp) c out go_on = record {
  output = out;
  state = c;
  end = write_aborted;
}
answer true true id (reply resp) c out go_on = record {
  output = out ++ write_response id resp;
  state = c;
  end = finalized;
}
answer true false id (reply resp) c out go_on = go_on (out ++ write_response id resp)

abbrev pub read_failed : Error → Failure
read_failed (ckr code) = foreign code
read_failed (failed f) = f

-- One round, on the outcome of `readRequest`.
abbrev pub round : World → ℕ → Conn → Bytes → Result (ℕ × Body) → (Conn → Bytes → Served) → Served
round w n c out (err e) go_on = record { output = out; state = c; end = aborted (read_failed e) }
round w n c out (ok (id, req)) go_on =
    let (r, c') = step w n req c in
    answer (w.writable n) (req.call == call_finalize) id (respond r) c' out (go_on c')

-- The loop, on fuel; `n` requests have been read, and the stream holds those to come.
unfoldable pub serve : ℕ → World → ℕ → Conn → Bytes → Bytes → Served
unfolding read_request step respond write_response
serve zero w n c stream out = record { output = out; state = c; end = stuck }
serve (suc fuel) w n c stream out =
    round w n c out (read_request stream).0
      λ c' out'. serve fuel w (suc n) c' (read_request stream).1 out'

abbrev pub started : Bool → Conn → Served → Served
started true c s = s
started false c s = record { output = []; state = c; end = write_aborted }

-- The version byte of the client is read, and 0 is the answer to any.
unfoldable pub handle : World → Conn → Bytes → Served
unfolding serve
handle w c [] = record { output = []; state = c; end = aborted no_version }
handle w c (version ∷ stream) =
    started w.version_writable c (serve (suc (length stream)) w 0 c stream (0 ∷ []))
