-- ===== src/Server/Isolation/Handlers.antt =====
-- Each handler of p11kit/p11kit.go and the open sessions that its request does not name.
use go_p11_kit.Base.{
  ℕ, ◌-◌, ◌^◌, ◌<◌, ◌≡◌, ◌≢◌, ap, ◌∙◌, Bool, true, false, some, ◌==◌, length, if◌then◌else◌,
  bit_and,
}
use go_p11_kit.Codes.Errors.{err_session_parallel_not_supported}
use go_p11_kit.Result.{err, ckr}
use go_p11_kit.Wire.Body.{Body, new_response}
use go_p11_kit.Wire.Body.Read.{request}
use go_p11_kit.Wire.Body.Write.{write_ulong}
use go_p11_kit.Token.Env.{Env}
use go_p11_kit.Token.Object.{Object}
use go_p11_kit.Server.Session.{Session}
use go_p11_kit.Server.State.{Conn, Action, ◌>>=◌, pure, lift, new_session}
use go_p11_kit.Server.Requests.{two_ulongs_request}
use go_p11_kit.Server.Invariant.{Keeps, Keeps-pure, Keeps-lift, Keeps-asks, Keeps-if, Keeps-bind}
use go_p11_kit.Server.Isolation.Requests.{
  first_ulong, id_request-first, count_request-first, find_objects_init_request-first,
  sign_init_request-first, sign_update_request-first, generate_key_pair_request-first,
  derive_key_request-first,
}
use go_p11_kit.Server.Isolation.Rules.{
  IsOpenAs, Keeps-request, Keeps-session, Keeps-slot, Keeps-slots, Keeps-persist_object,
  Keeps-write_session, Keeps-close_session, continue-open, new_session-open,
}
use go_p11_kit.Server.Handlers.Info.{
  handle_initialize, handle_get_info, handle_get_slot_list, handle_get_token_info,
  handle_get_slot_info, handle_get_mechanism_list, handle_get_mechanism_info, handle_init_token,
  handle_generate_random, handle_seed_random,
}
use go_p11_kit.Server.Handlers.Sessions.{
  ckf_serial_session, handle_open_session, handle_close_session, handle_login, handle_logout,
  handle_get_session_info,
}
use go_p11_kit.Server.Handlers.Objects.{
  handle_find_objects_init, handle_find_objects, handle_find_objects_final,
  handle_get_attribute_value,
}
use go_p11_kit.Server.Handlers.Signing.{
  handle_sign_init, handle_sign, handle_sign_update, handle_sign_final,
}
use go_p11_kit.Server.Handlers.NewKeys.{
  handle_generate_key_pair, handle_derive_key, persist_if_token,
}

ruleset rules = (
  Keeps-pure, Keeps-lift, Keeps-asks, Keeps-if, Keeps-session, Keeps-slot, Keeps-slots,
  Keeps-persist_object, Keeps-write_session, Keeps-close_session, Keeps-bind,
)

module _ (j : ℕ) (s : Session) (req : Body) where
  -- A request that names another session.
  named : (id : ℕ) → first_ulong req ≡ some id → first_ulong req ≢ some j → id ≢ j
  named id e other same = other (e ∙ ap some same)

  pub close_session-open :
      first_ulong req ≢ some j → Keeps (IsOpenAs j s) (handle_close_session req)
  unfolding handle_close_session
  close_session-open other =
      Keeps-request j s _ _
        λ id e. let apart = named id (id_request-first req id e) other in search rules

  pub find_objects_init-open :
      first_ulong req ≢ some j → Keeps (IsOpenAs j s) (handle_find_objects_init req)
  unfolding handle_find_objects_init
  find_objects_init-open other =
      Keeps-request j s _ _
        λ a e. let apart = named a.0 (find_objects_init_request-first req a e) other in search rules

  pub find_objects-open : first_ulong req ≢ some j → Keeps (IsOpenAs j s) (handle_find_objects req)
  unfolding handle_find_objects
  find_objects-open other =
      Keeps-request j s _ _
        λ a e. let apart = named a.0 (count_request-first req a e) other in search rules

  pub sign_init-open : first_ulong req ≢ some j → Keeps (IsOpenAs j s) (handle_sign_init req)
  unfolding handle_sign_init
  sign_init-open other =
      Keeps-request j s _ _
        λ a e. let apart = named a.0 (sign_init_request-first req a e) other in search rules depth 8

  pub sign_update-open : first_ulong req ≢ some j → Keeps (IsOpenAs j s) (handle_sign_update req)
  unfolding handle_sign_update
  sign_update-open other =
      Keeps-request j s _ _
        λ a e. let apart = named a.0 (sign_update_request-first req a e) other in search rules

  persist_if_token-open :
      (slot_id : ℕ) (o : Object) → Keeps (IsOpenAs j s) (persist_if_token slot_id o)
  unfolding persist_if_token
  persist_if_token-open slot_id o = search rules

  pub generate_key_pair-open :
      (env : Env)
      → first_ulong req ≢ some j
      → Keeps (IsOpenAs j s) (handle_generate_key_pair env req)
  unfolding handle_generate_key_pair
  generate_key_pair-open env other = Keeps-request j s _ _ λ a e.
      let apart = named a.0 (generate_key_pair_request-first req a e) other in
      search (rules, persist_if_token-open) depth 10

  pub derive_key-open :
      (env : Env) → first_ulong req ≢ some j → Keeps (IsOpenAs j s) (handle_derive_key env req)
  unfolding handle_derive_key
  derive_key-open env other =
      Keeps-request j s _ _ λ a e.
        let apart = named a.0 (derive_key_request-first req a e) other in search rules depth 8

  pub initialize-open : Keeps (IsOpenAs j s) (handle_initialize req)
  unfolding handle_initialize
  initialize-open = search rules

  pub get_info-open : Keeps (IsOpenAs j s) (handle_get_info req)
  unfolding handle_get_info
  get_info-open = search rules

  pub get_slot_list-open : Keeps (IsOpenAs j s) (handle_get_slot_list req)
  unfolding handle_get_slot_list
  get_slot_list-open = search rules

  pub get_token_info-open : Keeps (IsOpenAs j s) (handle_get_token_info req)
  unfolding handle_get_token_info
  get_token_info-open = search rules

  pub get_slot_info-open : Keeps (IsOpenAs j s) (handle_get_slot_info req)
  unfolding handle_get_slot_info
  get_slot_info-open = search rules

  pub get_mechanism_list-open : Keeps (IsOpenAs j s) (handle_get_mechanism_list req)
  unfolding handle_get_mechanism_list
  get_mechanism_list-open = search rules

  pub get_mechanism_info-open :
      (env : Env) → Keeps (IsOpenAs j s) (handle_get_mechanism_info env req)
  unfolding handle_get_mechanism_info
  get_mechanism_info-open env = search rules

  pub init_token-open : Keeps (IsOpenAs j s) (handle_init_token req)
  unfolding handle_init_token
  init_token-open = search rules depth 8

  pub generate_random-open : Keeps (IsOpenAs j s) (handle_generate_random req)
  unfolding handle_generate_random
  generate_random-open = search rules

  pub seed_random-open : Keeps (IsOpenAs j s) (handle_seed_random req)
  unfolding handle_seed_random
  seed_random-open = search rules

  pub login-open : Keeps (IsOpenAs j s) (handle_login req)
  unfolding handle_login
  login-open = search rules

  pub logout-open : Keeps (IsOpenAs j s) (handle_logout req)
  unfolding handle_logout
  logout-open = search rules

  pub find_objects_final-open : Keeps (IsOpenAs j s) (handle_find_objects_final req)
  unfolding handle_find_objects_final
  find_objects_final-open = search rules

  pub get_attribute_value-open : Keeps (IsOpenAs j s) (handle_get_attribute_value req)
  unfolding handle_get_attribute_value
  get_attribute_value-open = search rules

  pub sign-open : (env : Env) → Keeps (IsOpenAs j s) (handle_sign env req)
  unfolding handle_sign
  sign-open env = search rules

  pub sign_final-open : (env : Env) → Keeps (IsOpenAs j s) (handle_sign_final env req)
  unfolding handle_sign_final
  sign_final-open env = search rules

  pub get_session_info-open : Keeps (IsOpenAs j s) (handle_get_session_info req)
  unfolding handle_get_session_info
  get_session_info-open = search rules

  pub if-open :
      {A : Type 0} (b : Bool) (m n : Action A) (c : Conn)
      → IsOpenAs j s (m c).1
      → IsOpenAs j s (n c).1
      → IsOpenAs j s ((if b then m else n) c).1
  if-open true m n c hm hn = hm
  if-open false m n c hm hn = hn

  pub open_session-open :
      (env : Env) (c : Conn)
      → length c.sessions < 2 ^ 64 - 1
      → IsOpenAs j s c
      → IsOpenAs j s (handle_open_session env req c).1
  unfolding handle_open_session
  open_session-open env c small h =
      continue-open j s (request two_ulongs_request req)
        (λ a.
          if bit_and a.1 ckf_serial_session == 0
          then lift (err (ckr err_session_parallel_not_supported))
          else new_session env a.0 >>= (λ id. pure (write_ulong (new_response req) id)))
        c h
        λ a.
          if-open (bit_and a.1 ckf_serial_session == 0)
            (lift (err (ckr err_session_parallel_not_supported)))
            (new_session env a.0 >>= (λ id. pure (write_ulong (new_response req) id))) c h
            (continue-open j s (new_session env a.0 c).0
              (λ id. pure (write_ulong (new_response req) id)) (new_session env a.0 c).1
              (new_session-open j s env a.0 c small h) λ id. new_session-open j s env a.0 c small h)
