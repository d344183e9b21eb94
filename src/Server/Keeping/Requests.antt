-- ===== src/Server/Keeping/Requests.antt =====
-- The handlers of p11kit/p11kit.go, and an assertion on the state that outlasts each of them.
use go_p11_kit.Base.{ℕ, ◌==◌, List, [], ◌∷◌, All, ◌▸◌}
use go_p11_kit.Wire.Body.{Body}
use go_p11_kit.Token.Env.{Env}
use go_p11_kit.Token.Object.{Object}
use go_p11_kit.Result.{err, ckr}
use go_p11_kit.Codes.Errors.{err_random_no_rng}
use go_p11_kit.Server.State.{Conn, Action, lift}
use go_p11_kit.Server.Session.{find}
use go_p11_kit.Server.Invariant.{Keeps, Keeps-pure, Keeps-lift, Keeps-if}
use go_p11_kit.Server.Handlers.Info.{
  handle_initialize, handle_get_info, handle_get_slot_list, handle_get_token_info,
  handle_get_slot_info, handle_get_mechanism_list, handle_get_mechanism_info,
  handle_generate_random, handle_seed_random,
}
use go_p11_kit.Server.Handlers.Sessions.{
  handle_open_session, handle_close_session, handle_login, handle_logout, handle_get_session_info,
}
use go_p11_kit.Server.Handlers.Objects.{
  handle_find_objects_init, handle_find_objects, handle_find_objects_final,
  handle_get_attribute_value,
}
use go_p11_kit.Server.Handlers.Signing.{
  handle_sign_init, handle_sign, handle_sign_update, handle_sign_final,
}
use go_p11_kit.Server.Handlers.NewKeys.{
  handle_generate_key_pair, handle_derive_key, persist_if_token,
}
use go_p11_kit.Server.Loop.{handlers, find_handler, dispatch}
use go_p11_kit.Server.Keeping.{Keeper, fine-find_next, rules}

module _ {P : Conn → Type 0} {valid : ℕ → Type 0} {fine : ℕ → List Object → Type 0}
    (k : Keeper P valid fine) where
  initialize-kept : (req : Body) → Keeps P (handle_initialize req)
  unfolding handle_initialize
  initialize-kept req = search rules

  get_info-kept : (req : Body) → Keeps P (handle_get_info req)
  unfolding handle_get_info
  get_info-kept req = search rules

  get_slot_list-kept : (req : Body) → Keeps P (handle_get_slot_list req)
  unfolding handle_get_slot_list
  get_slot_list-kept req = search rules

  get_token_info-kept : (req : Body) → Keeps P (handle_get_token_info req)
  unfolding handle_get_token_info
  get_token_info-kept req = search rules

  get_slot_info-kept : (req : Body) → Keeps P (handle_get_slot_info req)
  unfolding handle_get_slot_info
  get_slot_info-kept req = search rules

  get_mechanism_list-kept : (req : Body) → Keeps P (handle_get_mechanism_list req)
  unfolding handle_get_mechanism_list
  get_mechanism_list-kept req = search rules

  get_mechanism_info-kept : (env : Env) (req : Body) → Keeps P (handle_get_mechanism_info env req)
  unfolding handle_get_mechanism_info
  get_mechanism_info-kept env req = search rules

  open_session-kept : (env : Env) (req : Body) → Keeps P (handle_open_session env req)
  unfolding handle_open_session
  open_session-kept env req = search rules

  close_session-kept : (req : Body) → Keeps P (handle_close_session req)
  unfolding handle_close_session
  close_session-kept req = search rules

  login-kept : (req : Body) → Keeps P (handle_login req)
  unfolding handle_login
  login-kept req = search rules

  logout-kept : (req : Body) → Keeps P (handle_logout req)
  unfolding handle_logout
  logout-kept req = search rules

  get_session_info-kept : (req : Body) → Keeps P (handle_get_session_info req)
  unfolding handle_get_session_info
  get_session_info-kept req = search rules

  find_objects_init-kept : (req : Body) → Keeps P (handle_find_objects_init req)
  unfolding handle_find_objects_init find
  find_objects_init-kept req = search rules

  find_objects-kept : (req : Body) → Keeps P (handle_find_objects req)
  unfolding handle_find_objects
  find_objects-kept req = search (rules, fine-find_next fine) depth 8

  find_objects_final-kept : (req : Body) → Keeps P (handle_find_objects_final req)
  unfolding handle_find_objects_final
  find_objects_final-kept req = search rules

  get_attribute_value-kept : (req : Body) → Keeps P (handle_get_attribute_value req)
  unfolding handle_get_attribute_value
  get_attribute_value-kept req = search rules

  sign_init-kept : (req : Body) → Keeps P (handle_sign_init req)
  unfolding handle_sign_init
  sign_init-kept req = search rules depth 8

  sign-kept : (env : Env) (req : Body) → Keeps P (handle_sign env req)
  unfolding handle_sign
  sign-kept env req = search rules

  sign_update-kept : (req : Body) → Keeps P (handle_sign_update req)
  unfolding handle_sign_update
  sign_update-kept req = search rules

  sign_final-kept : (env : Env) (req : Body) → Keeps P (handle_sign_final env req)
  unfolding handle_sign_final
  sign_final-kept env req = search rules

  pub persist_if_token-kept : (slot_id : ℕ) (o : Object) → Keeps P (persist_if_token slot_id o)
  unfolding persist_if_token
  persist_if_token-kept slot_id o = search rules

  generate_key_pair-kept : (env : Env) (req : Body) → Keeps P (handle_generate_key_pair env req)
  unfolding handle_generate_key_pair
  generate_key_pair-kept env req = search (rules, persist_if_token-kept, k.at_append) depth 10

  derive_key-kept : (env : Env) (req : Body) → Keeps P (handle_derive_key env req)
  unfolding handle_derive_key
  derive_key-kept env req = search (rules, k.at_append) depth 8

  no_rng-kept : {A : Type 0} → Keeps {A = A} P (lift (err (ckr err_random_no_rng)))
  no_rng-kept = Keeps-lift P _

  -- Each handler of the table, and so whichever the request is given to.
  find_handler-kept :
      (table : List (ℕ × (Body → Action Body))) (call : ℕ) (req : Body)
      → All (λ p. Keeps P (p.1 req)) table
      → Keeps P (find_handler table call req)
  find_handler-kept [] call req h = Keeps-lift P _
  find_handler-kept ((k, f) ∷ table) call req h =
      Keeps-if P (k == call) (f req) (find_handler table call req) h.0
        (find_handler-kept table call req h.1)

  -- Whatever the request.
  pub dispatch-kept : (env : Env) (req : Body) → Keeps P (dispatch env req)
  unfolding dispatch handlers handle_generate_random handle_seed_random
  dispatch-kept env req = find_handler-kept (handlers env) req.call req (
      Keeps-pure P req
      ▸ initialize-kept req
      ▸ get_info-kept req
      ▸ get_slot_list-kept req
      ▸ get_token_info-kept req
      ▸ get_slot_info-kept req
      ▸ get_mechanism_list-kept req
      ▸ get_mechanism_info-kept env req
      ▸ k.at_init_token req
      ▸ no_rng-kept
      ▸ no_rng-kept
      ▸ open_session-kept env req
      ▸ close_session-kept req
      ▸ login-kept req
      ▸ logout-kept req
      ▸ find_objects_init-kept req
      ▸ find_objects-kept req
      ▸ find_objects_final-kept req
      ▸ get_attribute_value-kept req
      ▸ sign_init-kept req
      ▸ sign-kept env req
      ▸ sign_update-kept req
      ▸ sign_final-kept env req
      ▸ get_session_info-kept req
      ▸ generate_key_pair-kept env req
      ▸ derive_key-kept env req
      ▸ tt)
