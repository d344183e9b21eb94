-- ===== src/Server/Atomic/Requests.antt =====
-- The handlers of p11kit/p11kit.go, each of which succeeds or changes nothing.
use go_p11_kit.Base.{ℕ, ◌≡◌, ◌==◌, List, [], ◌∷◌, All, ◌▸◌}
use go_p11_kit.Wire.Body.{Body}
use go_p11_kit.Token.Env.{Env}
use go_p11_kit.Result.{err, ckr, Error}
use go_p11_kit.Codes.Errors.{err_random_no_rng}
use go_p11_kit.Server.State.{Conn, Action, lift}
use go_p11_kit.Server.Session.{find}
use go_p11_kit.Server.Handlers.Info.{
  handle_initialize, handle_get_info, handle_get_slot_list, handle_get_token_info,
  handle_get_slot_info, handle_get_mechanism_list, handle_get_mechanism_info, handle_init_token,
  handle_generate_random, handle_seed_random, init_slot,
}
use go_p11_kit.Server.Handlers.Sessions.{
  handle_open_session, handle_close_session, handle_login, handle_logout, handle_get_session_info,
}
use go_p11_kit.Server.Handlers.Objects.{
  handle_find_objects_init, handle_find_objects, handle_find_objects_final,
  handle_get_attribute_value,
}
use go_p11_kit.Server.Handlers.Signing.{
  handle_sign_init, handle_sign, handle_sign_update, handle_sign_final,
}
use go_p11_kit.Server.Handlers.NewKeys.{handle_generate_key_pair, handle_derive_key}
use go_p11_kit.Server.Loop.{handlers, find_handler, dispatch}
use go_p11_kit.Server.Invariant.{Inv}
use go_p11_kit.Server.Atomic.{Atomic, Atomic-if, Atomic-lift}
use go_p11_kit.Server.Atomic.Rules.{rules, Atomic-pure}

module _ (ids : List ℕ) where
  initialize-Atomic : (req : Body) → Atomic (Inv ids) (handle_initialize req)
  unfolding handle_initialize
  initialize-Atomic req = search rules depth 8

  get_info-Atomic : (req : Body) → Atomic (Inv ids) (handle_get_info req)
  unfolding handle_get_info
  get_info-Atomic req = search rules depth 8

  get_slot_list-Atomic : (req : Body) → Atomic (Inv ids) (handle_get_slot_list req)
  unfolding handle_get_slot_list
  get_slot_list-Atomic req = search rules depth 8

  get_token_info-Atomic : (req : Body) → Atomic (Inv ids) (handle_get_token_info req)
  unfolding handle_get_token_info
  get_token_info-Atomic req = search rules depth 8

  get_slot_info-Atomic : (req : Body) → Atomic (Inv ids) (handle_get_slot_info req)
  unfolding handle_get_slot_info
  get_slot_info-Atomic req = search rules depth 8

  get_mechanism_list-Atomic : (req : Body) → Atomic (Inv ids) (handle_get_mechanism_list req)
  unfolding handle_get_mechanism_list
  get_mechanism_list-Atomic req = search rules depth 8

  get_mechanism_info-Atomic :
      (env : Env) (req : Body) → Atomic (Inv ids) (handle_get_mechanism_info env req)
  unfolding handle_get_mechanism_info
  get_mechanism_info-Atomic env req = search rules depth 8

  init_token-Atomic : (req : Body) → Atomic (Inv ids) (handle_init_token req)
  unfolding handle_init_token init_slot
  init_token-Atomic req = search rules depth 8

  open_session-Atomic : (env : Env) (req : Body) → Atomic (Inv ids) (handle_open_session env req)
  unfolding handle_open_session
  open_session-Atomic env req = search rules depth 8

  close_session-Atomic : (req : Body) → Atomic (Inv ids) (handle_close_session req)
  unfolding handle_close_session
  close_session-Atomic req = search rules depth 8

  login-Atomic : (req : Body) → Atomic (Inv ids) (handle_login req)
  unfolding handle_login
  login-Atomic req = search rules depth 8

  logout-Atomic : (req : Body) → Atomic (Inv ids) (handle_logout req)
  unfolding handle_logout
  logout-Atomic req = search rules depth 8

  get_session_info-Atomic : (req : Body) → Atomic (Inv ids) (handle_get_session_info req)
  unfolding handle_get_session_info
  get_session_info-Atomic req = search rules depth 8

  find_objects_init-Atomic : (req : Body) → Atomic (Inv ids) (handle_find_objects_init req)
  unfolding handle_find_objects_init find
  find_objects_init-Atomic req = search rules depth 8

  find_objects-Atomic : (req : Body) → Atomic (Inv ids) (handle_find_objects req)
  unfolding handle_find_objects
  find_objects-Atomic req = search rules depth 8

  find_objects_final-Atomic : (req : Body) → Atomic (Inv ids) (handle_find_objects_final req)
  unfolding handle_find_objects_final
  find_objects_final-Atomic req = search rules depth 8

  get_attribute_value-Atomic : (req : Body) → Atomic (Inv ids) (handle_get_attribute_value req)
  unfolding handle_get_attribute_value
  get_attribute_value-Atomic req = search rules depth 8

  sign_init-Atomic : (req : Body) → Atomic (Inv ids) (handle_sign_init req)
  unfolding handle_sign_init
  sign_init-Atomic req = search rules depth 8

  sign-Atomic : (env : Env) (req : Body) → Atomic (Inv ids) (handle_sign env req)
  unfolding handle_sign
  sign-Atomic env req = search rules depth 8

  sign_update-Atomic : (req : Body) → Atomic (Inv ids) (handle_sign_update req)
  unfolding handle_sign_update
  sign_update-Atomic req = search rules depth 8

  sign_final-Atomic : (env : Env) (req : Body) → Atomic (Inv ids) (handle_sign_final env req)
  unfolding handle_sign_final
  sign_final-Atomic env req = search rules depth 8

  generate_key_pair-Atomic :
      (env : Env) (req : Body) → Atomic (Inv ids) (handle_generate_key_pair env req)
  unfolding handle_generate_key_pair
  generate_key_pair-Atomic env req = search rules depth 8

  derive_key-Atomic : (env : Env) (req : Body) → Atomic (Inv ids) (handle_derive_key env req)
  unfolding handle_derive_key
  derive_key-Atomic env req = search rules depth 8

  no_rng-Atomic : {A : Type 0} → Atomic {A = A} (Inv ids) (lift (err (ckr err_random_no_rng)))
  no_rng-Atomic = Atomic-lift (Inv ids) _

  -- Each handler of the table, and so whichever the request is given to.
  find_handler-Atomic :
      (table : List (ℕ × (Body → Action Body))) (call : ℕ) (req : Body)
      → All (λ p. Atomic (Inv ids) (p.1 req)) table
      → Atomic (Inv ids) (find_handler table call req)
  find_handler-Atomic [] call req h = Atomic-lift (Inv ids) _
  find_handler-Atomic ((k, f) ∷ table) call req h =
      Atomic-if (Inv ids) (k == call) (f req) (find_handler table call req) h.0
        (find_handler-Atomic table call req h.1)

  dispatch-Atomic : (env : Env) (req : Body) → Atomic (Inv ids) (dispatch env req)
  unfolding dispatch handlers handle_generate_random handle_seed_random
  dispatch-Atomic env req = find_handler-Atomic (handlers env) req.call req (
      Atomic-pure ids req
      ▸ initialize-Atomic req
      ▸ get_info-Atomic req
      ▸ get_slot_list-Atomic req
      ▸ get_token_info-Atomic req
      ▸ get_slot_info-Atomic req
      ▸ get_mechanism_list-Atomic req
      ▸ get_mechanism_info-Atomic env req
      ▸ init_token-Atomic req
      ▸ no_rng-Atomic
      ▸ no_rng-Atomic
      ▸ open_session-Atomic env req
      ▸ close_session-Atomic req
      ▸ login-Atomic req
      ▸ logout-Atomic req
      ▸ find_objects_init-Atomic req
      ▸ find_objects-Atomic req
      ▸ find_objects_final-Atomic req
      ▸ get_attribute_value-Atomic req
      ▸ sign_init-Atomic req
      ▸ sign-Atomic env req
      ▸ sign_update-Atomic req
      ▸ sign_final-Atomic env req
      ▸ get_session_info-Atomic req
      ▸ generate_key_pair-Atomic env req
      ▸ derive_key-Atomic env req
      ▸ tt)

-- A request that fails, for whatever reason, leaves the connection exactly as it was: its sessions and
-- the slots, provided that the sessions belong to slots and have distinct uint64 IDs.
pub dispatch-err :
    (ids : List ℕ) (env : Env) (req : Body) (c : Conn) (e : Error)
    → Inv ids c
    → (dispatch env req c).0 ≡ err e
    → (dispatch env req c).1 ≡ c
dispatch-err ids env req c e h fails = (dispatch-Atomic ids env req).at c h e fails
