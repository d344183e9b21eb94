-- ===== src/Server/Isolation/Step.antt =====
-- One round of `Handle` of p11kit/p11kit.go and the open sessions that its request does not name.
use go_p11_kit.Base.{ℕ, ◌-◌, ◌^◌, ◌<◌, ◌≡◌, ◌≢◌, some, List, [], ◌∷◌, ◌==◌, length, All, ◌▸◌}
use go_p11_kit.Wire.Body.{Body}
use go_p11_kit.Token.Env.{Env}
use go_p11_kit.Server.Session.{Session}
use go_p11_kit.Server.State.{Conn, Action, find_session}
use go_p11_kit.Server.Isolation.Requests.{first_ulong}
use go_p11_kit.Server.Isolation.Rules.{IsOpenAs}
use go_p11_kit.Server.Loop.{World, handlers, find_handler, dispatch, step}
use go_p11_kit.Server.Isolation.Handlers.{
  close_session-open, find_objects_init-open, find_objects-open, sign_init-open, sign_update-open,
  generate_key_pair-open, derive_key-open, initialize-open, get_info-open, get_slot_list-open,
  get_token_info-open, get_slot_info-open, get_mechanism_list-open, get_mechanism_info-open,
  init_token-open, generate_random-open, seed_random-open, login-open, logout-open,
  find_objects_final-open, get_attribute_value-open, sign-open, sign_final-open,
  get_session_info-open, if-open, open_session-open,
}

-- Each handler of the table, and so whichever the request is given to.
module _ (j : ℕ) (s : Session) (req : Body) (c : Conn) (h : IsOpenAs j s c) where
  find_handler-open :
      (table : List (ℕ × (Body → Action Body))) (call : ℕ)
      → All (λ p. IsOpenAs j s (p.1 req c).1) table
      → IsOpenAs j s (find_handler table call req c).1
  find_handler-open [] call hs = h
  find_handler-open ((k, f) ∷ table) call hs =
      if-open j s req (k == call) (f req) (find_handler table call req) c hs.0
        (find_handler-open table call hs.1)

  dispatch-open :
      (env : Env)
      → first_ulong req ≢ some j
      → length c.sessions < 2 ^ 64 - 1
      → IsOpenAs j s (dispatch env req c).1
  unfolding dispatch handlers
  dispatch-open env other small = find_handler-open (handlers env) req.call (
      h
      ▸ (initialize-open j s req).at c h
      ▸ (get_info-open j s req).at c h
      ▸ (get_slot_list-open j s req).at c h
      ▸ (get_token_info-open j s req).at c h
      ▸ (get_slot_info-open j s req).at c h
      ▸ (get_mechanism_list-open j s req).at c h
      ▸ (get_mechanism_info-open j s req env).at c h
      ▸ (init_token-open j s req).at c h
      ▸ (generate_random-open j s req).at c h
      ▸ (seed_random-open j s req).at c h
      ▸ open_session-open j s req env c small h
      ▸ (close_session-open j s req other).at c h
      ▸ (login-open j s req).at c h
      ▸ (logout-open j s req).at c h
      ▸ (find_objects_init-open j s req other).at c h
      ▸ (find_objects-open j s req other).at c h
      ▸ (find_objects_final-open j s req).at c h
      ▸ (get_attribute_value-open j s req).at c h
      ▸ (sign_init-open j s req other).at c h
      ▸ (sign-open j s req env).at c h
      ▸ (sign_update-open j s req other).at c h
      ▸ (sign_final-open j s req env).at c h
      ▸ (get_session_info-open j s req).at c h
      ▸ (generate_key_pair-open j s req env other).at c h
      ▸ (derive_key-open j s req env other).at c h
      ▸ tt)

-- With fewer than 2^64 - 1 sessions, a request that does not begin with the ID of an open session
-- leaves that session exactly as it is, whatever the request and its outcome.
pub step-open :
    (w : World) (n : ℕ) (req : Body) (c : Conn) (j : ℕ) (s : Session)
    → find_session c.sessions j ≡ some s
    → first_ulong req ≢ some j
    → length c.sessions < 2 ^ 64 - 1
    → find_session (step w n req c).1.sessions j ≡ some s
unfolding step
step-open w n req c j s h other small =
    dispatch-open j s req (record c { slots = w.others n c.slots }) h (w.env n) other small
