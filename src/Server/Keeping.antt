-- ===== src/Server/Keeping.antt =====
-- What an assertion on the state of p11kit/p11kit.go needs to outlast any request: rules for the few
-- actions that change the state or look a part of it up, from which those of the handlers follow.
pub mod Requests
use go_p11_kit.Base.{ℕ, ◌++◌, ◌≡◌, ◌==◌, List, [], ◌∷◌, All, ◌▸◌, arith}
use go_p11_kit.Wire.Body.{Body}
use go_p11_kit.Token.Env.{Env}
use go_p11_kit.Token.Object.{Object}
use go_p11_kit.Server.Slot.{Slot}
use go_p11_kit.Result.{err, ckr}
use go_p11_kit.Codes.Errors.{err_random_no_rng}
use go_p11_kit.Server.State.{
  Conn, Action, ◌>>=◌, lift, session, slot, write_session, close_session, new_session,
  persist_object,
}
use go_p11_kit.Server.Session.{Session, find, find_next}
use go_p11_kit.Server.Invariant.{Keeps, Keeps-pure, Keeps-lift, Keeps-asks, Keeps-if, Keeps-bind}
use go_p11_kit.Server.Handlers.Info.{
  handle_initialize, handle_get_info, handle_get_slot_list, handle_get_token_info,
  handle_get_slot_info, handle_get_mechanism_list, handle_get_mechanism_info, handle_init_token,
  handle_generate_random, handle_seed_random,
}
use go_p11_kit.Server.Handlers.Sessions.{
  handle_open_session, handle_close_session, handle_login, handle_logout, handle_get_session_info,
}
use go_p11_kit.Server.Handlers.Objects.{
  handle_find_objects_init, handle_find_objects, handle_find_objects_final,
  handle_get_attribute_value,
}
use go_p11_kit.Server.Handlers.Signing.{
  handle_sign_init, handle_sign, handle_sign_update, handle_sign_final,
}
use go_p11_kit.Server.Handlers.NewKeys.{
  handle_generate_key_pair, handle_derive_key, persist_if_token,
}
use go_p11_kit.Server.Loop.{handlers, find_handler, dispatch}

-- `valid` is what is known of the ID of a session that was found, and `fine` what is known of its slot ID
-- and its objects.
pub record Keeper (P : Conn → Type 0) (valid : ℕ → Type 0) (fine : ℕ → List Object → Type 0)
    : Type 1 where
  pub at_session :
      {B : Type 0} (id : ℕ) (f : Session → Action B)
      → ((s : Session) → valid id → fine s.slot_id s.objects → Keeps P (f s))
      → Keeps P (session id >>= f)
  pub at_slot :
      {B : Type 0} (id : ℕ) (f : Slot → Action B)
      → ((s : Slot) → Keeps P (f s))
      → Keeps P (slot id >>= f)
  pub at_write_session :
      (id : ℕ) (s : Session) → valid id → fine s.slot_id s.objects → Keeps P (write_session id s)
  pub at_append :
      (slot_id : ℕ) (objects more : List Object)
      → fine slot_id objects
      → fine slot_id (objects ++ more)
  pub at_close_session : (id : ℕ) → Keeps P (close_session id)
  pub at_new_session : (env : Env) (slot_id : ℕ) → Keeps P (new_session env slot_id)
  pub at_persist_object : (id : ℕ) (o : Object) → Keeps P (persist_object id o)
  pub at_init_token : (req : Body) → Keeps P (handle_init_token req)

pub slot_id-find_next : (s : Session) (max : ℕ) → (find_next s max).1.slot_id ≡ s.slot_id
unfolding find_next
slot_id-find_next s max = ground arith

objects-find_next : (s : Session) (max : ℕ) → (find_next s max).1.objects ≡ s.objects
unfolding find_next
objects-find_next s max = ground arith

module _ {P : Conn → Type 0} {valid : ℕ → Type 0} {fine : ℕ → List Object → Type 0}
    (k : Keeper P valid fine) where
  pub Keeps-session :
      {B : Type 0} (id : ℕ) (f : Session → Action B)
      → ((s : Session) → valid id → fine s.slot_id s.objects → Keeps P (f s))
      → Keeps P (session id >>= f)
  Keeps-session id f = k.at_session id f

  pub Keeps-slot :
      {B : Type 0} (id : ℕ) (f : Slot → Action B)
      → ((s : Slot) → Keeps P (f s))
      → Keeps P (slot id >>= f)
  Keeps-slot id f = k.at_slot id f

  pub Keeps-write_session :
      (id : ℕ) (s : Session) → valid id → fine s.slot_id s.objects → Keeps P (write_session id s)
  Keeps-write_session = k.at_write_session

  pub fine-append :
      (slot_id : ℕ) (objects more : List Object)
      → fine slot_id objects
      → fine slot_id (objects ++ more)
  fine-append = k.at_append

  pub Keeps-close_session : (id : ℕ) → Keeps P (close_session id)
  Keeps-close_session = k.at_close_session

  pub Keeps-new_session : (env : Env) (slot_id : ℕ) → Keeps P (new_session env slot_id)
  Keeps-new_session = k.at_new_session

  pub Keeps-persist_object : (id : ℕ) (o : Object) → Keeps P (persist_object id o)
  Keeps-persist_object = k.at_persist_object

pub fine-find_next :
    (fine : ℕ → List Object → Type 0) (s : Session) (max : ℕ)
    → fine s.slot_id s.objects
    → fine (find_next s max).1.slot_id (find_next s max).1.objects
fine-find_next fine s max h = rw (slot_id-find_next s max, objects-find_next s max) h

pub ruleset rules = (
  Keeps-pure, Keeps-lift, Keeps-asks, Keeps-if, Keeps-session, Keeps-slot, Keeps-write_session,
  Keeps-close_session, Keeps-new_session, Keeps-persist_object, Keeps-bind,
)
