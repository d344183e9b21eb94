-- ===== src/Server/Growth/Requests.antt =====
-- The requests of p11kit/p11kit.go and the slots.
use go_p11_kit.Base.{
  ℕ, ◌≡◌, refl, ap, sym, ◌∙◌, Bool, false, Option, none, some, List, if◌then◌else◌, Bool-cases, inl,
  inr,
}
use go_p11_kit.Result.{Error, ok, err, ckr, or_fail}
use go_p11_kit.Codes.Errors.{err_cryptoki_already_initialized}
use go_p11_kit.Wire.Buffer.{Bytes}
use go_p11_kit.Wire.Body.{Body, new_response}
use go_p11_kit.Wire.Body.Read.{request}
use go_p11_kit.Token.Object.{Object}
use go_p11_kit.Token.Env.{Env}
use go_p11_kit.Server.Slot.{Slot}
use go_p11_kit.Server.Session.{Session}
use go_p11_kit.Server.Requests.{init_token_request}
use go_p11_kit.Server.State.{
  Conn, Action, continue, ◌>>=◌, lift, find_slot, slot, update_slot, session, write_session,
  session_objects, add_session, new_session, close_session, persist_object,
}
use go_p11_kit.Server.Invariant.{Keeps, Keeps-lift, Keeps-asks, Keeps-bind}
use go_p11_kit.Server.Handlers.Info.{handle_init_token, init_slot}
use go_p11_kit.Server.Keeping.{Keeper}
use go_p11_kit.Server.Keeping.Requests.{dispatch-kept}
use go_p11_kit.Server.Loop.{dispatch}
use go_p11_kit.Server.Growth.{
  Grows, Grows-refl, Grows-trans, Grows-update, append-GrowsSlot, init_slot-GrowsSlot,
}

abbrev initialized_of : Option Slot → Bool
initialized_of none = false
initialized_of (some s) = s.initialized

module _ (base : List Slot) where
  -- The slots have grown from `base`.
  abbrev Grown : Conn → Type 0
  Grown c = Grows base c.slots

  Keeps-session :
      {B : Type 0} (id : ℕ) (f : Session → Action B)
      → ((s : Session) → Unit {0} → Unit {0} → Keeps Grown (f s))
      → Keeps Grown (session id >>= f)
  unfolding session
  Keeps-session id f kf = Keeps-bind Grown (session id) f (Keeps-asks Grown _) λ s. kf s tt tt

  Keeps-slot :
      {B : Type 0} (id : ℕ) (f : Slot → Action B)
      → ((s : Slot) → Keeps Grown (f s))
      → Keeps Grown (slot id >>= f)
  unfolding slot
  Keeps-slot id f kf = Keeps-bind Grown (slot id) f (Keeps-asks Grown _) kf

  Keeps-write_session : (id : ℕ) (s : Session) → Keeps Grown (write_session id s)
  unfolding write_session
  Keeps-write_session id s = record { at = λ c h. h }

  Keeps-close_session : (id : ℕ) → Keeps Grown (close_session id)
  unfolding close_session
  Keeps-close_session id = record { at = λ c h. h }

  Keeps-add_session :
      (slot_id : ℕ) (objects : List Object) → Keeps Grown (add_session slot_id objects)
  Keeps-add_session slot_id objects = record { at = λ c h. h }

  Keeps-new_session : (env : Env) (slot_id : ℕ) → Keeps Grown (new_session env slot_id)
  unfolding new_session
  Keeps-new_session env slot_id = Keeps-slot slot_id _ λ s.
      Keeps-bind Grown (lift (session_objects env s)) _ (Keeps-lift Grown _)
        λ objects. Keeps-add_session slot_id objects

  Keeps-persist_object : (id : ℕ) (o : Object) → Keeps Grown (persist_object id o)
  unfolding persist_object
  Keeps-persist_object id o = Keeps-slot id _ λ s. record {
    at = λ c h.
        Grows-trans base c.slots _ h (Grows-update c.slots id _ λ t found. append-GrowsSlot t o);
  }

  -- What is left of C_InitToken once the slot is looked up.
  init_found :
      (req : Body) (id : ℕ) (label : Bytes) (c : Conn) (o : Option Slot) (e : Error)
      → find_slot c.slots id ≡ o
      → Grown c
      → Grown
          (continue
            (or_fail o e)
            (λ s. if s.initialized then lift (err (ckr err_cryptoki_already_initialized)) else λ c.
              (
                ok (new_response req),
                record c { slots = update_slot id (init_slot label) c.slots },
              ))
            c).1
  init_found req id label c none e same h = h
  init_found req id label c (some s) e same h = elim (Bool-cases s.initialized) [
    | inl old ↦ rw old h
    | inr fresh ↦ rw fresh (
        Grows-trans base c.slots _ h (
          Grows-update c.slots id (init_slot label)
            λ t found. init_slot-GrowsSlot t label (ap initialized_of (sym found ∙ same) ∙ fresh)))
  ]

  Keeps-init_token : (req : Body) → Keeps Grown (handle_init_token req)
  unfolding handle_init_token slot
  Keeps-init_token req =
      Keeps-bind Grown (lift (request init_token_request req)) _ (Keeps-lift Grown _)
        λ r. record { at = λ c h. init_found req r.0 r.1 c (find_slot c.slots r.0) _ refl h }

  pub Growth-keeper : Keeper Grown (λ id. Unit {0}) (λ id objects. Unit {0})
  Growth-keeper = record {
    at_session = Keeps-session;
    at_slot = Keeps-slot;
    at_write_session = λ id s v k. Keeps-write_session id s;
    at_append = λ id objects more h. h;
    at_close_session = Keeps-close_session;
    at_new_session = Keeps-new_session;
    at_persist_object = Keeps-persist_object;
    at_init_token = Keeps-init_token;
  }

-- Whatever the request.
pub dispatch-Grows :
    (env : Env) (req : Body) (c : Conn) → Grows c.slots (dispatch env req c).1.slots
dispatch-Grows env req c = (dispatch-kept (Growth-keeper c.slots) env req).at c (Grows-refl c.slots)
