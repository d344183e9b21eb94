-- ===== src/Server/Atomic/Rules.antt =====
-- What the parts of the handlers of p11kit/p11kit.go do to the connection where they fail.
use go_p11_kit.Base.{ℕ, ◌≡◌, List, ◌<◌, ◌^◌, contains, true}
use go_p11_kit.Token.Env.{Env}
use go_p11_kit.Token.Object.{Object}
use go_p11_kit.Server.State.{Conn, Action, ◌>>=◌, write_session, close_session, new_session, pure}
use go_p11_kit.Server.Session.{Session, find_next}
use go_p11_kit.Server.Invariant.{
  Keeps, Inv, Keeps-close_session, Keeps-new_session, Keeps-write_session,
}
use go_p11_kit.Server.Handlers.NewKeys.{persist_if_token}
use go_p11_kit.Result.{ok}
use go_p11_kit.Server.Invariant.Handlers.{Inv-keeper}
use go_p11_kit.Server.Keeping.{slot_id-find_next}
use go_p11_kit.Server.Keeping.Requests.{persist_if_token-kept}
use go_p11_kit.Server.Atomic.{
  Atomic, Sure, Sure-ok, Sure-if, Sure-bind, Sure-Atomic, Atomic-if, Atomic-asks, Atomic-lift,
  Atomic-asks-bind, Atomic-lift-bind, Atomic-bind,
}
use go_p11_kit.Server.Atomic.Lookups.{
  Atomic-session, Atomic-slot, Atomic-close_session, Atomic-new_session, Sure-persist_object,
}

module _ (ids : List ℕ) where
  pub Sure-write_session : (id : ℕ) (s : Session) → Sure (Inv ids) (write_session id s)
  unfolding write_session
  Sure-write_session id s = Sure-ok (Inv ids) tt _

  pub Sure-pure : {A : Type 0} (a : A) → Sure (Inv ids) (pure a)
  Sure-pure a = Sure-ok (Inv ids) a _

  pub Atomic-pure : {A : Type 0} (a : A) → Atomic (Inv ids) (pure a)
  Atomic-pure a = Atomic-lift (Inv ids) (ok a)

  -- A session is written, and the answer follows.
  pub Atomic-write_session :
      {B : Type 0} (id : ℕ) (s : Session) (f : Unit {0} → Action B)
      → id < 2 ^ 64
      → contains ids s.slot_id ≡ true
      → ((u : Unit {0}) → Sure (Inv ids) (f u))
      → Atomic (Inv ids) (write_session id s >>= f)
  Atomic-write_session id s f small known sf = Sure-Atomic (Inv ids) _ (
      Sure-bind (Inv ids) (write_session id s) f (Keeps-write_session ids id s small known)
        (Sure-write_session id s) sf)

  pub Atomic-init_slot :
      {A : Type 0} (a : A) (g : Conn → Conn) → Atomic (Inv ids) (λ c. (ok a, g c))
  Atomic-init_slot a g = Sure-Atomic (Inv ids) _ (Sure-ok (Inv ids) a g)

  pub Sure-persist_if_token :
      (slot_id : ℕ) (o : Object)
      → contains ids slot_id ≡ true
      → Sure (Inv ids) (persist_if_token slot_id o)
  unfolding persist_if_token
  Sure-persist_if_token slot_id o known =
      Sure-if (Inv ids) _ _ _ (Sure-persist_object ids slot_id o known) (Sure-pure tt)

  pub Keeps-persist_if_token :
      (slot_id : ℕ) (o : Object) → Keeps (Inv ids) (persist_if_token slot_id o)
  Keeps-persist_if_token slot_id o = persist_if_token-kept (Inv-keeper ids) slot_id o

  module _ {B : Type 0} where
    pub Atomic-new_session_bind :
        (env : Env) (slot_id : ℕ) (f : ℕ → Action B)
        → ((id : ℕ) → Sure (Inv ids) (f id))
        → Atomic (Inv ids) (new_session env slot_id >>= f)
    Atomic-new_session_bind env slot_id f sf =
        Atomic-bind (Inv ids) (new_session env slot_id) f (Keeps-new_session ids env slot_id)
          (Atomic-new_session ids env slot_id) sf

    pub Atomic-close_session_bind :
        (id : ℕ) (f : Unit {0} → Action B)
        → ((u : Unit {0}) → Sure (Inv ids) (f u))
        → Atomic (Inv ids) (close_session id >>= f)
    Atomic-close_session_bind id f sf =
        Atomic-bind (Inv ids) (close_session id) f (Keeps-close_session ids id)
          (Atomic-close_session ids id) sf

    pub Sure-persist_if_token_bind :
        (slot_id : ℕ) (o : Object) (f : Unit {0} → Action B)
        → contains ids slot_id ≡ true
        → ((u : Unit {0}) → Sure (Inv ids) (f u))
        → Sure (Inv ids) (persist_if_token slot_id o >>= f)
    Sure-persist_if_token_bind slot_id o f known sf =
        Sure-bind (Inv ids) (persist_if_token slot_id o) f (Keeps-persist_if_token slot_id o)
          (Sure-persist_if_token slot_id o known) sf

  pub contains-find_next :
      (s : Session) (max : ℕ)
      → contains ids s.slot_id ≡ true
      → contains ids (find_next s max).1.slot_id ≡ true
  contains-find_next s max h = rw (slot_id-find_next s max) h

pub ruleset rules = (
  contains-find_next, Atomic-pure, Atomic-lift, Atomic-asks, Atomic-if, Atomic-lift-bind,
  Atomic-session, Atomic-slot, Atomic-write_session, Atomic-init_slot, Atomic-new_session_bind,
  Atomic-close_session_bind, Sure-pure, Sure-persist_if_token_bind, Atomic-asks-bind,
)
