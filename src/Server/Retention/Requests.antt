-- ===== src/Server/Retention/Requests.antt =====
-- The requests of p11kit/p11kit.go, and the objects of the slots in the sessions.
use go_p11_kit.Base.{ℕ, ◌≡◌, refl, Option, none, some, List, All}
use go_p11_kit.Result.{Error, Result, ok, err, or_fail}
use go_p11_kit.Wire.Body.{Body}
use go_p11_kit.Token.Object.{Object}
use go_p11_kit.Token.Env.{Env}
use go_p11_kit.Server.Slot.{Slot}
use go_p11_kit.Server.Session.{Session, open_session}
use go_p11_kit.Server.State.{
  Conn, Action, continue, ◌>>=◌, lift, find_slot, slot, find_session, session, put_session,
  write_session, next_session_id, session_objects, add_session, new_session, close_session,
  persist_object,
}
use go_p11_kit.Server.Invariant.{Keeps, Keeps-lift, Keeps-asks, Keeps-if, Keeps-bind}
use go_p11_kit.Server.Handlers.Info.{handle_init_token}
use go_p11_kit.Server.Keeping.{Keeper}
use go_p11_kit.Server.Growth.Requests.{Growth-keeper}
use go_p11_kit.Server.Retention.{
  All-find_session, All-delete_session, Retains, Retained, Retains-append, Retains-new,
}

-- The sessions have `Q`, which says nothing of the slots.
abbrev Each : (Session → Type 0) → Conn → Type 0
Each Q c = All (λ p. Q p.1) c.sessions

module _ (Q : Session → Type 0) where
  Keeps-slots :
      {A : Type 0} (a : A) (g : Conn → List Slot)
      → Keeps (Each Q) (λ c. (ok a, record c { slots = g c }))
  Keeps-slots a g = record { at = λ c h. h }

  Keeps-slot : (id : ℕ) → Keeps (Each Q) (slot id)
  unfolding slot
  Keeps-slot id = Keeps-asks (Each Q) _

  persist_object-Each : (id : ℕ) (o : Object) → Keeps (Each Q) (persist_object id o)
  unfolding persist_object
  persist_object-Each id o = Keeps-bind (Each Q) (slot id) _ (Keeps-slot id) λ t. Keeps-slots tt _

  init_token-Each : (req : Body) → Keeps (Each Q) (handle_init_token req)
  unfolding handle_init_token
  init_token-Each req = search (Keeps-lift, Keeps-if, Keeps-bind, Keeps-slot, Keeps-slots) depth 8

module _ (base : List Slot) where
  abbrev Q : Session → Type 0
  Q s = Retains base s.slot_id s.objects

  found_session :
      {B : Type 0} (f : Session → Action B) (c : Conn) (o : Option Session) (d : Error) (id : ℕ)
      → find_session c.sessions id ≡ o
      → Retained base c
      → ((s : Session) → Unit {0} → Retains base s.slot_id s.objects → Keeps (Retained base) (f s))
      → Retained base (continue (or_fail o d) f c).1
  found_session f c none d id e h kf = h
  found_session f c (some s) d id e h kf =
      (kf s tt
          (All-find_session (λ t. Retains base t.slot_id t.objects) c.sessions _ s h.sessions e)).at
        c h

  Keeps-session :
      {B : Type 0} (id : ℕ) (f : Session → Action B)
      → ((s : Session) → Unit {0} → Retains base s.slot_id s.objects → Keeps (Retained base) (f s))
      → Keeps (Retained base) (session id >>= f)
  unfolding session
  Keeps-session id f kf = record {
    at = λ c h. found_session f c (find_session c.sessions id) _ id refl h kf;
  }

  Keeps-find_slot :
      {B : Type 0} (id : ℕ) (f : Slot → Action B)
      → ((s : Slot) → Keeps (Retained base) (f s))
      → Keeps (Retained base) (slot id >>= f)
  unfolding slot
  Keeps-find_slot id f kf = Keeps-bind (Retained base) (slot id) f (Keeps-asks (Retained base) _) kf

  Keeps-write_session :
      (id : ℕ) (s : Session)
      → Retains base s.slot_id s.objects
      → Keeps (Retained base) (write_session id s)
  unfolding write_session put_session
  Keeps-write_session id s fine = record {
    at = λ c h. record {
      slots = h.slots;
      sessions = (fine, All-delete_session Q c.sessions id h.sessions);
    };
  }

  Keeps-close_session : (id : ℕ) → Keeps (Retained base) (close_session id)
  unfolding close_session
  Keeps-close_session id = record {
    at =
        λ c h. record { slots = h.slots; sessions = All-delete_session Q c.sessions id h.sessions };
  }

  opened :
      (slot_id : ℕ) (r : Result (List Object)) (c : Conn)
      → ((objects : List Object) → r ≡ ok objects → Retains base slot_id objects)
      → Retained base c
      → Retained base (continue r (add_session slot_id) c).1
  unfolding put_session open_session
  opened slot_id (err e) c fine h = h
  opened slot_id (ok objects) c fine h = record {
    slots = h.slots;
    sessions = (fine objects refl, All-delete_session Q c.sessions (next_session_id c) h.sessions);
  }

  new_found :
      (env : Env) (slot_id : ℕ) (c : Conn) (o : Option Slot) (d : Error)
      → find_slot c.slots slot_id ≡ o
      → Retained base c
      → Retained base
          (continue (or_fail o d) (λ s. lift (session_objects env s) >>= add_session slot_id) c).1
  new_found env slot_id c none d e h = h
  new_found env slot_id c (some t) d e h =
      opened slot_id (session_objects env t) c
        (λ objects. Retains-new base env c.slots slot_id t objects h.slots e) h

  Keeps-new_session : (env : Env) (slot_id : ℕ) → Keeps (Retained base) (new_session env slot_id)
  unfolding new_session slot
  Keeps-new_session env slot_id = record {
    at = λ c h. new_found env slot_id c (find_slot c.slots slot_id) _ refl h;
  }

  pub Retained-keeper : Keeper (Retained base) (λ id. Unit {0}) (Retains base)
  Retained-keeper = record {
    at_session = Keeps-session;
    at_slot = Keeps-find_slot;
    at_write_session = λ id s valid fine. Keeps-write_session id s fine;
    at_append = Retains-append base;
    at_close_session = Keeps-close_session;
    at_new_session = Keeps-new_session;
    at_persist_object = λ id o. record {
      at = λ c h. record {
        slots = ((Growth-keeper base).at_persist_object id o).at c h.slots;
        sessions = (persist_object-Each Q id o).at c h.sessions;
      };
    };
    at_init_token = λ req. record {
      at = λ c h. record {
        slots = ((Growth-keeper base).at_init_token req).at c h.slots;
        sessions = (init_token-Each Q req).at c h.sessions;
      };
    };
  }
