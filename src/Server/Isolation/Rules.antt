-- ===== src/Server/Isolation/Rules.antt =====
-- Rules for actions on the state of p11kit/p11kit.go that leave an open session alone.
use go_p11_kit.Base.{ℕ, ◌-◌, ◌^◌, ◌<◌, ◌≡◌, ◌≢◌, refl, ap, false, some, List, length, arith}
use go_p11_kit.Codes.Errors.{err_slot_id_invalid}
use go_p11_kit.Result.{Result, ok, err, or_fail, ckr}
use go_p11_kit.Token.Env.{Env}
use go_p11_kit.Token.Object.{Object}
use go_p11_kit.Server.Slot.{Slot}
use go_p11_kit.Server.Session.{Session, open_session}
use go_p11_kit.Server.State.{
  Conn, Action, continue, ◌>>=◌, lift, slot, find_slot, find_session, session, write_session,
  new_session, close_session, persist_object, is_open, is_present, session_objects, add_session,
  next_session_id,
}
use go_p11_kit.Server.State.Sessions.{
  find_session-delete_session, find_session-put_session, next_session_id-is_free,
}
use go_p11_kit.Server.Invariant.{Keeps, Keeps-asks, Keeps-bind}

-- The session `s` is open under the ID `j`.
abbrev pub IsOpenAs : ℕ → Session → Conn → Type 0
IsOpenAs j s c = find_session c.sessions j ≡ some s

module _ (j : ℕ) (s : Session) where
  pub Keeps-request :
      {A B : Type 0} (r : Result A) (f : A → Action B)
      → ((a : A) → r ≡ ok a → Keeps (IsOpenAs j s) (f a))
      → Keeps (IsOpenAs j s) (lift r >>= f)
  Keeps-request (ok a) f kf = record { at = λ c h. (kf a refl).at c h }
  Keeps-request (err e) f kf = record { at = λ c h. h }

  pub Keeps-session : (id : ℕ) → Keeps (IsOpenAs j s) (session id)
  unfolding session
  Keeps-session id = Keeps-asks (IsOpenAs j s) _

  pub Keeps-slot : (id : ℕ) → Keeps (IsOpenAs j s) (slot id)
  unfolding slot
  Keeps-slot id = Keeps-asks (IsOpenAs j s) _

  pub Keeps-slots :
      {A : Type 0} (a : A) (g : Conn → List Slot)
      → Keeps (IsOpenAs j s) (λ c. (ok a, record c { slots = g c }))
  Keeps-slots a g = record { at = λ c h. h }

  pub Keeps-persist_object : (id : ℕ) (o : Object) → Keeps (IsOpenAs j s) (persist_object id o)
  unfolding persist_object
  Keeps-persist_object id o =
      Keeps-bind (IsOpenAs j s) (slot id) _ (Keeps-slot id) λ t. Keeps-slots tt _

  pub Keeps-write_session :
      (id : ℕ) (t : Session) → id ≢ j → Keeps (IsOpenAs j s) (write_session id t)
  unfolding write_session
  Keeps-write_session id t other = record {
    at = λ c h. ground (arith, find_session-put_session id j t c.sessions);
  }

  pub Keeps-close_session : (id : ℕ) → id ≢ j → Keeps (IsOpenAs j s) (close_session id)
  unfolding close_session
  Keeps-close_session id other = record {
    at = λ c h. ground (arith, find_session-delete_session id j c.sessions);
  }

  pub continue-open :
      {A B : Type 0} (r : Result A) (f : A → Action B) (c : Conn)
      → IsOpenAs j s c
      → ((a : A) → IsOpenAs j s (f a c).1)
      → IsOpenAs j s (continue r f c).1
  continue-open (ok a) f c h k = k a
  continue-open (err e) f c h k = h

  free-other : (c : Conn) (id : ℕ) → IsOpenAs j s c → is_open c.sessions id ≡ false → id ≢ j
  unfolding is_open
  free-other c id h free e =
      cc (ap is_present h, free, ap (λ i. is_present (find_session c.sessions i)) e)

  add_session-open :
      (slot_id : ℕ) (objects : List Object) (c : Conn)
      → length c.sessions < 2 ^ 64 - 1
      → IsOpenAs j s c
      → IsOpenAs j s (add_session slot_id objects c).1
  add_session-open slot_id objects c small h = ground (
    arith,
    find_session-put_session (next_session_id c) j (open_session objects slot_id) c.sessions,
    free-other c (next_session_id c) h (next_session_id-is_free c small),
  )

  pub new_session-open :
      (env : Env) (slot_id : ℕ) (c : Conn)
      → length c.sessions < 2 ^ 64 - 1
      → IsOpenAs j s c
      → IsOpenAs j s (new_session env slot_id c).1
  unfolding new_session slot
  new_session-open env slot_id c small h =
      continue-open (or_fail (find_slot c.slots slot_id) (ckr err_slot_id_invalid))
        (λ t. lift (session_objects env t) >>= add_session slot_id) c h
        λ t.
          continue-open (session_objects env t) (add_session slot_id) c h
            λ objects. add_session-open slot_id objects c small h
