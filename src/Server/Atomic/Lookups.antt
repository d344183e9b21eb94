-- ===== src/Server/Atomic/Lookups.antt =====
-- The actions on sessions and slots of p11kit/p11kit.go that either succeed or change nothing.
use go_p11_kit.Base.{
  ℕ, ◌^◌, ◌<◌, ◌≡◌, refl, ap, true, false, Option, none, some, List, [], ◌∷◌, ◌==◌, contains, arith,
  Bool-cases, inl, inr, map,
}
use go_p11_kit.Result.{Error, err, or_fail, ok-ne-err}
use go_p11_kit.Token.Object.{Object}
use go_p11_kit.Token.Env.{Env}
use go_p11_kit.Server.Slot.{Slot}
use go_p11_kit.Server.Session.{Session}
use go_p11_kit.Server.State.{
  Sessions, Conn, Action, continue, ◌>>=◌, find_slot, slot, find_session, session, is_open,
  delete_session, session_objects, new_session, close_session, persist_object,
}
use go_p11_kit.Server.Invariant.{Inv, IsServed-find}
use go_p11_kit.Server.Atomic.{Atomic, Sure, Atomic-asks-bind, Atomic-lift-bind}

delete_session-absent :
    (sessions : Sessions) (id : ℕ)
    → is_open sessions id ≡ false
    → delete_session id sessions ≡ sessions
unfolding delete_session is_open find_session
delete_session-absent [] id h = refl
delete_session-absent ((j, s) ∷ sessions) id h = ground (arith, delete_session-absent sessions id)

contains-find_slot :
    (slots : List Slot) (id : ℕ)
    → contains (map (λ s. s.id) slots) id ≡ true
    → (s : Slot) × (find_slot slots id ≡ some s)
unfolding find_slot
contains-find_slot [] id h = absurd (cc)
contains-find_slot (s ∷ slots) id h = elim (Bool-cases (s.id == id)) [
  | inl e ↦ (s, rw e refl)
  | inr e ↦ let (t, found) = contains-find_slot slots id (ground arith) in (t, rw e found)
]

module _ (ids : List ℕ) where
  found :
      {B : Type 0} (f : Session → Action B) (c : Conn) (o : Option Session) (d : Error)
      → Inv ids c
      → ((s : Session) → o ≡ some s → Atomic (Inv ids) (f s))
      → (e : Error) → (continue (or_fail o d) f c).0 ≡ err e
      → (continue (or_fail o d) f c).1 ≡ c
  found f c none d h af = λ e fails. refl
  found f c (some s) d h af = (af s refl).at c h

  -- What follows a lookup may use that the session has a uint64 ID and belongs to a slot.
  pub Atomic-session :
      {B : Type 0} (id : ℕ) (f : Session → Action B)
      → ((s : Session) → id < 2 ^ 64 → contains ids s.slot_id ≡ true → Atomic (Inv ids) (f s))
      → Atomic (Inv ids) (session id >>= f)
  unfolding session
  Atomic-session id f af = record {
    at = λ c h. found f c (find_session c.sessions id) _ h λ s e.
        let (small, known) = IsServed-find ids c.sessions id s h.served e in af s small known;
  }

  pub Atomic-slot :
      {B : Type 0} (id : ℕ) (f : Slot → Action B)
      → ((s : Slot) → Atomic (Inv ids) (f s))
      → Atomic (Inv ids) (slot id >>= f)
  unfolding slot
  Atomic-slot id f af = Atomic-asks-bind (Inv ids) _ f af

  pub Atomic-close_session : (id : ℕ) → Atomic (Inv ids) (close_session id)
  unfolding close_session
  Atomic-close_session id = record {
    at = λ c h e fails. elim (Bool-cases (is_open c.sessions id)) [
      | inl here ↦ absurd (ok-ne-err tt e (rw here at fails))
      | inr absent ↦
          ap (λ (ss : Sessions). record c { sessions = ss })
            (delete_session-absent c.sessions id absent)
    ];
  }

  pub Atomic-new_session : (env : Env) (slot_id : ℕ) → Atomic (Inv ids) (new_session env slot_id)
  unfolding new_session
  Atomic-new_session env slot_id = Atomic-slot slot_id _ λ s.
      Atomic-lift-bind (Inv ids) (session_objects env s) _
        λ objects. record { at = λ c h e fails. absurd (ok-ne-err _ e fails) }

  -- A slot that is known is found.
  pub Sure-persist_object :
      (id : ℕ) (o : Object) → contains ids id ≡ true → Sure (Inv ids) (persist_object id o)
  unfolding persist_object slot
  Sure-persist_object id o known = record {
    at = λ c h. let (s, e) = contains-find_slot c.slots id (rw h.slot_ids known) in rw e (tt, refl);
  }
