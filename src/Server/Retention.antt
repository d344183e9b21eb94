-- ===== src/Server/Retention.antt =====
-- The objects of the slots of p11kit/p11kit.go, in the sessions that are opened on them.
pub mod Requests
use go_p11_kit.Result.{ok-injective, Error, Result, ok, err, ckr, or_fail}
use go_p11_kit.Base.{
  some-injective, ℕ, ◌≡◌, refl, ap, subst, sym, ◌∙◌, Bool, true, false, Option, none, some, List,
  [], ◌∷◌, ◌++◌, ◌==◌, if◌then◌else◌, arith, append_assoc, Bool-cases, inl, inr, All,
}
use go_p11_kit.Codes.Errors.{err_slot_id_invalid, err_session_handle_invalid}
use go_p11_kit.Wire.Body.{Body}
use go_p11_kit.Token.Object.{Object}
use go_p11_kit.Token.Env.{Env}
use go_p11_kit.Server.Slot.{Slot}
use go_p11_kit.Server.Session.{Session, open_session}
use go_p11_kit.Server.State.{
  Sessions, Conn, Action, continue, ◌>>=◌, lift, find_slot, slot, find_session, session,
  delete_session, put_session, write_session, next_session_id, session_objects, add_session,
  new_session, close_session, persist_object,
}
use go_p11_kit.Server.Invariant.{Keeps, Keeps-lift, Keeps-asks, Keeps-if, Keeps-bind}
use go_p11_kit.Server.Handlers.Info.{handle_init_token}
use go_p11_kit.Server.Keeping.{Keeper}
use go_p11_kit.Server.Keeping.Requests.{dispatch-kept}
use go_p11_kit.Server.Growth.{GrowsSlot, Grows}
use go_p11_kit.Server.Growth.Requests.{Growth-keeper}
use go_p11_kit.Server.Loop.{dispatch}

pub All-find_session :
    (Q : Session → Type 0) (sessions : Sessions) (id : ℕ) (s : Session)
    → All (λ p. Q p.1) sessions
    → find_session sessions id ≡ some s
    → Q s
unfolding find_session
All-find_session Q [] id s h e = cc
All-find_session Q ((j, t) ∷ sessions) id s h e = elim (Bool-cases (j == id)) [
  | inl same ↦ subst Q (some-injective (rw same at e)) h.0
  | inr differs ↦ All-find_session Q sessions id s h.1 (rw differs at e)
]

pub All-delete_session :
    (Q : Session → Type 0) (sessions : Sessions) (id : ℕ)
    → All (λ p. Q p.1) sessions
    → All (λ p. Q p.1) (delete_session id sessions)
unfolding delete_session
All-delete_session Q [] id h = h
All-delete_session Q ((j, t) ∷ sessions) id h = ground (arith, All-delete_session Q sessions id h.1)

GrowsSlot-id : (s t : Slot) → GrowsSlot s t → t.id ≡ s.id
GrowsSlot-id s t g = ap (λ (v : Slot). v.id) g.fixed

-- A slot that is found under an ID grows into the one that is found under it later.
find_slot-Grows :
    (ss ts : List Slot) (id : ℕ) (v t : Slot)
    → Grows ss ts
    → find_slot ss id ≡ some v
    → find_slot ts id ≡ some t
    → GrowsSlot v t
unfolding find_slot
find_slot-Grows [] ts id v t g e f = cc
find_slot-Grows (s ∷ ss) [] id v t g e f = absurd g
find_slot-Grows (s ∷ ss) (u ∷ us) id v t g e f = elim (Bool-cases (s.id == id)) [
  | inl same ↦
      subst (λ x. GrowsSlot x t) (some-injective (rw same at e))
        (subst (GrowsSlot s)
          (some-injective (rw (ap (λ i. i == id) (GrowsSlot-id s u g.0) ∙ same) at f)) g.0)
  | inr differs ↦
      find_slot-Grows ss us id v t g.1 (rw differs at e)
        (rw (ap (λ i. i == id) (GrowsSlot-id s u g.0) ∙ differs) at f)
]

-- `objects` begins with the objects that the slot had in `base`, if the slot has no callback for them.
abbrev pub Retains : List Slot → ℕ → List Object → Type 0
Retains base slot_id objects =
    (v : Slot)
    → find_slot base slot_id ≡ some v
    → v.has_get_objects ≡ false
    → (more : List Object) × (v.objects ++ more ≡ objects)

-- The slots have grown from `base`, and the sessions retain what the slots had then.
pub record Retained (base : List Slot) (c : Conn) : Type 0 where
  pub slots : Grows base c.slots
  pub sessions : All (λ p. Retains base p.1.slot_id p.1.objects) c.sessions

module _ (base : List Slot) where
  pub Retains-append :
      (slot_id : ℕ) (objects more : List Object)
      → Retains base slot_id objects
      → Retains base slot_id (objects ++ more)
  Retains-append slot_id objects more h v e plain =
      let (own, same) = h v e plain in
      (own ++ more, sym (append_assoc v.objects own more) ∙ ap (λ os. os ++ more) same)

  -- What a new session gets.
  pub Retains-new :
      (env : Env) (slots : List Slot) (slot_id : ℕ) (t : Slot) (objects : List Object)
      → Grows base slots
      → find_slot slots slot_id ≡ some t
      → session_objects env t ≡ ok objects
      → Retains base slot_id objects
  Retains-new env slots slot_id t objects g found given v e plain =
      let grown = find_slot-Grows base slots slot_id v t g e found in
      (
        grown.added,
        grown.objects
            ∙ ok-injective (rw (ap (λ (x : Slot). x.has_get_objects) grown.fixed ∙ plain) at given),
      )
