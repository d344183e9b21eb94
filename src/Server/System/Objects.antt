-- ===== src/Server/System/Objects.antt =====
-- Looking up objects in the sessions of several connections to one `Handler` of p11kit/p11kit.go.
use go_p11_kit.Base.{ℕ, ◌≡◌, ap, sym, ◌∙◌, false, some, List, [], ◌∷◌, ◌++◌, All, All-append, arith}
use go_p11_kit.Result.{ok}
use go_p11_kit.Token.Object.{Object}
use go_p11_kit.Server.Slot.{Slot}
use go_p11_kit.Server.Session.{Session, find_object, session_object}
use go_p11_kit.Server.State.{Conn, find_slot, find_session}
use go_p11_kit.Server.Growth.{Grows, Grows-refl}
use go_p11_kit.Server.Retention.{All-find_session, Retains}
use go_p11_kit.Server.Retention.Requests.{Retained-keeper}
use go_p11_kit.Server.Keeping.Requests.{dispatch-kept}
use go_p11_kit.Server.System.{
  System, connect, view, handled, Move, accept, request, close, Reach, here, next, All-split,
}

-- The slots have grown from `base`, and every session of every connection retains what they had then.
record Kept (base : List Slot) (s : System) : Type 0 where
  grown : Grows base s.slots
  each : All (λ c. All (λ p. Retains base p.1.slot_id p.1.objects) c.sessions) s.connections

module _ (base : List Slot) where
  abbrev Q : Conn → Type 0
  Q c = All (λ p. Retains base p.1.slot_id p.1.objects) c.sessions

  Move-Kept : {s t : System} → Move s t → Kept base s → Kept base t
  unfolding handled connect
  Move-Kept (accept s) h = record { grown = h.grown; each = (tt, h.each) }
  Move-Kept (request s front back c env req e) h =
      let (fs, (own, bs)) = All-split Q front back c (rw e at h.each) in
      let kept =
        (dispatch-kept (Retained-keeper base) env req).at (view s.slots c)
          (record { slots = h.grown; sessions = own }) in
      record { grown = kept.slots; each = All-append Q front _ fs (kept.sessions, bs) }
  Move-Kept (close s front back c e) h =
      let (fs, (own, bs)) = All-split Q front back c (rw e at h.each) in
      record { grown = h.grown; each = All-append Q front back fs bs }

  Reach-Kept : {s t : System} → Reach s t → Kept base s → Kept base t
  Reach-Kept here h = h
  Reach-Kept (next r m) h = Move-Kept m (Reach-Kept r h)

find_object-append :
    (front back : List Object) (id : ℕ) (o : Object)
    → find_object front id ≡ ok o
    → find_object (front ++ back) id ≡ ok o
unfolding find_object
find_object-append [] back id o h = cc
find_object-append (x ∷ front) back id o h = ground (arith, find_object-append front back id o)

-- An object that a slot had before the first connection is found under its ID in every session on that
-- slot, with the same attributes and the same key, however the requests of any number of connections
-- follow one another, provided that the slot has no callback for its objects.
pub Reach-session_object :
    {s t : System}
    → Reach s t
    → s.connections ≡ []
    → (front back : List Conn) (c : Conn) → t.connections ≡ front ++ c ∷ back
    → (session_id : ℕ) (d : Session) → find_session c.sessions session_id ≡ some d
    → (v : Slot) → find_slot s.slots d.slot_id ≡ some v
    → v.has_get_objects ≡ false
    → (id : ℕ) (o : Object) → find_object v.objects id ≡ ok o
    → session_object d id ≡ ok o
unfolding session_object
Reach-session_object {s} {t} r alone front back c among session_id d opened v found plain id o
      held =
    let kept = Reach-Kept s.slots r (record { grown = Grows-refl s.slots; each = rw alone tt }) in
    let (fs, (own, bs)) = All-split (Q s.slots) front back c (rw among at kept.each) in
    let (more, same) =
      All-find_session (λ x. Retains s.slots x.slot_id x.objects) c.sessions session_id d own opened
        v found plain in
    ap (λ os. find_object os id) (sym same) ∙ find_object-append v.objects more id o held
