-- ===== src/Server/Invariant.antt =====
-- An invariant of the connection of p11kit/p11kit.go, and the rules by which actions keep it.
pub mod Handlers
pub mod Loop
use go_p11_kit.Base.{
  ℕ, zero, suc, ◌+◌, ◌%◌, ◌^◌, ◌<◌, ◌≡◌, refl, ap, sym, ◌∙◌, Bool, true, false, Option, none, some,
  List, [], ◌∷◌, ◌==◌, if◌then◌else◌, length, map, contains, All, arith,
}
use go_p11_kit.Result.{Result, ok, err, Error, or_fail}
use go_p11_kit.Token.Object.{Object}
use go_p11_kit.Token.Env.{Env}
use go_p11_kit.Server.Slot.{Slot}
use go_p11_kit.Server.Session.{Session, open_session}
use go_p11_kit.Server.State.FreeId.{is_open-delete_session, free_id-lt}
use go_p11_kit.Server.State.{
  Sessions, Conn, Action, continue, ◌>>=◌, ◌>>◌, pure, lift, find_slot, slot, update_slot,
  find_session, session, is_open, delete_session, put_session, write_session, free_id,
  next_session_id, session_objects, add_session, new_session, close_session, persist_object,
}

-- No two sessions have one ID.
abbrev pub Distinct : Sessions → Type 0
Distinct [] = Unit {0}
Distinct ((id, s) ∷ sessions) = (is_open sessions id ≡ false) × Distinct sessions

-- The sessions have uint64 IDs, and each belongs to one of the slots.
abbrev pub IsServed : List ℕ → Sessions → Type 0
IsServed ids = All (λ p. (p.0 < 2 ^ 64) × (contains ids p.1.slot_id ≡ true))

-- `ids` are the IDs of the slots.
pub record Inv (ids : List ℕ) (c : Conn) : Type 0 where
  pub slot_ids : map (λ s. s.id) c.slots ≡ ids
  pub last : c.last_session_id < 2 ^ 64
  pub served : IsServed ids c.sessions
  pub distinct : Distinct c.sessions

-- `m` keeps `P`, whether it succeeds or fails.
pub record Keeps {A : Type 0} (P : Conn → Type 0) (m : Action A) : Type 0 where
  pub at : (c : Conn) → P c → P (m c).1

module _ {A : Type 0} (P : Conn → Type 0) where
  pub Keeps-pure : (a : A) → Keeps P (pure a)
  Keeps-pure a = record { at = λ c h. h }

  pub Keeps-lift : (r : Result A) → Keeps P (lift r)
  Keeps-lift r = record { at = λ c h. h }

  -- An answer that depends on the state.
  pub Keeps-asks : (f : Conn → Result A) → Keeps P (λ c. (f c, c))
  Keeps-asks f = record { at = λ c h. h }

  pub Keeps-if : (b : Bool) (m n : Action A) → Keeps P m → Keeps P n → Keeps P (if b then m else n)
  Keeps-if true m n km kn = km
  Keeps-if false m n km kn = kn

module _ {A B : Type 0} (P : Conn → Type 0) where
  Keeps-continue :
      (r : Result A) (f : A → Action B)
      → ((a : A) → Keeps P (f a))
      → (c : Conn) → P c
      → P (continue r f c).1
  Keeps-continue (ok a) f kf c h = (kf a).at c h
  Keeps-continue (err e) f kf c h = h

  pub Keeps-bind :
      (m : Action A) (f : A → Action B) → Keeps P m → ((a : A) → Keeps P (f a)) → Keeps P (m >>= f)
  Keeps-bind m f km kf = record { at = λ c h. Keeps-continue (m c).0 f kf (m c).1 (km.at c h) }

Distinct-delete :
    (sessions : Sessions) (id : ℕ) → Distinct sessions → Distinct (delete_session id sessions)
unfolding delete_session
Distinct-delete [] id h = h
Distinct-delete ((j, t) ∷ sessions) id h =
    ground (arith, Distinct-delete sessions id h.1, is_open-delete_session id j sessions)

Distinct-put :
    (sessions : Sessions) (id : ℕ) (s : Session)
    → Distinct sessions
    → Distinct (put_session id s sessions)
unfolding put_session
Distinct-put sessions id s h =
    (ground (arith, is_open-delete_session id id sessions), Distinct-delete sessions id h)

slot_ids-update :
    (slots : List Slot) (id : ℕ) (f : Slot → Slot)
    → ((s : Slot) → (f s).id ≡ s.id)
    → map (λ s. s.id) (update_slot id f slots) ≡ map (λ s. s.id) slots
unfolding update_slot
slot_ids-update [] id f same = refl
slot_ids-update (s ∷ slots) id f same = ground (arith, same s, slot_ids-update slots id f same)

find_slot-contains :
    (slots : List Slot) (id : ℕ) (s : Slot)
    → find_slot slots id ≡ some s
    → contains (map (λ s. s.id) slots) id ≡ true
unfolding find_slot
find_slot-contains [] id s e = cc
find_slot-contains (t ∷ slots) id s e = ground (arith, find_slot-contains slots id s)

module _ (ids : List ℕ) where
  pub IsServed-find :
      (sessions : Sessions) (id : ℕ) (s : Session)
      → IsServed ids sessions
      → find_session sessions id ≡ some s
      → (id < 2 ^ 64) × (contains ids s.slot_id ≡ true)
  unfolding find_session
  IsServed-find [] id s h e = cc
  IsServed-find ((j, t) ∷ sessions) id s h e = ground (arith, IsServed-find sessions id s h.1)

  IsServed-delete :
      (sessions : Sessions) (id : ℕ)
      → IsServed ids sessions
      → IsServed ids (delete_session id sessions)
  unfolding delete_session
  IsServed-delete [] id h = h
  IsServed-delete ((j, t) ∷ sessions) id h = ground (arith, IsServed-delete sessions id h.1)

  -- A session that is written under its ID belongs to a slot still.
  pub Keeps-write_session :
      (id : ℕ) (s : Session)
      → id < 2 ^ 64
      → contains ids s.slot_id ≡ true
      → Keeps (Inv ids) (write_session id s)
  unfolding write_session
  Keeps-write_session id s small known = record {
    at = λ c h. record {
      slot_ids = h.slot_ids;
      last = h.last;
      served = unfold put_session in ((small, known), IsServed-delete c.sessions id h.served);
      distinct = Distinct-put c.sessions id s h.distinct;
    };
  }

  found_session :
      {B : Type 0} (f : Session → Action B) (c : Conn) (o : Option Session) (e : Error)
      → Inv ids c
      → ((s : Session) → o ≡ some s → Keeps (Inv ids) (f s))
      → Inv ids (continue (or_fail o e) f c).1
  found_session f c none e h kf = h
  found_session f c (some s) e h kf = (kf s refl).at c h

  -- What follows a lookup may use that the session has a uint64 ID and belongs to a slot.
  pub Keeps-session :
      {B : Type 0} (id : ℕ) (f : Session → Action B)
      → ((s : Session) → id < 2 ^ 64 → contains ids s.slot_id ≡ true → Keeps (Inv ids) (f s))
      → Keeps (Inv ids) (session id >>= f)
  unfolding session
  Keeps-session id f kf = record {
    at = λ c h.
        found_session f c (find_session c.sessions id) _ h
          λ s e. let (small, known) = IsServed-find c.sessions id s h.served e in kf s small known;
  }

  found_slot :
      {B : Type 0} (f : Slot → Action B) (c : Conn) (o : Option Slot) (e : Error)
      → Inv ids c
      → ((s : Slot) → o ≡ some s → Keeps (Inv ids) (f s))
      → Inv ids (continue (or_fail o e) f c).1
  found_slot f c none e h kf = h
  found_slot f c (some s) e h kf = (kf s refl).at c h

  -- What follows may use that the ID is that of a slot.
  pub Keeps-slot :
      {B : Type 0} (id : ℕ) (f : Slot → Action B)
      → ((s : Slot) → contains ids id ≡ true → Keeps (Inv ids) (f s))
      → Keeps (Inv ids) (slot id >>= f)
  unfolding slot
  Keeps-slot id f kf = record {
    at = λ c h.
        found_slot f c (find_slot c.slots id) _ h
          λ s e. kf s (rw h.slot_ids at (find_slot-contains c.slots id s e));
  }

  pub Keeps-update_slot :
      {A : Type 0} (a : A) (id : ℕ) (f : Slot → Slot)
      → ((s : Slot) → (f s).id ≡ s.id)
      → Keeps (Inv ids) (λ c. (ok a, record c { slots = update_slot id f c.slots }))
  Keeps-update_slot a id f same = record {
    at = λ c h. record {
      slot_ids = slot_ids-update c.slots id f same ∙ h.slot_ids;
      last = h.last;
      served = h.served;
      distinct = h.distinct;
    };
  }

  pub Keeps-close_session : (id : ℕ) → Keeps (Inv ids) (close_session id)
  unfolding close_session
  Keeps-close_session id = record {
    at = λ c h. record {
      slot_ids = h.slot_ids;
      last = h.last;
      served = IsServed-delete c.sessions id h.served;
      distinct = Distinct-delete c.sessions id h.distinct;
    };
  }

  next_session_id-lt : (c : Conn) → next_session_id c < 2 ^ 64
  unfolding next_session_id
  next_session_id-lt c =
      free_id-lt (suc (length c.sessions)) (is_open c.sessions) ((c.last_session_id + 1) % 2 ^ 64)
        (omega arith)

  Keeps-add_session :
      (slot_id : ℕ) (objects : List Object)
      → contains ids slot_id ≡ true
      → Keeps (Inv ids) (add_session slot_id objects)
  unfolding open_session
  Keeps-add_session slot_id objects known = record {
    at = λ c h. record {
      slot_ids = h.slot_ids;
      last = next_session_id-lt c;
      served =
          unfold put_session in
          ((next_session_id-lt c, known), IsServed-delete c.sessions (next_session_id c) h.served);
      distinct = Distinct-put c.sessions (next_session_id c) _ h.distinct;
    };
  }

  pub Keeps-new_session : (env : Env) (slot_id : ℕ) → Keeps (Inv ids) (new_session env slot_id)
  unfolding new_session
  Keeps-new_session env slot_id = Keeps-slot slot_id _ λ s known.
      Keeps-bind (Inv ids) (lift (session_objects env s)) _ (Keeps-lift (Inv ids) _)
        λ objects. Keeps-add_session slot_id objects known

  pub Keeps-persist_object : (id : ℕ) (o : Object) → Keeps (Inv ids) (persist_object id o)
  unfolding persist_object
  Keeps-persist_object id o = Keeps-slot id _ λ s known. Keeps-update_slot tt id _ (λ s. refl)
