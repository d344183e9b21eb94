-- ===== src/Server/State.antt =====
-- The `Handler` and the `handler` of p11kit/p11kit.go: the slots, which the connections share, and
-- the sessions of one connection.
pub mod FreeId
pub mod Sessions
use go_p11_kit.Base.{
  ℕ, zero, suc, ◌+◌, ◌%◌, ◌^◌, Bool, true, false, Option, none, some, List, [], ◌∷◌, ◌++◌, ◌==◌,
  if◌then◌else◌, length,
}
use go_p11_kit.Codes.Errors.{err_slot_id_invalid, err_session_handle_invalid}
use go_p11_kit.Result.{Error, Result, ok, err, ckr, or_fail}
use go_p11_kit.Wire.Buffer.{Bytes}
use go_p11_kit.Wire.Body.Write.{Version}
use go_p11_kit.Token.Object.{Object}
use go_p11_kit.Token.Env.{Env}
use go_p11_kit.Server.Slot.{Slot}
use go_p11_kit.Server.Session.{Session, open_session}

-- The map of the sessions, each under its ID.
abbrev pub Sessions : Type 0
Sessions = List (ℕ × Session)

pub record Conn : Type 0 where
  pub manufacturer : Bytes
  pub library : Bytes
  pub library_version : Version
  pub slots : List Slot
  pub last_session_id : ℕ
  pub sessions : Sessions

-- A method of the handler returns its result and the state that it leaves, also with an error.
abbrev pub Action : Type 0 → Type 0
Action A = Conn → Result A × Conn

abbrev pub continue : {A B : Type 0} → Result A → (A → Action B) → Action B
continue (ok a) f c = f a c
continue (err e) f c = (err e, c)

infixl 5 ◌>>=◌ ◌>>◌
abbrev pub ◌>>=◌ : {A B : Type 0} → Action A → (A → Action B) → Action B
◌>>=◌ m f c = continue (m c).0 f (m c).1

abbrev pub ◌>>◌ : {A B : Type 0} → Action A → Action B → Action B
m >> k = m >>= λ _. k

abbrev pub pure : {A : Type 0} → A → Action A
pure a c = (ok a, c)

abbrev pub lift : {A : Type 0} → Result A → Action A
lift r c = (r, c)

-- `h.slot(id)`
unfoldable pub find_slot : List Slot → ℕ → Option Slot
find_slot [] id = none
find_slot (s ∷ slots) id = if s.id == id then some s else find_slot slots id

unfoldable pub slot : ℕ → Action Slot
unfolding find_slot
slot id c = (or_fail (find_slot c.slots id) (ckr err_slot_id_invalid), c)

-- A write through the pointer that `h.slot(id)` returned.
unfoldable pub update_slot : ℕ → (Slot → Slot) → List Slot → List Slot
update_slot id f [] = []
update_slot id f (s ∷ slots) = if s.id == id then f s ∷ slots else s ∷ update_slot id f slots

unfoldable pub find_session : Sessions → ℕ → Option Session
find_session [] id = none
find_session ((j, s) ∷ sessions) id = if j == id then some s else find_session sessions id

-- `h.session(id)`
unfoldable pub session : ℕ → Action Session
unfolding find_session
session id c = (or_fail (find_session c.sessions id) (ckr err_session_handle_invalid), c)

unfoldable pub delete_session : ℕ → Sessions → Sessions
delete_session id [] = []
delete_session id ((j, s) ∷ sessions) =
    let rest = delete_session id sessions in if j == id then rest else (j, s) ∷ rest

-- `h.sessions[id] = s`
unfoldable pub put_session : ℕ → Session → Sessions → Sessions
unfolding delete_session
put_session id s sessions = (id, s) ∷ delete_session id sessions

-- A write through the pointer that `h.session(id)` returned.
unfoldable pub write_session : ℕ → Session → Action (Unit {0})
unfolding put_session
write_session id s c = (ok tt, record c { sessions = put_session id s c.sessions })

-- `_, ok := h.sessions[id]`
abbrev pub is_present : Option Session → Bool
is_present none = false
is_present (some s) = true

unfoldable pub is_open : Sessions → ℕ → Bool
unfolding find_session
is_open sessions id = is_present (find_session sessions id)

-- The loop of `newSession`, on fuel: a uint64 that is no session's ID.
unfoldable pub free_id : ℕ → (ℕ → Bool) → ℕ → ℕ
free_id zero used id = id
free_id (suc fuel) used id =
    let later = free_id fuel used ((id + 1) % 2 ^ 64) in if used id then later else id

-- Of as many IDs as there are sessions and one more, one is free.
unfoldable pub next_session_id : Conn → ℕ
unfolding free_id is_open
next_session_id c =
    free_id (suc (length c.sessions)) (is_open c.sessions) ((c.last_session_id + 1) % 2 ^ 64)

-- The objects of a new session: the slot's, or what its callback returns.
abbrev pub session_objects : Env → Slot → Result (List Object)
session_objects env s = if s.has_get_objects then env.get_objects s.id else ok s.objects

abbrev pub add_session : ℕ → List Object → Action ℕ
add_session slot_id objects c =
    let id = next_session_id c in
    (
      ok id,
      record c {
        last_session_id = id;
        sessions = put_session id (open_session objects slot_id) c.sessions;
      },
    )

unfoldable pub new_session : Env → ℕ → Action ℕ
unfolding slot next_session_id put_session open_session
new_session env slot_id = do
  s ← slot slot_id
  objects ← lift (session_objects env s)
  add_session slot_id objects

unfoldable pub close_session : ℕ → Action (Unit {0})
unfolding is_open delete_session
close_session id c = (
  if is_open c.sessions id then ok tt else err (ckr err_session_handle_invalid),
  record c { sessions = delete_session id c.sessions },
)

-- `persistObject`
unfoldable pub persist_object : ℕ → Object → Action (Unit {0})
unfolding slot update_slot
persist_object slot_id o = do
  slot slot_id
  λ c. (
    ok tt,
    record c {
      slots = update_slot slot_id (λ s. record s { objects = s.objects ++ o ∷ [] }) c.slots;
    },
  )
