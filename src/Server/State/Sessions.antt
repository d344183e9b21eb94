-- ===== src/Server/State/Sessions.antt =====
-- `newSession` and `closeSession` of p11kit/p11kit.go, by what they do to the map of sessions.
use go_p11_kit.Base.{
  ℕ, suc, ◌+◌, ◌-◌, ◌%◌, ◌^◌, ◌<◌, ◌≡◌, refl, ap, ◌∙◌, false, Option, none, some, List, [], ◌∷◌,
  ◌==◌, if◌then◌else◌, length, arith,
}
use go_p11_kit.Codes.Errors.{err_session_handle_invalid, err_slot_id_invalid}
use go_p11_kit.Result.{Result, ok, err, ckr, or_fail}
use go_p11_kit.Token.Object.{Object}
use go_p11_kit.Token.Env.{Env}
use go_p11_kit.Server.Slot.{Slot}
use go_p11_kit.Server.Session.{Session, open_session}
use go_p11_kit.Server.State.{
  Sessions, Conn, Action, continue, find_slot, slot, find_session, is_open, is_present,
  delete_session, put_session, next_session_id, session_objects, add_session, new_session,
  close_session,
}
use go_p11_kit.Server.State.FreeId.{free_id-is_free}

pub find_session-delete_session :
    (id j : ℕ) (sessions : Sessions)
    → find_session (delete_session id sessions) j
      ≡ (if id == j then none else find_session sessions j)
unfolding find_session delete_session
find_session-delete_session id j [] = ground arith
find_session-delete_session id j ((k, s) ∷ sessions) =
    ground (arith, find_session-delete_session id j sessions)

pub find_session-put_session :
    (id j : ℕ) (s : Session) (sessions : Sessions)
    → find_session (put_session id s sessions) j
      ≡ (if id == j then some s else find_session sessions j)
unfolding put_session find_session
find_session-put_session id j s sessions = ground (arith, find_session-delete_session id j sessions)

-- The ID that `newSession` chooses is no session's, as long as there are fewer than 2^64 - 1.
pub next_session_id-is_free :
    (c : Conn) → length c.sessions < 2 ^ 64 - 1 → is_open c.sessions (next_session_id c) ≡ false
unfolding next_session_id
next_session_id-is_free c h =
    free_id-is_free (suc (length c.sessions)) c.sessions ((c.last_session_id + 1) % 2 ^ 64)
      (omega arith) (omega arith) (omega arith)

continue-ok :
    {A B : Type 0} (r : Result A) (f : A → Action B) (c : Conn) (a : A)
    → r ≡ ok a
    → continue r f c ≡ f a c
continue-ok r f c a e = ap (λ (r : Result _). continue r f c) e

new_session-eq :
    (env : Env) (slot_id : ℕ) (c : Conn) (s : Slot) (objects : List Object)
    → find_slot c.slots slot_id ≡ some s
    → session_objects env s ≡ ok objects
    → new_session env slot_id c ≡ add_session slot_id objects c
unfolding new_session slot
new_session-eq env slot_id c s objects e e' =
    continue-ok (or_fail (find_slot c.slots slot_id) (ckr err_slot_id_invalid)) _ c s
      (ap (λ (o : Option Slot). or_fail o (ckr err_slot_id_invalid)) e)
    ∙ continue-ok (session_objects env s) (add_session slot_id) c objects e'

closed-absent : (o : Option Session) → is_present o ≡ false → o ≡ none
closed-absent none h = refl
closed-absent (some s) h = cc

-- With fewer than 2^64 - 1 sessions, a slot that exists and objects that can be had, `newSession`
-- succeeds with an ID that no session had; under it there is then a session over those objects with
-- nothing searched for and nothing signed, and under every other ID what was there before.
pub new_session_lem :
    (env : Env) (slot_id : ℕ) (c : Conn) (s : Slot) (objects : List Object)
    → length c.sessions < 2 ^ 64 - 1
    → find_slot c.slots slot_id ≡ some s
    → session_objects env s ≡ ok objects
    → (id : ℕ) × ((new_session env slot_id c).0 ≡ ok id)
      × (find_session c.sessions id ≡ none)
      × ((j : ℕ)
          → find_session (new_session env slot_id c).1.sessions j
            ≡ (if id == j then some (open_session objects slot_id) else find_session c.sessions j))
unfolding is_open
new_session_lem env slot_id c s objects h e e' = (
  next_session_id c,
  ap (λ (p : Result ℕ × Conn). p.0) eq,
  closed-absent (find_session c.sessions (next_session_id c)) (next_session_id-is_free c h),
  λ j.
      ap (λ (p : Result ℕ × Conn). find_session p.1.sessions j) eq
      ∙ find_session-put_session (next_session_id c) j (open_session objects slot_id) c.sessions,
)
  where
    eq : new_session env slot_id c ≡ add_session slot_id objects c
    eq = new_session-eq env slot_id c s objects e e'

-- `closeSession` fails exactly on an ID that no session has. In either case that ID has no session
-- afterwards, and every other ID has what it had.
pub close_session_lem :
    (id : ℕ) (c : Conn)
    → ((close_session id c).0
        ≡ (if is_open c.sessions id then ok tt else err (ckr err_session_handle_invalid)))
      × ((j : ℕ)
          → find_session (close_session id c).1.sessions j
            ≡ (if id == j then none else find_session c.sessions j))
unfolding close_session
close_session_lem id c = (refl, λ j. find_session-delete_session id j c.sessions)
