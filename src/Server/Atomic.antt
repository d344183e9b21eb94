-- ===== src/Server/Atomic.antt =====
-- Rules for the actions on the state of p11kit/p11kit.go that either succeed or change nothing.
pub mod Lookups
pub mod Rules
pub mod Requests
use go_p11_kit.Base.{
  ℕ, ◌^◌, ◌<◌, ◌≡◌, refl, ap, sym, ◌∙◌, Bool, true, false, Option, none, some, List, [], ◌∷◌, ◌==◌,
  if◌then◌else◌, contains, arith, Bool-cases, inl, inr, map,
}
use go_p11_kit.Codes.Errors.{err_session_handle_invalid}
use go_p11_kit.Result.{Error, Result, ok, err, ckr, or_fail, ok-ne-err}
use go_p11_kit.Token.Object.{Object}
use go_p11_kit.Token.Env.{Env}
use go_p11_kit.Server.Slot.{Slot}
use go_p11_kit.Server.Session.{Session}
use go_p11_kit.Server.State.{
  Conn, Action, continue, ◌>>=◌, ◌>>◌, pure, lift, find_slot, slot, update_slot, find_session,
  session, is_open, delete_session, write_session, session_objects, add_session, new_session,
  close_session, persist_object,
}
use go_p11_kit.Server.Invariant.{
  Inv, Keeps, Keeps-pure, Keeps-if, Keeps-write_session, Keeps-persist_object,
}

-- From a state with `P`, an error leaves the state as it was.
pub record Atomic {A : Type 0} (P : Conn → Type 0) (m : Action A) : Type 0 where
  pub at : (c : Conn) → P c → (e : Error) → (m c).0 ≡ err e → (m c).1 ≡ c

-- From a state with `P`, there is no error.
pub record Sure {A : Type 0} (P : Conn → Type 0) (m : Action A) : Type 0 where
  pub at : (c : Conn) → P c → (a : A) × ((m c).0 ≡ ok a)

module _ {A : Type 0} (P : Conn → Type 0) where
  pub Sure-ok : (a : A) (g : Conn → Conn) → Sure P (λ c. (ok a, g c))
  Sure-ok a g = record { at = λ c h. (a, refl) }

  pub Sure-if : (b : Bool) (m n : Action A) → Sure P m → Sure P n → Sure P (if b then m else n)
  Sure-if true m n sm sn = sm
  Sure-if false m n sm sn = sn

  pub Atomic-if :
      (b : Bool) (m n : Action A) → Atomic P m → Atomic P n → Atomic P (if b then m else n)
  Atomic-if true m n am an = am
  Atomic-if false m n am an = an

  pub Atomic-asks : (f : Conn → Result A) → Atomic P (λ c. (f c, c))
  Atomic-asks f = record { at = λ c h e fails. refl }

  pub Atomic-lift : (r : Result A) → Atomic P (lift r)
  Atomic-lift r = Atomic-asks (λ c. r)

  pub Sure-Atomic : (m : Action A) → Sure P m → Atomic P m
  Sure-Atomic m sm = record {
    at = λ c h e fails.
        let (a, succeeds) = sm.at c h in absurd (ok-ne-err a e (sym succeeds ∙ fails));
  }

module _ {A B : Type 0} (P : Conn → Type 0) where
  asked :
      (r : Result A) (f : A → Action B) (c : Conn)
      → ((a : A) → Atomic P (f a))
      → P c
      → (e : Error) → (continue r f c).0 ≡ err e
      → (continue r f c).1 ≡ c
  asked (ok a) f c af h = (af a).at c h
  asked (err d) f c af h = λ e fails. refl

  -- A question to the state, and what follows the answer.
  pub Atomic-asks-bind :
      (q : Conn → Result A) (f : A → Action B)
      → ((a : A) → Atomic P (f a))
      → Atomic P ((λ c. (q c, c)) >>= f)
  Atomic-asks-bind q f af = record { at = λ c h. asked (q c) f c af h }

  pub Atomic-lift-bind :
      (r : Result A) (f : A → Action B) → ((a : A) → Atomic P (f a)) → Atomic P (lift r >>= f)
  Atomic-lift-bind r f = Atomic-asks-bind (λ c. r) f

  bound :
      (r : Result A) (f : A → Action B) (c c' : Conn)
      → ((e : Error) → r ≡ err e → c' ≡ c)
      → ((a : A) → Sure P (f a))
      → P c'
      → (e : Error) → (continue r f c').0 ≡ err e
      → (continue r f c').1 ≡ c
  bound (ok a) f c c' am sf h e fails =
      let (b, succeeds) = (sf a).at c' h in absurd (ok-ne-err b e (sym succeeds ∙ fails))
  bound (err d) f c c' am sf h e fails = am d refl

  -- An atomic action, and one after it that does not fail.
  pub Atomic-bind :
      (m : Action A) (f : A → Action B)
      → Keeps P m
      → Atomic P m
      → ((a : A) → Sure P (f a))
      → Atomic P (m >>= f)
  Atomic-bind m f km am sf = record {
    at = λ c h. bound (m c).0 f c (m c).1 (am.at c h) sf (km.at c h);
  }

  sured :
      (r : Result A) (f : A → Action B) (c : Conn) (a : A)
      → r ≡ ok a
      → ((a : A) → Sure P (f a))
      → P c
      → (b : B) × ((continue r f c).0 ≡ ok b)
  sured (ok a') f c a e sf h = (sf a').at c h
  sured (err d) f c a e sf h = absurd (ok-ne-err a d (sym e))

  pub Sure-bind :
      (m : Action A) (f : A → Action B)
      → Keeps P m
      → Sure P m
      → ((a : A) → Sure P (f a))
      → Sure P (m >>= f)
  Sure-bind m f km sm sf = record {
    at = λ c h. let (a, e) = sm.at c h in sured (m c).0 f (m c).1 a e sf (km.at c h);
  }
