-- ===== src/Result.antt =====
-- Go's `(value, error)` results. An error is a PKCS #11 return code of p11kit/errors.go, which
-- `errors.As` finds also where it is wrapped, or another one, of which the reason is kept.
use go_p11_kit.Base.{ℕ, ◌≡◌, ◌≢◌, refl, Option, none, some}

pub data Failure : Type 0 where
  -- of a body: p11kit/rpc.go
  invalid_signature unexpected_eof trailing_elements trailing_data : Failure
  -- of a message or a connection
  no_header no_body malformed_body no_version bad_handshake : Failure
  -- of an object: p11kit/attribute.go
  unsupported_key wrong_params bad_signature no_encoding not_a_key : Failure
  -- a run-time panic, which ends the process
  panicked : Failure
  -- of the code that the library calls
  foreign : ℕ → Failure

pub data Error : Type 0 where
  ckr : ℕ → Error
  failed : Failure → Error

pub data Result {ℓ} (A : Type ℓ) : Type ℓ where
  err : (reason : Error) → Result A
  ok : (value : A) → Result A

-- `if err != nil { return err }` before the rest.
abbrev and_then {ℓ κ} : {A : Type ℓ} {B : Type κ} → (A → Result B) → Result A → Result B
and_then next (err reason) = err reason
and_then next (ok value) = next value

infixl 5 ◌>>=◌ ◌>>◌
abbrev pub ◌>>=◌ {ℓ κ} : {A : Type ℓ} {B : Type κ} (r : Result A) (next : A → Result B) → Result B
r >>= next = and_then next r

abbrev pub ◌>>◌ {ℓ} : {B : Type ℓ} (r : Result (Unit {0})) (next : Result B) → Result B
r >> next = and_then (λ done. next) r

-- An error of a call, which the caller replaces by one of its own.
abbrev pub or_fail {ℓ} : {A : Type ℓ} (found : Option A) (reason : Error) → Result A
or_fail (some value) reason = ok value
or_fail none reason = err reason

-- A chain that succeeds has succeeded at its first call.
pub bind_inv :
    {A B : Type 0} (r : Result A) (f : A → Result B) (b : B)
    → (r >>= f) ≡ ok b
    → (a : A) × (r ≡ ok a) × (f a ≡ ok b)
bind_inv (ok a) f b h = (a, refl, h)
bind_inv (err e) f b h = cc

pub ok-ne-err : {A : Type 0} (a : A) (e : Error) → ok a ≢ err e
ok-ne-err a e h = cc

pub ok-injective : {A : Type 0} {a b : A} → ok a ≡ ok b → a ≡ b
ok-injective e = cc
