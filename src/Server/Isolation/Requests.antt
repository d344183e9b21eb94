-- ===== src/Server/Isolation/Requests.antt =====
-- The session that a request of p11kit/p11kit.go names.
use go_p11_kit.Base.{ℕ, ◌≡◌, refl, ap, sym, ◌∙◌, Option, none, some, List}
use go_p11_kit.Result.{Failure, ok}
use go_p11_kit.Wire.Buffer.{Bytes}
use go_p11_kit.Wire.Attributes.{Attribute}
use go_p11_kit.Wire.Mechanisms.{Mechanism}
use go_p11_kit.Wire.Body.{Body}
use go_p11_kit.Wire.Body.Read.{
  Parser, ◌>>=◌, continue, pure, checked, request, read_mechanism, read_attribute_array, read_ulong,
}
use go_p11_kit.Server.Requests.{
  id_request, count_request, find_objects_init_request, sign_init_request, sign_update_request,
  generate_key_pair_request, derive_key_request,
}

-- The first field of the body, where that is a number.
abbrev pub first_ulong : Body → Option ℕ
first_ulong req = (read_ulong req).0

-- Whatever `p` returns has the number `n` in it.
record Yields {A : Type 0} (g : A → ℕ) (n : ℕ) (p : Parser A) : Type 0 where
  at : (b : Body) (a : A) → (p b).0 ≡ some a → g a ≡ n

module _ {A : Type 0} (g : A → ℕ) where
  Yields-pure : (a : A) → Yields g (g a) (pure a)
  Yields-pure a = record { at = λ b x e. cc }

module _ {A B : Type 0} where
  continue-some :
      (o : Option A) (f : A → Parser B) (b : Body) (x : B)
      → (continue o f b).0 ≡ some x
      → (a : A) × (o ≡ some a) × ((f a b).0 ≡ some x)
  continue-some none f b x e = cc
  continue-some (some a) f b x e = (a, refl, e)

  Yields-bind :
      (g : B → ℕ) (n : ℕ) (p : Parser A) (f : A → Parser B)
      → ((a : A) → Yields g n (f a))
      → Yields g n (p >>= f)
  Yields-bind g n p f h = record {
    at = λ b x e. let (a, _, e') = continue-some (p b).0 f (p b).1 x e in (h a).at (p b).1 x e';
  }

checked-ok :
    {A : Type 0} (o : Option A) (e : Option Failure) (a : A) → checked o e ≡ ok a → o ≡ some a
checked-ok o (some e) a h = cc
checked-ok (some b) none a h = cc
checked-ok none none a h = cc

module _ {A : Type 0} (g : A → ℕ) where
  -- A request that begins with a number and has that number in what it returns.
  request-first :
      (f : ℕ → Parser A) (req : Body) (a : A)
      → ((n : ℕ) → Yields g n (f n))
      → request (read_ulong >>= f) req ≡ ok a
      → first_ulong req ≡ some (g a)
  unfolding request
  request-first f req a h e =
      let found = checked-ok ((read_ulong >>= f) req).0 _ a e in
      let (n, e', e'') = continue-some (read_ulong req).0 f (read_ulong req).1 a found in
      e' ∙ ap some (sym ((h n).at (read_ulong req).1 a e''))

pub id_request-first :
    (req : Body) (id : ℕ) → request id_request req ≡ ok id → first_ulong req ≡ some id
unfolding request id_request
id_request-first req id h = checked-ok (read_ulong req).0 _ id h

pub count_request-first :
    (req : Body) (a : ℕ × ℕ) → request count_request req ≡ ok a → first_ulong req ≡ some a.0
unfolding count_request
count_request-first req a h =
    request-first (λ a. a.0) _ req a (λ id. Yields-bind _ _ _ _ λ n. Yields-pure _ (id, n)) h

pub find_objects_init_request-first :
    (req : Body) (a : ℕ × List Attribute)
    → request find_objects_init_request req ≡ ok a
    → first_ulong req ≡ some a.0
unfolding find_objects_init_request
find_objects_init_request-first req a h =
    request-first (λ a. a.0) _ req a (λ id. Yields-bind _ _ _ _ λ n. Yields-pure _ (id, n)) h

pub sign_init_request-first :
    (req : Body) (a : ℕ × Mechanism × ℕ)
    → request sign_init_request req ≡ ok a
    → first_ulong req ≡ some a.0
unfolding sign_init_request
sign_init_request-first req a h =
    request-first (λ a. a.0) _ req a
      (λ id.
        Yields-bind _ _ read_mechanism _
          λ m. Yields-bind _ _ read_ulong _ λ n. Yields-pure _ (id, m, n))
      h

pub sign_update_request-first :
    (req : Body) (a : ℕ × Option Bytes)
    → request sign_update_request req ≡ ok a
    → first_ulong req ≡ some a.0
unfolding sign_update_request
sign_update_request-first req a h =
    request-first (λ a. a.0) _ req a (λ id. Yields-bind _ _ _ _ λ d. Yields-pure _ (id, d.0)) h

pub generate_key_pair_request-first :
    (req : Body) (a : ℕ × Mechanism × List Attribute × List Attribute)
    → request generate_key_pair_request req ≡ ok a
    → first_ulong req ≡ some a.0
unfolding generate_key_pair_request
generate_key_pair_request-first req a h =
    request-first (λ a. a.0) _ req a
      (λ id. Yields-bind _ _ read_mechanism _ λ m.
        Yields-bind _ _ read_attribute_array _
          λ p. Yields-bind _ _ read_attribute_array _ λ q. Yields-pure _ (id, m, p, q))
      h

pub derive_key_request-first :
    (req : Body) (a : ℕ × Mechanism × ℕ × List Attribute)
    → request derive_key_request req ≡ ok a
    → first_ulong req ≡ some a.0
unfolding derive_key_request
derive_key_request-first req a h =
    request-first (λ a. a.0) _ req a
      (λ id. Yields-bind _ _ read_mechanism _ λ m.
        Yields-bind _ _ read_ulong _
          λ n. Yields-bind _ _ read_attribute_array _ λ q. Yields-pure _ (id, m, n, q))
      h
