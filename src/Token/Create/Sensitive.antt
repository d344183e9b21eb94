-- ===== src/Token/Create/Sensitive.antt =====
-- What the attributes of a private key's object show of the key: `newKeyObject` of
-- p11kit/attribute.go.
use go_p11_kit.Base.{
  ℕ, ◌≡◌, refl, ap, subst, true, false, some, List, [], ◌∷◌, ◌++◌, contains, All, All-append,
}
use go_p11_kit.Codes.Attributes.{
  attribute_sensitive, attribute_extractable, attribute_value, attribute_private_exponent,
  attribute_prime1, attribute_prime2, attribute_exponent1, attribute_exponent2,
  attribute_coefficient,
}
use go_p11_kit.Result.{Result, ok, err, or_fail, bind_inv, failed, unsupported_key, no_encoding}
use go_p11_kit.Wire.Buffer.{Bytes}
use go_p11_kit.Wire.Attributes.{Attribute, empty_attribute, byte_attribute}
use go_p11_kit.Token.Keys.{Curve, PublicKey, ecdsa_public, rsa_public, other_public, Signer, public}
use go_p11_kit.Token.Env.{Env}
use go_p11_kit.Token.Object
use go_p11_kit.Token.Object.{Object}
use go_p11_kit.Token.Create.{
  common_attributes, private_attributes, rsa_attributes, ecdsa_attributes, ecdsa_point,
  oid_named_curve, typed_attributes, new_key_object, new_private_key_object,
}

-- The types of the secret parts of RSA and elliptic-curve keys.
abbrev pub secret_types : List ℕ
secret_types =
    attribute_value ∷ attribute_private_exponent ∷ attribute_prime1 ∷ attribute_prime2
    ∷ attribute_exponent1 ∷ attribute_exponent2 ∷ attribute_coefficient ∷ []

-- The attribute has no value, if its type is that of a secret part.
abbrev pub IsWithheld : Attribute → Type 0
IsWithheld a = contains secret_types a.typ ≡ true → a ≡ empty_attribute a.typ

abbrev attributes_of : Result (List Attribute) → List Attribute
attributes_of (ok attrs) = attrs
attributes_of (err e) = []

abbrev pub object_of : Result Object → Object
object_of (ok o) = o
object_of (err e) = Object.zero_object

pub never : {A : Type 0} → false ≡ true → A
never e = cc

rsa-IsWithheld : (n e : ℕ) → All IsWithheld (rsa_attributes n e true)
unfolding rsa_attributes
rsa-IsWithheld n e = (
  never,
  (
    never,
    (
      never,
      (
        never,
        (never, (λ _. refl, (λ _. refl, (λ _. refl, (λ _. refl, (λ _. refl, (λ _. refl, tt))))))),
      ),
    ),
  ),
)

ecdsa-IsWithheld :
    (env : Env) (c : Curve) (x y : ℕ) (typed : List Attribute)
    → ecdsa_attributes env c x y true ≡ ok typed
    → All IsWithheld typed
unfolding ecdsa_attributes ecdsa_point
ecdsa-IsWithheld env c x y typed h =
    let (oid, _, h) = bind_inv (or_fail (oid_named_curve c) (failed unsupported_key)) _ typed h in
    let (params, _, h) = bind_inv (or_fail (env.marshal_oid oid) (failed no_encoding)) _ typed h in
    subst (λ (r : Result (List Attribute)). All IsWithheld (attributes_of r)) h
      (never, (never, (never, (λ _. refl, tt))))

typed-IsWithheld :
    (env : Env) (key : PublicKey) (typed : List Attribute)
    → typed_attributes env key true ≡ ok typed
    → All IsWithheld typed
unfolding typed_attributes
typed-IsWithheld env (ecdsa_public c x y) typed h = ecdsa-IsWithheld env c x y typed h
typed-IsWithheld env (rsa_public n e) typed h =
    subst (λ (r : Result (List Attribute)). All IsWithheld (attributes_of r)) h (rsa-IsWithheld n e)
typed-IsWithheld env (other_public k) typed h = cc

first-IsWithheld :
    (spki : Bytes) → All IsWithheld (common_attributes spki true ++ private_attributes true)
unfolding common_attributes private_attributes
first-IsWithheld spki = (
  never,
  (
    never,
    (
      never,
      (
        never,
        (
          never,
          (
            never,
            (never, (never, (never, (never, (never, (never, (never, (never, (never, tt))))))))),
          ),
        ),
      ),
    ),
  ),
)

new_key_object_inv :
    (env : Env) (key : PublicKey) (attrs : List Attribute)
    → new_key_object env key true ≡ ok attrs
    → (spki : Bytes) × (typed : List Attribute) × (typed_attributes env key true ≡ ok typed)
      × ((common_attributes spki true ++ private_attributes true) ++ typed ≡ attrs)
unfolding new_key_object
new_key_object_inv env key attrs h =
    let (spki, _, h) = bind_inv (or_fail (env.marshal_public key) (failed no_encoding)) _ attrs h in
    let (typed, e, h) = bind_inv (typed_attributes env key true) _ attrs h in
    (spki, typed, e, ap attributes_of h)

-- What the attributes of a private key's object show of the key.
abbrev pub IsGuarded : List Attribute → Type 0
IsGuarded attrs =
    (Object.find_attribute attrs attribute_sensitive ≡ some (byte_attribute attribute_sensitive 1))
    × (Object.find_attribute attrs attribute_extractable
        ≡ some (byte_attribute attribute_extractable 0))
    × All IsWithheld attrs

new_key_object-IsGuarded :
    (env : Env) (key : PublicKey) (attrs : List Attribute)
    → new_key_object env key true ≡ ok attrs
    → IsGuarded attrs
new_key_object-IsGuarded env key attrs h =
    let (spki, typed, e, same) = new_key_object_inv env key attrs h in
    subst IsGuarded same (
      unfold common_attributes private_attributes Object.find_attribute in refl,
      unfold common_attributes private_attributes Object.find_attribute in refl,
      All-append IsWithheld _ typed (first-IsWithheld spki) (typed-IsWithheld env key typed e),
    )

-- A private key's object, whatever the key's type, is marked sensitive and not extractable, and no
-- attribute of the type of a secret part has a value; the key itself is kept beside the attributes.
pub new_private_key_object-IsGuarded :
    (env : Env) (draw : ℕ) (priv : Signer) (o : Object)
    → new_private_key_object env draw (some priv) ≡ ok o
    → IsGuarded o.attributes × (o.priv_key ≡ some priv)
unfolding new_private_key_object
new_private_key_object-IsGuarded env draw priv o h =
    let (id, _, h) = bind_inv (env.random draw) _ o h in
    let (attrs, e, h) = bind_inv (new_key_object env (public priv) true) _ o h in
    subst
      (λ (r : Result Object).
        IsGuarded (object_of r).attributes × ((object_of r).priv_key ≡ some priv))
      h (new_key_object-IsGuarded env (public priv) attrs e, refl)
