-- ===== src/ExampleServer/Completes.antt =====
-- The objects of keys and certificates that example/example-p11-kit-server/main.go makes without an error.
pub mod Files
use go_p11_kit.Base.{ℕ, ◌≡◌, refl, Bool, true, false, some, List}
use go_p11_kit.Result.{ok}
use go_p11_kit.Wire.Buffer.{Bytes}
use go_p11_kit.Wire.Attributes.{Attribute}
use go_p11_kit.Token.Keys.{Curve, PublicKey, ecdsa_public, rsa_public, other_public, Signer, public}
use go_p11_kit.Token.Object.{Object}
use go_p11_kit.Token.Env.{Env}
use go_p11_kit.Token.Create.{
  Certificate, is_key, oid_named_curve, ecdsa_point, ecdsa_attributes, typed_attributes,
  new_key_object, new_private_key_object, new_public_key_object, new_x509_certificate_object,
  set_certificate,
}

-- Random numbers can be drawn, and the encoder of ASN.1 takes numbers, byte strings and the object
-- identifiers of the named curves.
pub record Works (env : Env) : Type 0 where
  pub random : (n : ℕ) → (id : ℕ) × (env.random n ≡ ok id)
  pub marshal_oid :
      (c : Curve) (oid : List ℕ)
      → oid_named_curve c ≡ some oid
      → (b : Bytes) × (env.marshal_oid oid ≡ some b)
  pub marshal_octets : (s : Bytes) → (b : Bytes) × (env.marshal_octets s ≡ some b)
  pub marshal_integer : (n : ℕ) → (b : Bytes) × (env.marshal_integer n ≡ some b)

-- An RSA key, or one of a named curve.
abbrev pub IsTyped : PublicKey → Type 0
IsTyped (ecdsa_public c x y) = (oid : List ℕ) × (oid_named_curve c ≡ some oid)
IsTyped (rsa_public n e) = Unit {0}
IsTyped (other_public k) = ⊥

-- One that x509.MarshalPKIXPublicKey encodes, too.
abbrev pub IsSupported : Env → PublicKey → Type 0
IsSupported env k = IsTyped k × ((b : Bytes) × (env.marshal_public k ≡ some b))

module _ (env : Env) (w : Works env) where
  ecdsa_point-ok :
      (c : Curve) (x y : ℕ) (is_private : Bool)
      → (attrs : List Attribute) × (ecdsa_point env c x y is_private ≡ ok attrs)
  unfolding ecdsa_point
  ecdsa_point-ok c x y true = (_, refl)
  ecdsa_point-ok c x y false =
      let (b, e) = w.marshal_octets (env.marshal_point c x y) in rw e (_, refl)

  typed_attributes-ok :
      (key : PublicKey) (is_private : Bool)
      → IsTyped key
      → (attrs : List Attribute) × (typed_attributes env key is_private ≡ ok attrs)
  unfolding typed_attributes ecdsa_attributes
  typed_attributes-ok (ecdsa_public c x y) is_private (oid, named) =
      let (params, e) = w.marshal_oid c oid named in
      let (point, f) = ecdsa_point-ok c x y is_private in rw (named, e, f) (_, refl)
  typed_attributes-ok (rsa_public n e) is_private h = (_, refl)
  typed_attributes-ok (other_public k) is_private h = absurd h

  new_key_object-ok :
      (key : PublicKey) (is_private : Bool)
      → IsSupported env key
      → (attrs : List Attribute) × (new_key_object env key is_private ≡ ok attrs)
  unfolding new_key_object
  new_key_object-ok key is_private (h, (spki, e)) =
      let (typed, f) = typed_attributes-ok key is_private h in rw (e, f) (_, refl)

  -- A new object, which has a key.
  pub new_private_key_object-ok :
      (draw : ℕ) (s : Signer)
      → IsSupported env (public s)
      → (o : Object) × (new_private_key_object env draw (some s) ≡ ok o)
        × (is_key o.pub_key o.priv_key ≡ true)
  unfolding new_private_key_object
  new_private_key_object-ok draw s h =
      let (id, e) = w.random draw in
      let (attrs, f) = new_key_object-ok (public s) true h in rw (e, f) (_, refl, refl)

  pub new_public_key_object-ok :
      (draw : ℕ) (key : PublicKey)
      → IsSupported env key
      → (o : Object) × (new_public_key_object env draw key ≡ ok o)
        × (is_key o.pub_key o.priv_key ≡ true)
  unfolding new_public_key_object
  new_public_key_object-ok draw key h =
      let (id, e) = w.random draw in
      let (attrs, f) = new_key_object-ok key false h in rw (e, f) (_, refl, refl)

  pub new_x509_certificate_object-ok :
      (draw : ℕ) (cert : Certificate)
      → (o : Object) × (new_x509_certificate_object env draw cert ≡ ok o)
  unfolding new_x509_certificate_object
  new_x509_certificate_object-ok draw cert =
      let (id, e) = w.random draw in
      let (serial, f) = w.marshal_integer cert.serial_number in rw (e, f) (_, refl)

  pub set_certificate-ok :
      (o : Object) (cert : Certificate)
      → is_key o.pub_key o.priv_key ≡ true
      → (o' : Object) × (set_certificate env o cert ≡ ok o')
        × (is_key o'.pub_key o'.priv_key ≡ true)
  unfolding set_certificate
  set_certificate-ok o cert h =
      let (serial, f) = w.marshal_integer cert.serial_number in rw (h, f) (_, refl, h)
