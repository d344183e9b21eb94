-- ===== src/ExampleServer/Made.antt =====
-- The object that a round of the loops of example/example-p11-kit-server/main.go makes of its file.
use go_p11_kit.Base.{ℕ, ◌≡◌, refl, subst, false, none, List, if◌then◌else◌, length, some}
use go_p11_kit.Result
use go_p11_kit.Result.{Result, ok, err, failed, not_a_key, no_encoding, or_fail}
use go_p11_kit.Wire.Buffer.{Bytes}
use go_p11_kit.Token.Keys.{PublicKey, Signer, ecdsa_private, other_private}
use go_p11_kit.Token.Object.{Object, set_derive, attribute_value, find_attribute}
use go_p11_kit.Token.Env.{Env}
use go_p11_kit.Token.Derive.Permission.{set_derive_lem}
use go_p11_kit.Token.Create.{
  Certificate, new_key_object, new_private_key_object, new_public_key_object,
  new_x509_certificate_object,
}
use go_p11_kit.Token.Create.Sensitive.{object_of, new_private_key_object-IsGuarded}
use go_p11_kit.ExampleServer.Outside.{
  PrivateKey, signer, no_signer, Outside, private_key, public_key, parsing, creating, done,
  or_fatal, bind_inv,
}
use go_p11_kit.ExampleServer.Keys.{
  as_signer, is_ecdsa, parse_private_key, parse_public_key, priv_equal, pub_equal,
}
use go_p11_kit.ExampleServer.Files.{fatal_on, load_block, load_private_key, load_public_key}
use go_p11_kit.ExampleServer.Attached.{
  fatal_on_inv, attach-keeps, IsPrivate, IsPrivate-set_certificate, IsPublic,
  IsPublic-set_certificate, IsGuarded-set_derive,
}
use go_p11_kit.ExampleServer.Held.{
  HoldsCertificate, HoldsPrivate, HoldsPublic, EncodesPrivate, load_block_inv, or_fatal_inv,
  parse_private_key_inv, parse_public_key_inv,
}
use go_p11_kit.Codes.Attributes
use go_p11_kit.Wire.Attributes.{bytes_attribute}

-- An object that shows the certificate and holds no key.
abbrev pub IsCertificate : Certificate → Object → Type 0
IsCertificate cert o =
    (attribute_value o Attributes.attribute_value
      ≡ some (bytes_attribute Attributes.attribute_value cert.raw))
    × (o.pub_key ≡ none)
    × (o.priv_key ≡ none)

-- An object that is new, of a private key as `main` takes it: derivation is allowed with the keys of
-- elliptic curves.
new_private_key_object-IsPrivate :
    (env : Env) (draw : ℕ) (priv : PrivateKey) (o : Object)
    → new_private_key_object env draw (as_signer priv) ≡ ok o
    → (s : Signer) × (priv ≡ signer s) × IsPrivate s (if is_ecdsa priv then set_derive o else o)
unfolding new_private_key_object
new_private_key_object-IsPrivate env draw (signer (ecdsa_private c x y d)) o h =
    let (guarded, kept) = new_private_key_object-IsGuarded env draw (ecdsa_private c x y d) o h in
    (
      ecdsa_private c x y d,
      refl,
      (unfold set_derive in kept, IsGuarded-set_derive o guarded, λ _. (set_derive_lem o).0),
    )
new_private_key_object-IsPrivate env draw (signer (other_private k p)) o h =
    let (guarded, kept) = new_private_key_object-IsGuarded env draw (other_private k p) o h in
    (other_private k p, refl, (kept, guarded, λ e. cc))
new_private_key_object-IsPrivate env draw (no_signer p) o h = cc

new_public_key_object-IsPublic :
    (env : Env) (draw : ℕ) (key : PublicKey) (o : Object)
    → new_public_key_object env draw key ≡ ok o
    → IsPublic key o
unfolding new_public_key_object
new_public_key_object-IsPublic env draw key o h =
    let (id, _, h) = Result.bind_inv (env.random draw) _ o h in
    let (attrs, _, h) = Result.bind_inv (new_key_object env key false) _ o h in
    subst (λ (r : Result Object). IsPublic key (object_of r)) h (refl, refl)

pub new_x509_certificate_object-IsCertificate :
    (env : Env) (draw : ℕ) (cert : Certificate) (o : Object)
    → new_x509_certificate_object env draw cert ≡ ok o
    → IsCertificate cert o
unfolding new_x509_certificate_object attribute_value find_attribute
new_x509_certificate_object-IsCertificate env draw cert o h =
    let (id, _, h) = Result.bind_inv (env.random draw) _ o h in
    let (serial, _, h) =
      Result.bind_inv (or_fail (env.marshal_integer cert.serial_number) (failed no_encoding)) _ o
        h in
    subst (λ (r : Result Object). IsCertificate cert (object_of r)) h (refl, refl, refl)

module _ (out : Outside) where
  -- What an object has of the file that it was made of.
  abbrev pub IsCertificateOf : Bytes → Object → Type 0
  IsCertificateOf f o = (cert : Certificate) × HoldsCertificate out f cert × IsCertificate cert o

  abbrev pub IsPrivateOf : Bytes → Object → Type 0
  IsPrivateOf f o = (s : Signer) × HoldsPrivate out f s × IsPrivate s o

  abbrev pub IsPublicOf : Bytes → Object → Type 0
  IsPublicOf f o = (key : PublicKey) × HoldsPublic out f key × IsPublic key o

  pub load_private_key-IsPrivateOf :
      (certs : List Certificate) (objs : List Object) (f : Bytes) (o : Object)
      → load_private_key out certs objs f ≡ done o
      → IsPrivateOf f o
  unfolding load_private_key
  load_private_key-IsPrivateOf certs objs f o h =
      let (block, held, h) = bind_inv (load_block out private_key f) _ o h in
      let (priv, parsed, h) =
        bind_inv (or_fatal (parse_private_key out block) (parsing private_key f)) _ o h in
      let (o', made, h) =
        bind_inv
          (fatal_on (new_private_key_object out.env (length objs) (as_signer priv))
            (creating private_key f))
          _ o h in
      let (s, same, h') =
        new_private_key_object-IsPrivate out.env (length objs) priv o' (fatal_on_inv _ _ o' made) in
      (
        s,
        (
          block,
          load_block_inv out private_key f block held,
          subst (EncodesPrivate out block) same (
              parse_private_key_inv out block priv
                (or_fatal_inv (parse_private_key out block) _ priv parsed)),
        ),
        attach-keeps out (IsPrivate s) (IsPrivate-set_certificate out.env s) private_key
            (priv_equal out priv) certs _ o h h',
      )

  pub load_public_key-IsPublicOf :
      (certs : List Certificate) (objs : List Object) (f : Bytes) (o : Object)
      → load_public_key out certs objs f ≡ done o
      → IsPublicOf f o
  unfolding load_public_key
  load_public_key-IsPublicOf certs objs f o h =
      let (block, held, h) = bind_inv (load_block out public_key f) _ o h in
      let (key, parsed, h) =
        bind_inv (or_fatal (parse_public_key out block) (parsing public_key f)) _ o h in
      let (o', made, h) =
        bind_inv
          (fatal_on (new_public_key_object out.env (length objs) key) (creating public_key f)) _ o
          h in
      let h' =
        new_public_key_object-IsPublic out.env (length objs) key o' (fatal_on_inv _ _ o' made) in
      (
        key,
        (
          block,
          load_block_inv out public_key f block held,
          parse_public_key_inv out block key
              (or_fatal_inv (parse_public_key out block) _ key parsed),
        ),
        attach-keeps out (IsPublic key) (IsPublic-set_certificate out.env key) public_key
            (pub_equal out key) certs _ o h h',
      )
