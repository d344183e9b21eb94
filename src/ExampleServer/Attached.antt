-- ===== src/ExampleServer/Attached.antt =====
-- `SetCertificate` of p11kit/attribute.go and the loops that call it, on the object of a private key.
use go_p11_kit.Base.{
  ℕ, ◌≡◌, sym, refl, ap, ◌∙◌, subst, Bool, true, Option, none, some, List, [], ◌∷◌, ◌++◌, All,
  All-append, arith, Bool-cases, inl, inr,
}
use go_p11_kit.Codes.Attributes.{
  attribute_id, attribute_subject, attribute_object_id, attribute_public_key_info, attribute_derive,
  attribute_sensitive, attribute_extractable,
}
use go_p11_kit.Result
use go_p11_kit.Result.{
  Result, ok, err, failed, not_a_key, no_encoding, or_fail, bind_inv, ok-ne-err,
}
use go_p11_kit.Wire.Buffer.{Bytes}
use go_p11_kit.Wire.Attributes.{Attribute, bytes_attribute}
use go_p11_kit.Token.Keys.{PublicKey, Signer}
use go_p11_kit.Token.Object
use go_p11_kit.Token.Object.{Object, find_attribute, put_derive, set_derive, attribute_value}
use go_p11_kit.Token.Env.{Env}
use go_p11_kit.Token.Derive.{check_derive, permitted}
use go_p11_kit.Token.Derive.Permission.{find_attribute-put_derive}
use go_p11_kit.Token.Create.{Certificate, is_key, set_certificate}
use go_p11_kit.Token.Create.Sensitive.{IsWithheld, IsGuarded, object_of, never}
use go_p11_kit.ExampleServer.Outside
use go_p11_kit.ExampleServer.Outside.{Outside, Kind, Fatal, attaching, Outcome, fatal, done, signer}
use go_p11_kit.ExampleServer.Keys.{is_ecdsa}
use go_p11_kit.ExampleServer.Files.{fatal_on, attach}

-- The attributes that `SetCertificate` appends.
abbrev pub of_certificate : Bytes → Certificate → List Attribute
of_certificate serial cert =
    bytes_attribute attribute_id (some serial)
    ∷ bytes_attribute attribute_subject cert.raw_subject
    ∷ bytes_attribute attribute_object_id (some serial)
    ∷ bytes_attribute attribute_public_key_info cert.raw_subject_public_key_info
    ∷ []

abbrev with_more : Object → List Attribute → Object
with_more o more = record o { attributes = o.attributes ++ more }

set_certificate_inv :
    (env : Env) (o : Object) (cert : Certificate) (o' : Object)
    → set_certificate env o cert ≡ ok o'
    → (serial : Bytes) × (with_more o (of_certificate serial cert) ≡ o')
unfolding set_certificate
set_certificate_inv env o cert o' h = elim (Bool-cases (is_key o.pub_key o.priv_key)) [
  | inl e ↦
      let (serial, _, same) =
        bind_inv (or_fail (env.marshal_integer cert.serial_number) (failed no_encoding)) _ o'
          (rw e at h) in
      (serial, ap object_of same)
  | inr e ↦ absurd (ok-ne-err o' (failed not_a_key) (sym (rw e at h)))
]

find_attribute-append :
    (front back : List Attribute) (t : ℕ) (a : Attribute)
    → find_attribute front t ≡ some a
    → find_attribute (front ++ back) t ≡ some a
unfolding find_attribute
find_attribute-append [] back t a h = cc
find_attribute-append (x ∷ front) back t a h = ground (arith, find_attribute-append front back t a)

All-put_derive : (attrs : List Attribute) → All IsWithheld attrs → All IsWithheld (put_derive attrs)
unfolding put_derive
All-put_derive [] h = (never, tt)
All-put_derive (a ∷ attrs) h = ground (arith, All-put_derive attrs h.1)

pub IsGuarded-set_derive :
    (o : Object) → IsGuarded o.attributes → IsGuarded (set_derive o).attributes
unfolding set_derive
IsGuarded-set_derive o (sensitive, extractable, withheld) = (
  find_attribute-put_derive o.attributes attribute_sensitive ∙ sensitive,
  find_attribute-put_derive o.attributes attribute_extractable ∙ extractable,
  All-put_derive o.attributes withheld,
)

IsGuarded-more :
    (attrs : List Attribute) (serial : Bytes) (cert : Certificate)
    → IsGuarded attrs
    → IsGuarded (attrs ++ of_certificate serial cert)
IsGuarded-more attrs serial cert (sensitive, extractable, withheld) = (
  find_attribute-append attrs (of_certificate serial cert) attribute_sensitive _ sensitive,
  find_attribute-append attrs (of_certificate serial cert) attribute_extractable _ extractable,
  All-append IsWithheld attrs (of_certificate serial cert) withheld
      (never, (never, (never, (never, tt)))),
)

permitted-more :
    (attrs more : List Attribute) (found : Option Attribute)
    → find_attribute attrs attribute_derive ≡ found
    → permitted found ≡ ok tt
    → permitted (find_attribute (attrs ++ more) attribute_derive) ≡ ok tt
permitted-more attrs more none e h = cc
permitted-more attrs more (some a) e h =
    rw (find_attribute-append attrs more attribute_derive a e) h

check_derive-more :
    (o : Object) (more : List Attribute)
    → check_derive o ≡ ok tt
    → check_derive (with_more o more) ≡ ok tt
unfolding check_derive attribute_value
check_derive-more o more h =
    permitted-more o.attributes more (find_attribute o.attributes attribute_derive) refl h

-- An object of the private key `s`: the key is kept beside attributes that do not show it, and one of an
-- elliptic curve may be used to derive.
abbrev pub IsPrivate : Signer → Object → Type 0
IsPrivate s o =
    (o.priv_key ≡ some s)
    × IsGuarded o.attributes
    × (is_ecdsa (signer s) ≡ true → check_derive o ≡ ok tt)

pub IsPrivate-set_certificate :
    (env : Env) (s : Signer) (o o' : Object) (cert : Certificate)
    → set_certificate env o cert ≡ ok o'
    → IsPrivate s o
    → IsPrivate s o'
IsPrivate-set_certificate env s o o' cert e (kept, guarded, derives) =
    let (serial, same) = set_certificate_inv env o cert o' e in
    subst (IsPrivate s) same (
      kept,
      IsGuarded-more o.attributes serial cert guarded,
      λ curve. check_derive-more o (of_certificate serial cert) (derives curve),
    )

-- The object of a public key.
abbrev pub IsPublic : PublicKey → Object → Type 0
IsPublic k o = (o.pub_key ≡ some k) × (o.priv_key ≡ none)

pub IsPublic-set_certificate :
    (env : Env) (k : PublicKey) (o o' : Object) (cert : Certificate)
    → set_certificate env o cert ≡ ok o'
    → IsPublic k o
    → IsPublic k o'
IsPublic-set_certificate env k o o' cert e h =
    let (serial, same) = set_certificate_inv env o cert o' e in subst (IsPublic k) same h

abbrev pub object_done : Outcome Object → Object
object_done (done o) = o
object_done (fatal f) = Object.zero_object

pub fatal_on_inv :
    (r : Result Object) (f : Result.Error → Fatal) (o : Object) → fatal_on r f ≡ done o → r ≡ ok o
fatal_on_inv (ok a) f o h = ap (λ m. ok (object_done m)) h
fatal_on_inv (err e) f o h = cc

module _ (out : Outside) (P : Object → Type 0)
    (keeps : (o o' : Object) (cert : Certificate)
      → set_certificate out.env o cert ≡ ok o'
      → P o
      → P o') where
  -- What setting one certificate keeps, the loop keeps.
  pub attach-keeps :
      (kind : Kind) (equals : PublicKey → Bool) (certs : List Certificate) (o o' : Object)
      → attach out kind equals certs o ≡ done o'
      → P o
      → P o'
  unfolding attach
  attach-keeps kind equals [] o o' e h = subst P (ap object_done e) h
  attach-keeps kind equals (cert ∷ certs) o o' e h = elim (Bool-cases (equals cert.public_key)) [
    | inl equal ↦
        let (o'', set, rest) =
          Outside.bind_inv (fatal_on (set_certificate out.env o cert) (attaching kind)) _ o'
            (rw equal at e) in
        attach-keeps kind equals certs o'' o' rest (
          keeps o o'' cert (fatal_on_inv (set_certificate out.env o cert) (attaching kind) o'' set)
            h)
    | inr differs ↦ attach-keeps kind equals certs o o' (rw differs at e) h
  ]
