-- ===== src/Token/Object.antt =====
-- The `Object` of p11kit/attribute.go and the operations on its attributes.
pub mod Attributes
use go_p11_kit.Base.{
  ℕ, Bool, true, false, ◌||◌, Option, none, some, List, [], ◌∷◌, ◌++◌, ◌==◌, if◌then◌else◌,
  bytes_equal, not,
}
use go_p11_kit.Codes.Attributes.{attribute_derive, attribute_label, attribute_id}
use go_p11_kit.Codes.Errors.{err_mechanism_invalid}
use go_p11_kit.Codes.Mechanisms.{ckm_ecdsa, ckm_rsa_pkcs, ckm_rsa_pkcs_pss}
use go_p11_kit.Result.{Result, ok, err, ckr, failed, unsupported_key}
use go_p11_kit.Wire.Buffer.{Bytes}
use go_p11_kit.Wire.Attributes.{Attribute, empty_attribute, byte_attribute, bytes_attribute, value}
use go_p11_kit.Wire.Mechanisms.{Mechanism}
use go_p11_kit.Wire.Body.Read.{string_of}
use go_p11_kit.Token.Keys.{PublicKey, ecdsa_public, rsa_public, other_public, Signer, public}

pub record Object : Type 0 where
  pub id : ℕ
  pub attributes : List Attribute
  pub pub_key : Option PublicKey
  pub priv_key : Option Signer

-- `Object{}`
abbrev pub zero_object : Object
zero_object = record { id = 0; attributes = []; pub_key = none; priv_key = none }

unfoldable pub key_supports : PublicKey → ℕ → Result (Unit {0})
key_supports (ecdsa_public c x y) t =
    if t == ckm_ecdsa then ok tt else err (ckr err_mechanism_invalid)
key_supports (rsa_public n e) t =
    if t == ckm_rsa_pkcs || t == ckm_rsa_pkcs_pss then ok tt else err (ckr err_mechanism_invalid)
key_supports (other_public k) t = err (failed unsupported_key)

unfoldable pub signer_supports : Option Signer → ℕ → Result (Unit {0})
unfolding key_supports public
signer_supports none t = err (ckr err_mechanism_invalid)
signer_supports (some s) t = key_supports (public s) t

unfoldable pub supports : Object → Mechanism → Result (Unit {0})
unfolding signer_supports
supports o m = signer_supports o.priv_key m.typ

-- The loop of `matches`: the first attribute of the template's type decides.
unfoldable pub attributes_match : List Attribute → Attribute → Bool
unfolding value
attributes_match [] tmpl = false
attributes_match (a ∷ attrs) tmpl =
    if not (a.typ == tmpl.typ)
    then attributes_match attrs tmpl
    else bytes_equal (string_of (value a)) (string_of (value tmpl))

unfoldable pub matches : Object → Attribute → Bool
unfolding attributes_match
matches o tmpl = attributes_match o.attributes tmpl

-- The loop of `attributeValue`: `none` is its `false`.
unfoldable pub find_attribute : List Attribute → ℕ → Option Attribute
find_attribute [] t = none
find_attribute (a ∷ attrs) t = if a.typ == t then some a else find_attribute attrs t

unfoldable pub attribute_value : Object → ℕ → Option Attribute
unfolding find_attribute
attribute_value o t = find_attribute o.attributes t

unfoldable pub set_id : Object → ℕ → Object
set_id o id = record o { id = id }

unfoldable pub set_label : Object → Bytes → Object
set_label o label = record o {
  attributes = o.attributes ++ bytes_attribute attribute_label (some label) ∷ [];
}

-- One round of `setAttributes`: the first attribute of the same type is replaced.
unfoldable pub put_attribute : List Attribute → Attribute → List Attribute
put_attribute [] a = a ∷ []
put_attribute (x ∷ attrs) a = if x.typ == a.typ then a ∷ attrs else x ∷ put_attribute attrs a

unfoldable pub put_attributes : List Attribute → List Attribute → List Attribute
unfolding put_attribute
put_attributes attrs [] = attrs
put_attributes attrs (a ∷ tmpl) = put_attributes (put_attribute attrs a) tmpl

unfoldable pub set_attributes : Object → List Attribute → Object
unfolding put_attributes
set_attributes o tmpl = record o { attributes = put_attributes o.attributes tmpl }

unfoldable pub set_ckaid : Object → Option Bytes → Object
unfolding set_attributes
set_ckaid o id = set_attributes o (bytes_attribute attribute_id id ∷ [])

-- The loop of `SetDerive`: the first CKA_DERIVE is made true, or one is appended.
unfoldable pub put_derive : List Attribute → List Attribute
put_derive [] = byte_attribute attribute_derive 1 ∷ []
put_derive (a ∷ attrs) =
    if a.typ == attribute_derive
    then record a { byte_value = some 1 } ∷ attrs
    else a ∷ put_derive attrs

unfoldable pub set_derive : Object → Object
unfolding put_derive
set_derive o = record o { attributes = put_derive o.attributes }
