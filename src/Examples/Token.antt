-- ===== src/Examples/Token.antt =====
-- The theorems on objects and keys, at concrete values.
use go_p11_kit.Base.{
  ℕ, ◌+◌, ◌*◌, ◌<◌, ◌≤◌, ◌≡◌, ◌==◌, if◌then◌else◌, refl, none, some, List, [], ◌∷◌, ◌++◌, length,
  take, drop, arith, true,
}
use go_p11_kit.Base.Int.{pos}
use go_p11_kit.Codes.Attributes.{attribute_class, attribute_label, attribute_derive}
use go_p11_kit.Codes.Mechanisms.{cko_private_key, cko_public_key}
use go_p11_kit.Result.{ok}
use go_p11_kit.Wire.Buffer.{Bytes, be_value}
use go_p11_kit.Wire.Attributes.{Attribute, ulong_attribute, bytes_attribute}
use go_p11_kit.Token.Keys.{
  p521, order_bits, Signer, other_private, rsa_public, ecdsa_public, sha256, hash_size,
}
use go_p11_kit.Token.Object.{
  Object, matches, attribute_value, set_attributes, set_label, set_derive,
}
use go_p11_kit.Token.Object.Attributes.{
  overridden, or_label, attribute_value-set_label, attribute_value-set_attributes, match_value,
  matches-attribute_value,
}
use go_p11_kit.Token.Sign.{fill_bytes, raw_signature}
use go_p11_kit.Token.Sign.Width.{raw_signature_lem}
use go_p11_kit.Token.Derive.{x963_kdf, resize_secret, check_derive}
use go_p11_kit.Token.Derive.Permission.{derivable, set_derive_lem}
use go_p11_kit.Token.Derive.Kdf.{key_stream, x963_kdf_lem}
use go_p11_kit.Token.Derive.Resize.{resize_secret_lem}
use go_p11_kit.Token.Create.{
  common_attributes, private_attributes, rsa_attributes, new_private_key_object,
}
use go_p11_kit.Token.Create.Sensitive.{IsGuarded, new_private_key_object-IsGuarded}
use go_p11_kit.Examples.{test_env, private_object}

abbrev relabelling : List Attribute
relabelling =
    bytes_attribute attribute_label (some (97 ∷ []))
    ∷ ulong_attribute attribute_class cko_public_key
    ∷ []

attribute_value-set_attributes_example :
    attribute_value (set_attributes private_object relabelling) attribute_class
    ≡ overridden relabelling attribute_class (attribute_value private_object attribute_class)
attribute_value-set_attributes_example =
    attribute_value-set_attributes private_object relabelling attribute_class

matches-attribute_value_example :
    matches private_object (ulong_attribute attribute_class cko_private_key)
    ≡ match_value
        (attribute_value private_object attribute_class)
        (ulong_attribute attribute_class cko_private_key)
matches-attribute_value_example =
    matches-attribute_value private_object (ulong_attribute attribute_class cko_private_key)

abbrev test_signature : Bytes
test_signature = fill_bytes 66 5 ++ fill_bytes 66 7

test_signature_eq : raw_signature (ecdsa_public p521 1 2) (5, 7) ≡ ok test_signature
unfolding raw_signature
test_signature_eq = refl

raw_signature_lem_example :
    (w : ℕ) × (order_bits p521 ≤ 8 * w)
    × (8 * w < order_bits p521 + 8)
    × (length test_signature ≡ 2 * w)
    × (be_value 0 (take w test_signature) ≡ 5)
    × (be_value 0 (drop w test_signature) ≡ 7)
raw_signature_lem_example = raw_signature_lem p521 1 2 5 7 test_signature test_signature_eq

test_env-sized : (b : Bytes) → length (test_env.hash sha256 b) ≡ hash_size sha256
unfolding hash_size
test_env-sized b = refl

sha256-positive : 0 < hash_size sha256
unfolding hash_size
sha256-positive = omega arith

x963_kdf_lem_example :
    (x963_kdf test_env (1 ∷ []) sha256 (2 ∷ []) (pos 40)
      ≡ ok (take 40 (key_stream test_env sha256 (1 ∷ []) (2 ∷ []) 40 1)))
    × (length (take 40 (key_stream test_env sha256 (1 ∷ []) (2 ∷ []) 40 1)) ≡ 40)
x963_kdf_lem_example =
    x963_kdf_lem test_env sha256 (1 ∷ []) (2 ∷ []) 40 test_env-sized sha256-positive (omega arith)

resize_secret_lem_example :
    (out : Bytes) × (resize_secret (3 ∷ 1 ∷ []) 4 ≡ ok out)
    × (length out ≡ 4)
    × (2 ≤ 4 → be_value 0 out ≡ be_value 0 (3 ∷ 1 ∷ []))
    × (4 < 2 → out ≡ take 4 (3 ∷ 1 ∷ []))
resize_secret_lem_example = resize_secret_lem (3 ∷ 1 ∷ []) 4 (omega arith)

abbrev test_signer : Signer
test_signer = other_private 9 (rsa_public 3233 17)

abbrev test_key_object : Object
test_key_object = record {
  id = 41;
  attributes =
      (common_attributes (48 ∷ []) true ++ private_attributes true) ++ rsa_attributes 3233 17 true;
  pub_key = none;
  priv_key = some test_signer;
}

test_key_object_eq : new_private_key_object test_env 0 (some test_signer) ≡ ok test_key_object
unfolding new_private_key_object
test_key_object_eq = refl

new_private_key_object-IsGuarded_example :
    IsGuarded test_key_object.attributes × (test_key_object.priv_key ≡ some test_signer)
new_private_key_object-IsGuarded_example =
    new_private_key_object-IsGuarded test_env 0 test_signer test_key_object test_key_object_eq

attribute_value-set_label_example :
    attribute_value (set_label private_object (97 ∷ [])) attribute_label
    ≡ or_label (attribute_value private_object attribute_label) (97 ∷ [])
attribute_value-set_label_example = attribute_value-set_label private_object (97 ∷ [])

set_derive_lem_example :
    (check_derive (set_derive private_object) ≡ ok tt)
    × ((t : ℕ)
        → attribute_value (set_derive private_object) t ≡ (
            if attribute_derive == t
            then some (derivable (attribute_value private_object attribute_derive))
            else attribute_value private_object t))
set_derive_lem_example = set_derive_lem private_object
