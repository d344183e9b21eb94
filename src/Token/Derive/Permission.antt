-- ===== src/Token/Derive/Permission.antt =====
-- `SetDerive` and the guard of `deriveECDH` on CKA_DERIVE, both of p11kit/attribute.go.
use go_p11_kit.Base.{
  ℕ, ◌≡◌, refl, Option, none, some, List, [], ◌∷◌, ◌==◌, if◌then◌else◌, true, arith,
}
use go_p11_kit.Codes.Attributes.{attribute_derive}
use go_p11_kit.Result.{ok}
use go_p11_kit.Wire.Attributes.{Attribute, byte_attribute}
use go_p11_kit.Token.Object.{Object, find_attribute, attribute_value, put_derive, set_derive}
use go_p11_kit.Token.Derive.{check_derive, is_true}

-- The attribute that `SetDerive` leaves in place of an old one.
abbrev pub derivable : Option Attribute → Attribute
derivable none = byte_attribute attribute_derive 1
derivable (some a) = record a { byte_value = some 1 }

derivable-is_true : (found : Option Attribute) → is_true (derivable found).byte_value ≡ true
unfolding is_true
derivable-is_true none = refl
derivable-is_true (some a) = refl

pub find_attribute-put_derive :
    (attrs : List Attribute) (t : ℕ)
    → find_attribute (put_derive attrs) t ≡ (
        if attribute_derive == t
        then some (derivable (find_attribute attrs attribute_derive))
        else find_attribute attrs t)
unfolding find_attribute put_derive
find_attribute-put_derive [] t = refl
find_attribute-put_derive (a ∷ attrs) t = ground (arith, find_attribute-put_derive attrs t)

-- After `SetDerive` an object passes the guard of `deriveECDH`, whatever its attributes were, and
-- `attributeValue` finds what it found before for every type but CKA_DERIVE.
pub set_derive_lem :
    (o : Object)
    → (check_derive (set_derive o) ≡ ok tt)
      × ((t : ℕ)
          → attribute_value (set_derive o) t ≡ (
              if attribute_derive == t
              then some (derivable (attribute_value o attribute_derive))
              else attribute_value o t))
unfolding check_derive set_derive attribute_value
set_derive_lem o = (
  rw (
    find_attribute-put_derive o.attributes attribute_derive,
    derivable-is_true (find_attribute o.attributes attribute_derive),
  ),
  find_attribute-put_derive o.attributes,
)
