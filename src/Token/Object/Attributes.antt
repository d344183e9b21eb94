-- ===== src/Token/Object/Attributes.antt =====
-- What `attributeValue` and `matches` see of an object after its attributes are set.
use go_p11_kit.Base.{
  ℕ, ◌≡◌, refl, ◌∙◌, ap, Bool, false, Option, none, some, List, [], ◌∷◌, ◌++◌, ◌==◌, arith,
  if◌then◌else◌, bytes_equal,
}
use go_p11_kit.Codes.Attributes.{attribute_label}
use go_p11_kit.Wire.Buffer.{Bytes}
use go_p11_kit.Wire.Attributes.{Attribute, bytes_attribute, value}
use go_p11_kit.Wire.Body.Read.{string_of}
use go_p11_kit.Token.Object.{
  Object, attributes_match, matches, find_attribute, attribute_value, put_attribute, put_attributes,
  set_attributes, set_label,
}

find_attribute-put_attribute :
    (attrs : List Attribute) (a : Attribute) (t : ℕ)
    → find_attribute (put_attribute attrs a) t
      ≡ (if a.typ == t then some a else find_attribute attrs t)
unfolding find_attribute put_attribute
find_attribute-put_attribute [] a t = refl
find_attribute-put_attribute (x ∷ attrs) a t =
    ground (arith, find_attribute-put_attribute attrs a t)

-- The last attribute of a template that has the type, or else what was there.
abbrev pub overridden : List Attribute → ℕ → Option Attribute → Option Attribute
overridden [] t old = old
overridden (a ∷ tmpl) t old = overridden tmpl t (if a.typ == t then some a else old)

find_attribute-put_attributes :
    (attrs tmpl : List Attribute) (t : ℕ)
    → find_attribute (put_attributes attrs tmpl) t ≡ overridden tmpl t (find_attribute attrs t)
unfolding put_attributes
find_attribute-put_attributes attrs [] t = refl
find_attribute-put_attributes attrs (a ∷ tmpl) t =
    find_attribute-put_attributes (put_attribute attrs a) tmpl t
    ∙ ap (overridden tmpl t) (find_attribute-put_attribute attrs a t)

-- After `setAttributes`, `attributeValue` finds the last attribute of the template that has the
-- type asked for, and where the template has none, what it found before.
pub attribute_value-set_attributes :
    (o : Object) (tmpl : List Attribute) (t : ℕ)
    → attribute_value (set_attributes o tmpl) t ≡ overridden tmpl t (attribute_value o t)
unfolding attribute_value set_attributes
attribute_value-set_attributes o tmpl t = find_attribute-put_attributes o.attributes tmpl t

abbrev pub match_value : Option Attribute → Attribute → Bool
match_value none tmpl = false
match_value (some a) tmpl = bytes_equal (string_of (value a)) (string_of (value tmpl))

attributes_match_lem :
    (attrs : List Attribute) (tmpl : Attribute)
    → attributes_match attrs tmpl ≡ match_value (find_attribute attrs tmpl.typ) tmpl
unfolding attributes_match find_attribute
attributes_match_lem [] tmpl = refl
attributes_match_lem (a ∷ attrs) tmpl = ground (arith, attributes_match_lem attrs tmpl)

-- An object matches a template's attribute exactly when `attributeValue` finds one of its type and
-- the encoded values are equal, a missing value counting as an empty one.
pub matches-attribute_value :
    (o : Object) (tmpl : Attribute) → matches o tmpl ≡ match_value (attribute_value o tmpl.typ) tmpl
unfolding matches attribute_value
matches-attribute_value o tmpl = attributes_match_lem o.attributes tmpl

abbrev pub or_label : Option Attribute → Bytes → Option Attribute
or_label none label = some (bytes_attribute attribute_label (some label))
or_label (some a) label = some a

find_attribute-append_label :
    (attrs : List Attribute) (label : Bytes)
    → find_attribute (attrs ++ bytes_attribute attribute_label (some label) ∷ []) attribute_label
      ≡ or_label (find_attribute attrs attribute_label) label
unfolding find_attribute
find_attribute-append_label [] label = refl
find_attribute-append_label (a ∷ attrs) label =
    ground (arith, find_attribute-append_label attrs label)

-- The first `SetLabel` of an object decides its CKA_LABEL: where `attributeValue` finds a label, it
-- finds the same after `SetLabel`, and otherwise the new one.
pub attribute_value-set_label :
    (o : Object) (label : Bytes)
    → attribute_value (set_label o label) attribute_label
      ≡ or_label (attribute_value o attribute_label) label
unfolding attribute_value set_label
attribute_value-set_label o label = find_attribute-append_label o.attributes label
