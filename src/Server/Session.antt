-- ===== src/Server/Session.antt =====
-- The `session` of p11kit/p11kit.go and its methods.
pub mod Find
use go_p11_kit.Base.{
  ℕ, Bool, true, false, ◌&&◌, Option, none, some, List, [], ◌∷◌, ◌++◌, ltb, ◌==◌, not,
  if◌then◌else◌, length, take, drop,
}
use go_p11_kit.Codes.Errors.{err_object_handle_invalid, err_mechanism_invalid}
use go_p11_kit.Codes.Mechanisms.{ckm_ecdh1_derive}
use go_p11_kit.Result.{Result, ok, err, ckr, ◌>>=◌}
use go_p11_kit.Wire.Buffer.{Bytes}
use go_p11_kit.Wire.Attributes.{Attribute, empty_attribute}
use go_p11_kit.Wire.Body.Read.{AttributeTemplate}
use go_p11_kit.Wire.Mechanisms.{Mechanism, zero_mechanism}
use go_p11_kit.Token.Object.{Object, zero_object, matches, attribute_value}
use go_p11_kit.Token.Derive.{derive_ecdh}
use go_p11_kit.Token.Env.{Env}

pub record Session : Type 0 where
  pub objects : List Object
  pub find_matches : List ℕ
  pub sign_mechanism : Mechanism
  pub sign_object : Object
  pub sign_data : Bytes
  pub slot_id : ℕ

-- `&session{objects: objects, slotID: slotID}`
unfoldable pub open_session : List Object → ℕ → Session
open_session objects slot_id = record {
  objects = objects;
  find_matches = [];
  sign_mechanism = zero_mechanism;
  sign_object = zero_object;
  sign_data = [];
  slot_id = slot_id;
}

unfoldable pub find_object : List Object → ℕ → Result Object
find_object [] id = err (ckr err_object_handle_invalid)
find_object (o ∷ objects) id = if o.id == id then ok o else find_object objects id

unfoldable pub session_object : Session → ℕ → Result Object
unfolding find_object
session_object s id = find_object s.objects id

abbrev pub or_empty : Option Attribute → ℕ → Attribute
or_empty none t = empty_attribute t
or_empty (some a) t = a

abbrev is_some : Option Attribute → Bool
is_some none = false
is_some (some a) = true

-- The loop of the session's `attributeValue`: the values, and whether every type was valid.
unfoldable pub template_values : Object → List AttributeTemplate → List Attribute × Bool
unfolding attribute_value
template_values o [] = ([], true)
template_values o (t ∷ tmpl) =
    let (attrs, all_valid) = template_values o tmpl in
    let found = attribute_value o t.typ in
    (or_empty found t.typ ∷ attrs, is_some found && all_valid)

unfoldable pub attribute_values :
    Session → ℕ → List AttributeTemplate → Result (List Attribute × Bool)
unfolding session_object template_values
attribute_values s id tmpl = do o ← session_object s id; ok (template_values o tmpl)

unfoldable pub derive : Env → Mechanism → Object → List Attribute → Result Object
unfolding derive_ecdh
derive env m base tmpl =
    if m.typ == ckm_ecdh1_derive
    then derive_ecdh env m base tmpl
    else err (ckr err_mechanism_invalid)

-- The inner loop of `find`: an attribute that does not match goes on with the next object.
unfoldable pub matches_all : Object → List Attribute → Bool
unfolding matches
matches_all o [] = true
matches_all o (a ∷ tmpl) = if not (matches o a) then false else matches_all o tmpl

-- The outer loop of `find`, over the matches that are already there.
unfoldable pub append_matches : List Object → List Attribute → List ℕ → List ℕ
unfolding matches_all
append_matches [] tmpl found = found
append_matches (o ∷ objects) tmpl found =
    append_matches objects tmpl (if matches_all o tmpl then found ++ o.id ∷ [] else found)

unfoldable pub find : Session → List Attribute → Session
unfolding append_matches
find s tmpl = record s { find_matches = append_matches s.objects tmpl s.find_matches }

-- At most `max` matches, and the session that holds the others.
unfoldable pub find_next : Session → ℕ → List ℕ × Session
find_next s max =
    if ltb max (length s.find_matches)
    then (take max s.find_matches, record s { find_matches = drop max s.find_matches })
    else (s.find_matches, record s { find_matches = [] })
