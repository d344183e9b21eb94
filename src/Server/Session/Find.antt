-- ===== src/Server/Session/Find.antt =====
-- `find` and `findNext` of p11kit/p11kit.go, and the IDs of the objects that match a template.
use go_p11_kit.Base.{
  ℕ, ◌≡◌, refl, Bool, true, ◌&&◌, ap, sym, ◌∙◌, List, [], ◌∷◌, ◌++◌, ltb, if◌then◌else◌, length,
  take-append-drop, length-take, append-nil, append_assoc, arith, Bool-cases, inl, inr, min,
}
use go_p11_kit.Wire.Attributes.{Attribute}
use go_p11_kit.Token.Object.{Object, attribute_value}
use go_p11_kit.Token.Object.Attributes.{match_value, matches-attribute_value}
use go_p11_kit.Server.Session.{Session, matches_all, append_matches, find, find_next}

-- For every attribute of the template, the first attribute of the object that has its type has an
-- equal encoded value.
abbrev pub satisfies : Object → List Attribute → Bool
satisfies o [] = true
satisfies o (a ∷ tmpl) = match_value (attribute_value o a.typ) a && satisfies o tmpl

-- The IDs of the objects that satisfy a template, in order.
abbrev pub matching : List Object → List Attribute → List ℕ
matching [] tmpl = []
matching (o ∷ objects) tmpl =
    let rest = matching objects tmpl in if satisfies o tmpl then o.id ∷ rest else rest

matches_all-satisfies : (o : Object) (tmpl : List Attribute) → matches_all o tmpl ≡ satisfies o tmpl
unfolding matches_all
matches_all-satisfies o [] = refl
matches_all-satisfies o (a ∷ tmpl) = elim (Bool-cases (match_value (attribute_value o a.typ) a)) [
  | inl yes' ↦ rw (matches-attribute_value o a, yes') (matches_all-satisfies o tmpl)
  | inr no' ↦ rw (matches-attribute_value o a, no') refl
]

append_matches_lem :
    (objects : List Object) (tmpl : List Attribute) (found : List ℕ)
    → append_matches objects tmpl found ≡ found ++ matching objects tmpl
unfolding append_matches
append_matches_lem [] tmpl found = sym (append-nil found)
append_matches_lem (o ∷ objects) tmpl found = elim (Bool-cases (satisfies o tmpl)) [
  | inl yes' ↦
      rw (matches_all-satisfies o tmpl, yes')
        (append_matches_lem objects tmpl (found ++ o.id ∷ []) ∙ append_assoc found (o.id ∷ []) _)
  | inr no' ↦ rw (matches_all-satisfies o tmpl, no') (append_matches_lem objects tmpl found)
]

-- `find` appends, in their order, the IDs of exactly the objects in which `attributeValue` finds, for
-- every attribute of the template, one of its type with an equal encoded value, a missing value counting
-- as an empty one; it appends them to the matches that an earlier search has left.
pub find_matches-find :
    (s : Session) (tmpl : List Attribute)
    → (find s tmpl).find_matches ≡ s.find_matches ++ matching s.objects tmpl
unfolding find
find_matches-find s tmpl = append_matches_lem s.objects tmpl s.find_matches

-- The answers to a run of `findNext` calls, one after the other, and the session they leave.
abbrev pub find_run : Session → List ℕ → List ℕ × Session
find_run s [] = ([], s)
find_run s (max ∷ counts) =
    let (ids, s') = find_next s max in let (more, s'') = find_run s' counts in (ids ++ more, s'')

find_next_lem :
    (s : Session) (max : ℕ)
    → ((find_next s max).0 ++ (find_next s max).1.find_matches ≡ s.find_matches)
      × (length (find_next s max).0 ≡ min max (length s.find_matches))
unfolding find_next
find_next_lem s max = elim (Bool-cases (ltb max (length s.find_matches))) [
  | inl more ↦ rw more (take-append-drop max s.find_matches, length-take max s.find_matches)
  | inr last ↦ rw last (append-nil s.find_matches, ground arith)
]

-- Whatever counts a client asks for, the IDs it gets and the ones still held make up the matches:
-- none is lost, repeated or put out of order.
pub find_run_lem :
    (s : Session) (counts : List ℕ)
    → (find_run s counts).0 ++ (find_run s counts).1.find_matches ≡ s.find_matches
find_run_lem s [] = refl
find_run_lem s (max ∷ counts) =
    append_assoc (find_next s max).0 _ _
    ∙ ap (◌++◌ (find_next s max).0) (find_run_lem (find_next s max).1 counts)
    ∙ (find_next_lem s max).0
