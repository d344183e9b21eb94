-- ===== src/ExampleServer/Withheld.antt =====
-- What the clients of example/example-p11-kit-server/main.go can read of its private keys.
use go_p11_kit.Base.{
  some-injective, ℕ, ◌≡◌, refl, sym, ◌∙◌, subst, true, Option, none, some, List, [], ◌∷◌, ◌++◌,
  ◌==◌, All, All-append, arith, Bool-cases, inl, inr, contains,
}
use go_p11_kit.Result.{ok, ok-injective}
use go_p11_kit.Wire.Buffer.{Bytes}
use go_p11_kit.Wire.Attributes.{Attribute}
use go_p11_kit.Wire.Body.Read.{AttributeTemplate}
use go_p11_kit.Token.Keys.{Signer}
use go_p11_kit.Token.Object.{Object, find_attribute, attribute_value}
use go_p11_kit.Token.Create.Sensitive.{IsWithheld}
use go_p11_kit.Server.Slot.{Slot}
use go_p11_kit.Server.Session.{Session, find_object, template_values, attribute_values, or_empty}
use go_p11_kit.Server.State.{Conn, find_slot, find_session}
use go_p11_kit.Server.Invariant.{Inv, IsServed-find}
use go_p11_kit.Server.Loop.{World}
use go_p11_kit.Server.System.{System, view, Reach, All-split}
use go_p11_kit.Server.System.Objects.{Reach-session_object}
use go_p11_kit.ExampleServer.Outside.{Outside, done}
use go_p11_kit.ExampleServer.Main.{Flags, load, slot, listening, main}
use mathlib.Core.List.{Forall₂}
use go_p11_kit.ExampleServer.Made.{IsCertificateOf, IsPrivateOf, IsPublicOf}
use go_p11_kit.ExampleServer.Loaded.{load_lem}
use go_p11_kit.ExampleServer.Serving.{serving, main-IsServing}

-- An object that holds a private key does not show it.
abbrev Hides : Object → Type 0
Hides o = (k : Signer) → o.priv_key ≡ some k → All IsWithheld o.attributes

none-ne-some : {k : Signer} → none ≡ some k → ⊥
none-ne-some e = cc

-- What each related object has, all of them have.
Forall₂-All :
    {A B : Type 0} (R : A → B → Type 0) (P : B → Type 0)
    → ((a : A) (b : B) → R a b → P b)
    → (xs : List A) (ys : List B) → Forall₂ R xs ys
    → All P ys
Forall₂-All R P each _ _ Forall₂.nil = tt
Forall₂-All R P each _ _ (Forall₂.cons {a = x} {b = y} {l₁ = xs} {l₂ = ys} h hs) =
    (each x y h, Forall₂-All R P each xs ys hs)

no_key-Hides : (o : Object) → o.priv_key ≡ none → Hides o
no_key-Hides o none_kept = λ k e. absurd (none-ne-some (sym none_kept ∙ e))

All-find_object :
    (P : Object → Type 0) (objs : List Object) (id : ℕ) (o : Object)
    → All P objs
    → find_object objs id ≡ ok o
    → P o
unfolding find_object
All-find_object P [] id o h e = cc
All-find_object P (x ∷ objs) id o h e = elim (Bool-cases (x.id == id)) [
  | inl same ↦ subst P (ok-injective (rw same at e)) h.0
  | inr differs ↦ All-find_object P objs id o h.1 (rw differs at e)
]

find_attribute-IsWithheld :
    (attrs : List Attribute) (t : ℕ) (a : Attribute)
    → All IsWithheld attrs
    → find_attribute attrs t ≡ some a
    → IsWithheld a
unfolding find_attribute
find_attribute-IsWithheld [] t a h e = cc
find_attribute-IsWithheld (x ∷ attrs) t a h e = elim (Bool-cases (x.typ == t)) [
  | inl same ↦ subst IsWithheld (some-injective (rw same at e)) h.0
  | inr differs ↦ find_attribute-IsWithheld attrs t a h.1 (rw differs at e)
]

-- What C_GetAttributeValue answers of such attributes.
template_values-IsWithheld :
    (o : Object) (tmpl : List AttributeTemplate)
    → All IsWithheld o.attributes
    → All IsWithheld (template_values o tmpl).0
unfolding template_values attribute_value
template_values-IsWithheld o [] h = tt
template_values-IsWithheld o (t ∷ tmpl) h =
    (answered (find_attribute o.attributes t.typ) refl, template_values-IsWithheld o tmpl h)
  where
    answered :
        (found : Option Attribute)
        → find_attribute o.attributes t.typ ≡ found
        → IsWithheld (or_empty found t.typ)
    answered none e = λ secret. refl
    answered (some a) e = find_attribute-IsWithheld o.attributes t.typ a h e

-- The objects of the files hide their private keys.
load-Hides :
    (out : Outside) (flags : Flags) (objs : List Object)
    → load out flags ≡ done objs
    → All Hides objs
load-Hides out flags objs h =
    let (certs, privs, pubs, same, h1, h2, h3) = load_lem out flags objs h in
    subst (All Hides) same (
      All-append Hides (certs ++ privs) pubs
        (All-append Hides certs privs
          (Forall₂-All (IsCertificateOf out) Hides of_certificate flags.cert_files certs h1)
          (Forall₂-All (IsPrivateOf out) Hides of_private flags.priv_files privs h2))
        (Forall₂-All (IsPublicOf out) Hides of_public flags.pub_files pubs h3))
  where
    of_certificate : (f : Bytes) (o : Object) → IsCertificateOf out f o → Hides o
    of_certificate f o (cert, held, (shown, none_pub, none_priv)) = no_key-Hides o none_priv

    of_private : (f : Bytes) (o : Object) → IsPrivateOf out f o → Hides o
    of_private f o (s, held, (kept, (sensitive, extractable, withheld), derives)) = λ k e. withheld

    of_public : (f : Bytes) (o : Object) → IsPublicOf out f o → Hides o
    of_public f o (key, held, (kept, none_kept)) = no_key-Hides o none_kept

one_id : (id : ℕ) → contains (1 ∷ []) id ≡ true → id ≡ 1
one_id id h = ground arith

abbrev Q : List Slot → Conn → Type 0
Q slots c = Inv (1 ∷ []) (view slots c)

of_slot : (objs : List Object) (id : ℕ) → id ≡ 1 → find_slot (slot objs ∷ []) id ≡ some (slot objs)
unfolding find_slot
of_slot objs id e = rw e refl

-- If `main` comes to listen, then in every session of every connection, however the requests follow one
-- another, the object of a private key's file is read under its ID, whatever a template asks of it, and
-- of what is read an attribute that is a secret part of a key has no value.
pub main-IsWithheld :
    (out : Outside) (w : World) (stdin : Bytes) (flags : Flags) (path : Bytes) (objs : List Object)
    (t : System)
    → main out w stdin flags ≡ listening path objs
    → Reach (serving objs) t
    → (front back : List Conn) (c : Conn) → t.connections ≡ front ++ c ∷ back
    → (session_id : ℕ) (d : Session) → find_session c.sessions session_id ≡ some d
    → (id : ℕ) (o : Object) (k : Signer) → find_object objs id ≡ ok o
    → o.priv_key ≡ some k
    → (tmpl : List AttributeTemplate)
    → (attribute_values d id tmpl ≡ ok (template_values o tmpl))
      × All IsWithheld (template_values o tmpl).0
unfolding attribute_values
main-IsWithheld out w stdin flags path objs t h r front back c among session_id d opened id o k held
      priv tmpl =
    let (loaded, serves) = main-IsServing out w stdin flags path objs t h r in
    let (fs, (own, bs)) = All-split (Q t.slots) front back c (rw among at serves.each) in
    let (small, known) = IsServed-find (1 ∷ []) c.sessions session_id d own.served opened in
    let found =
      Reach-session_object r refl front back c among session_id d opened (slot objs)
        (of_slot objs d.slot_id (one_id d.slot_id known)) refl id o held in
    let withheld = All-find_object Hides objs id o (load-Hides out flags objs loaded) held k priv in
    (rw found refl, template_values-IsWithheld o tmpl withheld)
