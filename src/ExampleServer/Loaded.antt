-- ===== src/ExampleServer/Loaded.antt =====
-- The objects that `main` of example/example-p11-kit-server/main.go makes of its files.
use go_p11_kit.Base.{
  ◌≡◌, ap, sym, ◌∙◌, subst, List, [], ◌∷◌, ◌++◌, length, append_assoc, append-nil,
}
use go_p11_kit.Wire.Buffer.{Bytes}
use go_p11_kit.Token.Object.{Object}
use go_p11_kit.Token.Create.{Certificate, new_x509_certificate_object}
use go_p11_kit.ExampleServer.Outside.{
  Outside, certificate, parsing, creating, Outcome, fatal, done, or_fatal, bind_inv,
}
use go_p11_kit.ExampleServer.Files.{
  fatal_on, load_block, load_certificates, load_private_key, load_private_keys, load_public_key,
  load_public_keys,
}
use go_p11_kit.ExampleServer.Attached.{fatal_on_inv}
use go_p11_kit.ExampleServer.Main.{Flags, load}
use go_p11_kit.ExampleServer.Held.{HoldsCertificate, load_block_inv, or_fatal_inv}
use mathlib.Core.List.{Forall₂}
use go_p11_kit.ExampleServer.Made.{
  IsCertificateOf, IsPrivateOf, IsPublicOf, load_private_key-IsPrivateOf,
  load_public_key-IsPublicOf, new_x509_certificate_object-IsCertificate,
}

-- One object more for each file, in order and in the relation to it.
abbrev Extends : (Bytes → Object → Type 0) → List Bytes → List Object → List Object → Type 0
Extends R files objs objs' = (more : List Object) × (objs ++ more ≡ objs') × Forall₂ R files more

module _ (R : Bytes → Object → Type 0) where
  Extends-none : (objs : List Object) → Extends R [] objs objs
  Extends-none objs = ([], append-nil objs, Forall₂.nil)

  Extends-one :
      (f : Bytes) (files : List Bytes) (objs objs' : List Object) (o : Object)
      → R f o
      → Extends R files (objs ++ o ∷ []) objs'
      → Extends R (f ∷ files) objs objs'
  Extends-one f files objs objs' o h (more, same, hs) =
      (o ∷ more, sym (append_assoc objs (o ∷ []) more) ∙ same, Forall₂.cons h hs)

abbrev objects_done : Outcome (List Object) → List Object
objects_done (done objs) = objs
objects_done (fatal f) = []

abbrev second_done : Outcome (List Certificate × List Object) → List Object
second_done (done r) = r.1
second_done (fatal f) = []

module _ (out : Outside) where
  load_private_keys-Extends :
      (certs : List Certificate) (files : List Bytes) (objs objs' : List Object)
      → load_private_keys out certs files objs ≡ done objs'
      → Extends (IsPrivateOf out) files objs objs'
  unfolding load_private_keys
  load_private_keys-Extends certs [] objs objs' h =
      subst (Extends (IsPrivateOf out) [] objs) (ap objects_done h)
        (Extends-none (IsPrivateOf out) objs)
  load_private_keys-Extends certs (f ∷ files) objs objs' h =
      let (o, made, h) = bind_inv (load_private_key out certs objs f) _ objs' h in
      Extends-one (IsPrivateOf out) f files objs objs' o
        (load_private_key-IsPrivateOf out certs objs f o made)
        (load_private_keys-Extends certs files (objs ++ o ∷ []) objs' h)

  load_public_keys-Extends :
      (certs : List Certificate) (files : List Bytes) (objs objs' : List Object)
      → load_public_keys out certs files objs ≡ done objs'
      → Extends (IsPublicOf out) files objs objs'
  unfolding load_public_keys
  load_public_keys-Extends certs [] objs objs' h =
      subst (Extends (IsPublicOf out) [] objs) (ap objects_done h)
        (Extends-none (IsPublicOf out) objs)
  load_public_keys-Extends certs (f ∷ files) objs objs' h =
      let (o, made, h) = bind_inv (load_public_key out certs objs f) _ objs' h in
      Extends-one (IsPublicOf out) f files objs objs' o
        (load_public_key-IsPublicOf out certs objs f o made)
        (load_public_keys-Extends certs files (objs ++ o ∷ []) objs' h)

  load_certificates-Extends :
      (files : List Bytes) (certs : List Certificate) (objs : List Object)
      (r : List Certificate × List Object)
      → load_certificates out files certs objs ≡ done r
      → Extends (IsCertificateOf out) files objs r.1
  unfolding load_certificates
  load_certificates-Extends [] certs objs r h =
      subst (Extends (IsCertificateOf out) [] objs) (ap second_done h)
        (Extends-none (IsCertificateOf out) objs)
  load_certificates-Extends (f ∷ files) certs objs r h =
      let (block, held, h) = bind_inv (load_block out certificate f) _ r h in
      let (cert, parsed, h) =
        bind_inv (or_fatal (out.parse_certificate block.bytes) (parsing certificate f)) _ r h in
      let (o, made, h) =
        bind_inv
          (fatal_on (new_x509_certificate_object out.env (length objs) cert)
            (creating certificate f))
          _ r h in
      let shown =
        new_x509_certificate_object-IsCertificate out.env (length objs) cert o
          (fatal_on_inv _ _ o made) in
      let holds : HoldsCertificate out f cert = (
        block,
        load_block_inv out certificate f block held,
        or_fatal_inv (out.parse_certificate block.bytes) _ cert parsed,
      ) in
      Extends-one (IsCertificateOf out) f files objs r.1 o (cert, holds, shown)
        (load_certificates-Extends files (certs ++ cert ∷ []) (objs ++ o ∷ []) r h)

-- If the three loops come to their end, each file has one object, in the order of the flags. First those
-- of the certificates: the file can be read and begins with a PEM block that holds a certificate, and the
-- object has its raw bytes as CKA_VALUE and holds no key. Then those of the private keys, whatever
-- certificates belong to them: the object keeps the key that the parser for the block's type finds in
-- the file, beside attributes that mark it sensitive and not extractable and do not show a secret part,
-- and the key of an elliptic curve may be used to derive. Then those of the public keys: the object keeps
-- the key that the parser for the block's type finds in the file, and holds no private key.
pub load_lem :
    (out : Outside) (flags : Flags) (objs : List Object)
    → load out flags ≡ done objs
    → (certs privs pubs : List Object) × ((certs ++ privs) ++ pubs ≡ objs)
      × Forall₂ (IsCertificateOf out) flags.cert_files certs
      × Forall₂ (IsPrivateOf out) flags.priv_files privs
      × Forall₂ (IsPublicOf out) flags.pub_files pubs
unfolding load
load_lem out flags objs h =
    let ((cs, first), made, h) = bind_inv (load_certificates out flags.cert_files [] []) _ objs h in
    let (second, more, h) = bind_inv (load_private_keys out cs flags.priv_files first) _ objs h in
    let (certs, e1, h1) = load_certificates-Extends out flags.cert_files [] [] (cs, first) made in
    let (privs, e2, h2) = load_private_keys-Extends out cs flags.priv_files first second more in
    let (pubs, e3, h3) = load_public_keys-Extends out cs flags.pub_files second objs h in
    (certs, privs, pubs, rw (e1, e2, e3), h1, h2, h3)
