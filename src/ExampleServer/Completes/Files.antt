-- ===== src/ExampleServer/Completes/Files.antt =====
-- The loops over files of example/example-p11-kit-server/main.go, on files that it can read.
use go_p11_kit.Base.{
  ◌≡◌, refl, Bool, true, false, List, [], ◌∷◌, ◌++◌, length, if◌then◌else◌, All, Bool-cases, inl,
  inr,
}
use go_p11_kit.Wire.Buffer.{Bytes}
use go_p11_kit.Token.Keys.{PublicKey, Signer, public}
use go_p11_kit.Token.Object.{Object, set_derive}
use go_p11_kit.Token.Create.{Certificate, is_key}
use go_p11_kit.ExampleServer.Outside.{
  Block, signer, Outside, Kind, certificate, private_key, public_key, done,
}
use go_p11_kit.ExampleServer.Keys.{is_ecdsa, priv_equal, pub_equal}
use go_p11_kit.ExampleServer.Files.{
  load_block, attach, load_certificates, load_private_key, load_private_keys, load_public_key,
  load_public_keys,
}
use go_p11_kit.ExampleServer.Held.{
  Holds, HoldsCertificate, HoldsPrivate, HoldsPublic, EncodesPrivate-parse, EncodesPublic-parse,
}
use go_p11_kit.ExampleServer.Main.{Flags, load}
use go_p11_kit.ExampleServer.Completes.{
  Works, IsSupported, new_private_key_object-ok, new_public_key_object-ok,
  new_x509_certificate_object-ok, set_certificate-ok,
}

is_key-set_derive :
    (b : Bool) (o : Object)
    → is_key o.pub_key o.priv_key ≡ true
    → is_key (if b then set_derive o else o).pub_key (if b then set_derive o else o).priv_key ≡ true
unfolding set_derive
is_key-set_derive true o h = h
is_key-set_derive false o h = h

module _ (out : Outside) where
  abbrev pub IsCertificateFile : Bytes → Type 0
  IsCertificateFile f = (cert : Certificate) × HoldsCertificate out f cert

  abbrev pub IsPrivateFile : Bytes → Type 0
  IsPrivateFile f = (s : Signer) × HoldsPrivate out f s × IsSupported out.env (public s)

  abbrev pub IsPublicFile : Bytes → Type 0
  IsPublicFile f = (k : PublicKey) × HoldsPublic out f k × IsSupported out.env k

  load_block-done :
      (kind : Kind) (f : Bytes) (b : Block) → Holds out f b → load_block out kind f ≡ done b
  unfolding load_block
  load_block-done kind f b (text, readable, decoded) = rw (readable, decoded) refl

  module _ (w : Works out.env) where
    attach-done :
        (kind : Kind) (equals : PublicKey → Bool) (certs : List Certificate) (o : Object)
        → is_key o.pub_key o.priv_key ≡ true
        → (o' : Object) × (attach out kind equals certs o ≡ done o')
    unfolding attach
    attach-done kind equals [] o h = (o, refl)
    attach-done kind equals (cert ∷ certs) o h = elim (Bool-cases (equals cert.public_key)) [
      | inl equal ↦
          let (o', e, h') = set_certificate-ok out.env w o cert h in
          rw (equal, e) (attach-done kind equals certs o' h')
      | inr differs ↦ rw differs (attach-done kind equals certs o h)
    ]

    load_private_key-done :
        (certs : List Certificate) (objs : List Object) (f : Bytes)
        → IsPrivateFile f
        → (o : Object) × (load_private_key out certs objs f ≡ done o)
    unfolding load_private_key set_derive
    load_private_key-done certs objs f (s, (b, held, encoded), supported) =
        let (o, e, h) = new_private_key_object-ok out.env w (length objs) s supported in
        rw (load_block-done private_key f b held, EncodesPrivate-parse out b (signer s) encoded, e)
          (attach-done private_key (priv_equal out (signer s)) certs
            (if is_ecdsa (signer s) then set_derive o else o)
            (is_key-set_derive (is_ecdsa (signer s)) o h))

    load_public_key-done :
        (certs : List Certificate) (objs : List Object) (f : Bytes)
        → IsPublicFile f
        → (o : Object) × (load_public_key out certs objs f ≡ done o)
    unfolding load_public_key
    load_public_key-done certs objs f (k, (b, held, encoded), supported) =
        let (o, e, h) = new_public_key_object-ok out.env w (length objs) k supported in
        rw (load_block-done public_key f b held, EncodesPublic-parse out b k encoded, e)
          (attach-done public_key (pub_equal out k) certs o h)

    load_certificates-done :
        (files : List Bytes) (certs : List Certificate) (objs : List Object)
        → All IsCertificateFile files
        → (r : List Certificate × List Object) × (load_certificates out files certs objs ≡ done r)
    unfolding load_certificates
    load_certificates-done [] certs objs hs = (_, refl)
    load_certificates-done (f ∷ files) certs objs ((cert, (b, held, parsed)), hs) =
        let (o, e) = new_x509_certificate_object-ok out.env w (length objs) cert in
        rw (load_block-done certificate f b held, parsed, e)
          (load_certificates-done files (certs ++ cert ∷ []) (objs ++ o ∷ []) hs)

    load_private_keys-done :
        (certs : List Certificate) (files : List Bytes) (objs : List Object)
        → All IsPrivateFile files
        → (objs' : List Object) × (load_private_keys out certs files objs ≡ done objs')
    unfolding load_private_keys
    load_private_keys-done certs [] objs hs = (_, refl)
    load_private_keys-done certs (f ∷ files) objs (h, hs) =
        let (o, e) = load_private_key-done certs objs f h in
        rw e (load_private_keys-done certs files (objs ++ o ∷ []) hs)

    load_public_keys-done :
        (certs : List Certificate) (files : List Bytes) (objs : List Object)
        → All IsPublicFile files
        → (objs' : List Object) × (load_public_keys out certs files objs ≡ done objs')
    unfolding load_public_keys
    load_public_keys-done certs [] objs hs = (_, refl)
    load_public_keys-done certs (f ∷ files) objs (h, hs) =
        let (o, e) = load_public_key-done certs objs f h in
        rw e (load_public_keys-done certs files (objs ++ o ∷ []) hs)

-- The three loops come to their end wherever random numbers can be drawn and the encoder of ASN.1 takes
-- numbers, byte strings and the object identifiers of the named curves, if each file can be read, begins
-- with a PEM block and holds what its flag says: a certificate, or a private or a public key, in the
-- form that the block's type says, that is an RSA key or one of a named curve and that
-- x509.MarshalPKIXPublicKey encodes.
pub load-done :
    (out : Outside) (flags : Flags)
    → Works out.env
    → All (IsCertificateFile out) flags.cert_files
    → All (IsPrivateFile out) flags.priv_files
    → All (IsPublicFile out) flags.pub_files
    → (objs : List Object) × (load out flags ≡ done objs)
unfolding load
load-done out flags w certs privs pubs =
    let ((cs, first), e) = load_certificates-done out w flags.cert_files [] [] certs in
    let (second, f) = load_private_keys-done out w cs flags.priv_files first privs in
    let (objs, g) = load_public_keys-done out w cs flags.pub_files second pubs in
    rw (e, f) (objs, g)
