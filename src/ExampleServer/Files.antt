-- ===== src/ExampleServer/Files.antt =====
-- The three loops over files of `main` in example/example-p11-kit-server/main.go.
use go_p11_kit.Base.{Bool, List, [], ◌∷◌, ◌++◌, if◌then◌else◌, length, not}
use go_p11_kit.Result
use go_p11_kit.Result.{Result, ok, err}
use go_p11_kit.Wire.Buffer.{Bytes}
use go_p11_kit.Token.Keys.{PublicKey}
use go_p11_kit.Token.Object.{Object, set_derive}
use go_p11_kit.Token.Create.{
  Certificate, new_private_key_object, new_public_key_object, new_x509_certificate_object,
  set_certificate,
}
use go_p11_kit.ExampleServer.Outside.{
  Block, Outside, Kind, certificate, private_key, public_key, Fatal, reading, decoding, parsing,
  creating, attaching, Outcome, fatal, done, ◌>>=◌, or_fatal,
}
use go_p11_kit.ExampleServer.Keys.{
  as_signer, is_ecdsa, parse_private_key, parse_public_key, priv_equal, pub_equal,
}

-- `if err != nil { log.Fatalf(...) }` on a result of the library
abbrev pub fatal_on {ℓ} : {A : Type ℓ} → Result A → (Result.Error → Fatal) → Outcome A
fatal_on (ok a) f = done a
fatal_on (err e) f = fatal (f e)

module _ (out : Outside) where
  -- The first block of a file.
  unfoldable pub load_block : Kind → Bytes → Outcome Block
  load_block kind file = do
    data_read ← or_fatal (out.read_file file) (reading kind file)
    or_fatal (out.pem_decode data_read) (decoding kind file)

  -- The inner loops: the certificates that the key `equals` are set, one after the other.
  unfoldable pub attach : Kind → (PublicKey → Bool) → List Certificate → Object → Outcome Object
  attach kind equals [] o = done o
  attach kind equals (cert ∷ certs) o =
      if not (equals cert.public_key) then attach kind equals certs o else do
        o' ← fatal_on (set_certificate out.env o cert) (attaching kind)
        attach kind equals certs o'

  -- The certificates and the objects so far; each object has drawn one random number.
  unfoldable pub load_certificates :
      List Bytes → List Certificate → List Object → Outcome (List Certificate × List Object)
  unfolding load_block
  load_certificates [] certs objs = done (certs, objs)
  load_certificates (f ∷ files) certs objs = do
    block ← load_block certificate f
    cert ← or_fatal (out.parse_certificate block.bytes) (parsing certificate f)
    obj ← fatal_on (new_x509_certificate_object out.env (length objs) cert) (creating certificate f)
    load_certificates files (certs ++ cert ∷ []) (objs ++ obj ∷ [])

  -- One round of the second loop.
  unfoldable pub load_private_key : List Certificate → List Object → Bytes → Outcome Object
  unfolding load_block parse_private_key attach
  load_private_key certs objs f = do
    block ← load_block private_key f
    priv ← or_fatal (parse_private_key out block) (parsing private_key f)
    obj ←
        fatal_on (new_private_key_object out.env (length objs) (as_signer priv))
          (creating private_key f)
    attach private_key (priv_equal out priv) certs (if is_ecdsa priv then set_derive obj else obj)

  unfoldable pub load_private_keys :
      List Certificate → List Bytes → List Object → Outcome (List Object)
  unfolding load_private_key
  load_private_keys certs [] objs = done objs
  load_private_keys certs (f ∷ files) objs = do
    obj ← load_private_key certs objs f
    load_private_keys certs files (objs ++ obj ∷ [])

  -- One round of the third loop.
  unfoldable pub load_public_key : List Certificate → List Object → Bytes → Outcome Object
  unfolding load_block parse_public_key attach
  load_public_key certs objs f = do
    block ← load_block public_key f
    key ← or_fatal (parse_public_key out block) (parsing public_key f)
    obj ← fatal_on (new_public_key_object out.env (length objs) key) (creating public_key f)
    attach public_key (pub_equal out key) certs obj

  unfoldable pub load_public_keys :
      List Certificate → List Bytes → List Object → Outcome (List Object)
  unfolding load_public_key
  load_public_keys certs [] objs = done objs
  load_public_keys certs (f ∷ files) objs = do
    obj ← load_public_key certs objs f
    load_public_keys certs files (objs ++ obj ∷ [])
