-- ===== src/ExampleServer/Held.antt =====
-- What the files hold that example/example-p11-kit-server/main.go reads.
use go_p11_kit.Base.{
  ◌≡◌, ◌≢◌, ◌⊎◌, inl, inr, Bool-cases, false, bytes_equal, Option, none, some, codes,
  bytes_equal_inv, bytes_equal_refl,
}
use go_p11_kit.Wire.Buffer.{Bytes}
use go_p11_kit.Token.Keys.{PublicKey, Signer}
use go_p11_kit.Token.Create.{Certificate}
use go_p11_kit.ExampleServer.Outside.{
  Block, PrivateKey, signer, Outside, Kind, Fatal, done, or_fatal, bind_inv, reading,
}
use go_p11_kit.ExampleServer.Keys.{parse_private_key, parse_public_key}
use go_p11_kit.ExampleServer.Files.{load_block}

pub or_fatal_inv :
    {A : Type 0} (found : Option A) (f : Fatal) (a : A) → or_fatal found f ≡ done a → found ≡ some a
or_fatal_inv none f a h = cc
or_fatal_inv (some x) f a h = cc

module _ (out : Outside) where
  -- The file can be read, and it begins with the block.
  abbrev pub Holds : Bytes → Block → Type 0
  Holds f b = (text : Bytes) × (out.read_file f ≡ some text) × (out.pem_decode text ≡ some b)

  -- The type of the block says which of Go's parsers takes its bytes.
  abbrev pub EncodesPrivate : Block → PrivateKey → Type 0
  EncodesPrivate b priv =
      (b.typ ≡ codes "RSA PRIVATE KEY") × (out.parse_pkcs1_private b.bytes ≡ some priv)
      ⊎ ((b.typ ≡ codes "EC PRIVATE KEY") × (out.parse_ec_private b.bytes ≡ some priv)
          ⊎ (b.typ ≢ codes "RSA PRIVATE KEY")
            × (b.typ ≢ codes "EC PRIVATE KEY")
            × (out.parse_pkcs8_private b.bytes ≡ some priv))

  abbrev pub EncodesPublic : Block → PublicKey → Type 0
  EncodesPublic b key =
      (b.typ ≡ codes "RSA PUBLIC KEY") × (out.parse_pkcs1_public b.bytes ≡ some key)
      ⊎ (b.typ ≢ codes "RSA PUBLIC KEY") × (out.parse_pkix_public b.bytes ≡ some key)

  abbrev pub HoldsCertificate : Bytes → Certificate → Type 0
  HoldsCertificate f cert = (b : Block) × Holds f b × (out.parse_certificate b.bytes ≡ some cert)

  abbrev pub HoldsPrivate : Bytes → Signer → Type 0
  HoldsPrivate f s = (b : Block) × Holds f b × EncodesPrivate b (signer s)

  abbrev pub HoldsPublic : Bytes → PublicKey → Type 0
  HoldsPublic f key = (b : Block) × Holds f b × EncodesPublic b key

  pub load_block_inv :
      (kind : Kind) (f : Bytes) (b : Block) → load_block out kind f ≡ done b → Holds f b
  unfolding load_block
  load_block_inv kind f b h =
      let (text, readable, h) = bind_inv (or_fatal (out.read_file f) (reading kind f)) _ b h in
      (text, or_fatal_inv _ _ text readable, or_fatal_inv (out.pem_decode text) _ b h)

  differs : (x y : Bytes) → bytes_equal x y ≡ false → x ≢ y
  differs x y h e = cc (bytes_equal_refl y)

  other : (x y : Bytes) → x ≢ y → bytes_equal x y ≡ false
  other x y h = elim (Bool-cases (bytes_equal x y)) [
    | inl same ↦ absurd (h (bytes_equal_inv x y same))
    | inr differs ↦ differs
  ]

  pub parse_private_key_inv :
      (b : Block) (priv : PrivateKey) → parse_private_key out b ≡ some priv → EncodesPrivate b priv
  unfolding parse_private_key
  parse_private_key_inv b priv h = elim (Bool-cases (bytes_equal b.typ (codes "RSA PRIVATE KEY"))) [
    | inl rsa ↦ inl (bytes_equal_inv _ _ rsa, rw rsa at h)
    | inr not_rsa ↦ elim (Bool-cases (bytes_equal b.typ (codes "EC PRIVATE KEY"))) [
      | inl ec ↦ inr (inl (bytes_equal_inv _ _ ec, rw (not_rsa, ec) at h))
      | inr not_ec ↦ inr (inr (differs _ _ not_rsa, differs _ _ not_ec, rw (not_rsa, not_ec) at h))
    ]
  ]

  pub parse_public_key_inv :
      (b : Block) (key : PublicKey) → parse_public_key out b ≡ some key → EncodesPublic b key
  unfolding parse_public_key
  parse_public_key_inv b key h = elim (Bool-cases (bytes_equal b.typ (codes "RSA PUBLIC KEY"))) [
    | inl rsa ↦ inl (bytes_equal_inv _ _ rsa, rw rsa at h)
    | inr not_rsa ↦ inr (differs _ _ not_rsa, rw not_rsa at h)
  ]

  pub EncodesPrivate-parse :
      (b : Block) (priv : PrivateKey) → EncodesPrivate b priv → parse_private_key out b ≡ some priv
  unfolding parse_private_key
  EncodesPrivate-parse b priv (inl (e, h)) = rw e h
  EncodesPrivate-parse b priv (inr (inl (e, h))) = rw e h
  EncodesPrivate-parse b priv (inr (inr (not_rsa, not_ec, h))) =
      rw (other _ _ not_rsa, other _ _ not_ec) h

  pub EncodesPublic-parse :
      (b : Block) (key : PublicKey) → EncodesPublic b key → parse_public_key out b ≡ some key
  unfolding parse_public_key
  EncodesPublic-parse b key (inl (e, h)) = rw e h
  EncodesPublic-parse b key (inr (not_rsa, h)) = rw (other _ _ not_rsa) h
