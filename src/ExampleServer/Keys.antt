-- ===== src/ExampleServer/Keys.antt =====
-- `parsePrivateKey`, `parsePublicKey`, `privEqual` and `pubEqual` of
-- example/example-p11-kit-server/main.go.
use go_p11_kit.Base.{Bool, true, false, Option, none, some, if◌then◌else◌, bytes_equal, codes}
use go_p11_kit.Token.Keys.{PublicKey, Signer, ecdsa_private, other_private, public}
use go_p11_kit.ExampleServer.Outside.{Block, PrivateKey, signer, no_signer, Outside}

-- `priv.(crypto.Signer)`, on which NewPrivateKeyObject insists
abbrev pub as_signer : PrivateKey → Option Signer
as_signer (signer s) = some s
as_signer (no_signer p) = none

abbrev pub public_of : PrivateKey → Option PublicKey
public_of (signer s) = some (public s)
public_of (no_signer p) = p

-- `_, ok := priv.(*ecdsa.PrivateKey)`
abbrev pub is_ecdsa : PrivateKey → Bool
is_ecdsa (signer (ecdsa_private c x y d)) = true
is_ecdsa (signer (other_private k p)) = false
is_ecdsa (no_signer p) = false

module _ (out : Outside) where
  unfoldable pub parse_private_key : Block → Option PrivateKey
  parse_private_key b =
      if bytes_equal b.typ (codes "RSA PRIVATE KEY")
      then out.parse_pkcs1_private b.bytes
      else if bytes_equal b.typ (codes "EC PRIVATE KEY")
      then out.parse_ec_private b.bytes
      else out.parse_pkcs8_private b.bytes

  unfoldable pub parse_public_key : Block → Option PublicKey
  parse_public_key b =
      if bytes_equal b.typ (codes "RSA PUBLIC KEY")
      then out.parse_pkcs1_public b.bytes
      else out.parse_pkix_public b.bytes

  abbrev pub equal_by : Option (PublicKey → Bool) → PublicKey → Bool
  equal_by none q = false
  equal_by (some eq) q = eq q

  unfoldable pub pub_equal : PublicKey → PublicKey → Bool
  pub_equal p q = equal_by (out.equal p) q

  abbrev pub equal_to : Option PublicKey → PublicKey → Bool
  equal_to none q = false
  equal_to (some p) q = pub_equal p q

  unfoldable pub priv_equal : PrivateKey → PublicKey → Bool
  unfolding public pub_equal
  priv_equal priv q = equal_to (public_of priv) q
