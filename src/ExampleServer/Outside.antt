-- ===== src/ExampleServer/Outside.antt =====
-- What example/example-p11-kit-server/main.go calls of the operating system and of Go's libraries, and
-- how it ends.
use go_p11_kit.Base.{◌≡◌, refl, Bool, Option, none, some}
use go_p11_kit.Result.{Error}
use go_p11_kit.Wire.Buffer.{Bytes}
use go_p11_kit.Token.Keys.{PublicKey, Signer}
use go_p11_kit.Token.Create.{Certificate}
use go_p11_kit.Token.Env.{Env}

-- The fields of a `pem.Block` that are read.
pub record Block : Type 0 where
  pub typ : Bytes
  pub bytes : Bytes

-- The dynamic types of a `crypto.PrivateKey`: a `crypto.Signer`, or another one with its `Public()`,
-- if it has that method.
pub data PrivateKey : Type 0 where
  signer : Signer → PrivateKey
  no_signer : Option PublicKey → PrivateKey

-- `none` is an error throughout, and of `pem_decode` no block.
pub record Outside : Type 0 where
  pub read_file : Bytes → Option Bytes
  pub pem_decode : Bytes → Option Block
  pub parse_certificate : Bytes → Option Certificate
  pub parse_pkcs1_private : Bytes → Option PrivateKey
  pub parse_ec_private : Bytes → Option PrivateKey
  pub parse_pkcs8_private : Bytes → Option PrivateKey
  pub parse_pkcs1_public : Bytes → Option PublicKey
  pub parse_pkix_public : Bytes → Option PublicKey
  -- the method `Equal` of a public key, where its type has one
  pub equal : PublicKey → Option (PublicKey → Bool)
  pub mkdir_temp : Option Bytes
  pub join : Bytes → Bytes → Bytes
  pub listen : Bytes → Bool
  -- the answers while the objects are made
  pub env : Env

pub data Kind : Type 0 where
  certificate private_key public_key : Kind

-- The calls of `log.Fatalf`.
pub data Fatal : Type 0 where
  reading decoding parsing : Kind → Bytes → Fatal
  creating : Kind → Bytes → Error → Fatal
  attaching : Kind → Error → Fatal
  handling_stdio : Fatal
  creating_temp_dir : Fatal
  listening_on : Bytes → Fatal

-- What a part of `main` comes to.
pub data Outcome {ℓ} (A : Type ℓ) : Type ℓ where
  fatal : Fatal → Outcome A
  done : A → Outcome A

abbrev continue {ℓ κ} : {A : Type ℓ} {B : Type κ} → Outcome A → (A → Outcome B) → Outcome B
continue (fatal f) next = fatal f
continue (done a) next = next a

infixl 5 ◌>>=◌
abbrev pub ◌>>=◌ {ℓ κ} : {A : Type ℓ} {B : Type κ} → Outcome A → (A → Outcome B) → Outcome B
m >>= next = continue m next

abbrev pub or_fatal {ℓ} : {A : Type ℓ} → Option A → Fatal → Outcome A
or_fatal none f = fatal f
or_fatal (some a) f = done a

-- A part of `main` that is done has done what it begins with.
pub bind_inv :
    {A B : Type 0} (m : Outcome A) (next : A → Outcome B) (b : B)
    → (m >>= next) ≡ done b
    → (a : A) × (m ≡ done a) × (next a ≡ done b)
bind_inv (fatal f) next b h = cc
bind_inv (done a) next b h = (a, refl, h)
