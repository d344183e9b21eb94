-- ===== src/Examples/Files.antt =====
-- The theorems on the example server, at concrete files.
use go_p11_kit.Base.{
  ℕ, ltb, if◌then◌else◌, Option, inl, inr, subst, some-injective, ◌≡◌, refl, true, false, some,
  none, List, [], ◌∷◌, ◌++◌, All, codes,
}
use go_p11_kit.Base.Int.{pos}
use go_p11_kit.Wire.Dates.{Time}
use go_p11_kit.Token.Keys.{
  Curve, p224, p256, p384, p521, other_curve, PublicKey, ecdsa_public, other_public, ecdsa_private,
  rsa_public, public,
}
use go_p11_kit.Token.Object.{Object, set_derive, zero_object}
use go_p11_kit.Token.Create.{
  oid_named_curve, Certificate, new_x509_certificate_object, new_private_key_object,
  new_public_key_object, set_certificate,
}
use go_p11_kit.Server.System.{System, connect, here, next, accept, view, handled, request, Reach}
use go_p11_kit.ExampleServer.Outside.{Outside, signer, Outcome, done, fatal, Block}
use go_p11_kit.Wire.Buffer.{Bytes, be64}
use go_p11_kit.ExampleServer.Keys.{priv_equal}
use go_p11_kit.ExampleServer.Completes.{Works}
use go_p11_kit.ExampleServer.Completes.Files.{
  IsCertificateFile, IsPrivateFile, IsPublicFile, load-done,
}
use go_p11_kit.ExampleServer.Main.{Flags, load, main, listening}
use mathlib.Core.List.{Forall₂}
use go_p11_kit.Token.Env.{Env}
use go_p11_kit.ExampleServer.Made.{IsCertificateOf, IsPrivateOf, IsPublicOf}
use go_p11_kit.ExampleServer.Loaded.{load_lem}
use go_p11_kit.ExampleServer.Serving.{serving, IsServing, main-IsServing}
use go_p11_kit.Examples.{test_env, test_world, open_request}
use go_p11_kit.Result.{Result, ok, err}
use go_p11_kit.Codes.Attributes.{attribute_value}
use go_p11_kit.Wire.Body.Read.{AttributeTemplate}
use go_p11_kit.Token.Create.Sensitive.{IsWithheld}
use go_p11_kit.Server.Session.{open_session, find_object, attribute_values, template_values}
use go_p11_kit.Server.State.{Conn, find_session}
use go_p11_kit.Server.Handlers.Sessions.{handle_open_session}
use go_p11_kit.Server.Loop.{handlers, dispatch}
use go_p11_kit.ExampleServer.Withheld.{main-IsWithheld}

abbrev test_time : Time
test_time = record { year = pos 2024; month = 2; day = 29 }

abbrev test_certificate : Certificate
test_certificate = record {
  serial_number = 7;
  raw = some (48 ∷ []);
  raw_subject = some (1 ∷ []);
  raw_issuer = some (2 ∷ []);
  raw_subject_public_key_info = some (3 ∷ []);
  not_before = test_time;
  not_after = test_time;
  public_key = rsa_public 3233 17;
}

-- Every file is a block of which the type is the file's name, and every two keys are equal.
abbrev test_outside : Outside
test_outside = record {
  read_file = λ file. some file;
  pem_decode = λ text. some (record { typ = text; bytes = text });
  parse_certificate = λ der. some test_certificate;
  parse_pkcs1_private = λ der. none;
  parse_ec_private = λ der. some (signer (ecdsa_private p256 1 2 3));
  parse_pkcs8_private = λ der. none;
  parse_pkcs1_public = λ der. some (rsa_public 3233 17);
  parse_pkix_public = λ der. none;
  equal = λ k. some (λ l. true);
  mkdir_temp = none;
  join = λ dir file. dir ++ file;
  listen = λ path. true;
  env = test_env;
}

abbrev test_flags : Flags
test_flags = record {
  cert_files = codes "cert" ∷ [];
  priv_files = codes "EC PRIVATE KEY" ∷ [];
  pub_files = codes "RSA PUBLIC KEY" ∷ [];
  stdio = false;
  args = codes "socket" ∷ [];
}

abbrev objects_of : Outcome (List Object) → List Object
objects_of (done objs) = objs
objects_of (fatal f) = []

abbrev test_objects : List Object
test_objects = objects_of (load test_outside test_flags)

test_objects-loaded : load test_outside test_flags ≡ done test_objects
unfolding load new_x509_certificate_object new_private_key_object priv_equal set_certificate
    set_derive new_public_key_object
test_objects-loaded = refl

load_lem_example :
    (certs privs pubs : List Object) × ((certs ++ privs) ++ pubs ≡ test_objects)
    × Forall₂ (IsCertificateOf test_outside) test_flags.cert_files certs
    × Forall₂ (IsPrivateOf test_outside) test_flags.priv_files privs
    × Forall₂ (IsPublicOf test_outside) test_flags.pub_files pubs
load_lem_example = load_lem test_outside test_flags test_objects test_objects-loaded

main-listens : main test_outside test_world [] test_flags ≡ listening (codes "socket") test_objects
unfolding main load new_x509_certificate_object new_private_key_object priv_equal set_certificate
    set_derive new_public_key_object
main-listens = refl

abbrev one_client : System
one_client = record (serving test_objects) { connections = connect (serving test_objects) ∷ [] }

main-IsServing_example :
    (load test_outside test_flags ≡ done test_objects) × IsServing test_objects one_client
main-IsServing_example =
    main-IsServing test_outside test_world [] test_flags (codes "socket") test_objects one_client
      main-listens (next here (accept (serving test_objects)))

abbrev opened_conn : Conn
opened_conn =
    (dispatch test_env open_request
      (view (serving test_objects).slots (connect (serving test_objects)))).1

abbrev one_session : System
one_session = handled one_client [] opened_conn []

one_session-Reach : Reach (serving test_objects) one_session
one_session-Reach =
    next (next here (accept (serving test_objects)))
      (request one_client [] [] (connect (serving test_objects)) test_env open_request refl)

opened-session : find_session opened_conn.sessions 1 ≡ some (open_session test_objects 1)
unfolding dispatch handlers handle_open_session be64 find_session connect
opened-session = refl

abbrev object_of : Result Object → Object
object_of (ok o) = o
object_of (err e) = zero_object

abbrev key_object : Object
key_object = object_of (find_object test_objects 42)

key_object-held : find_object test_objects 42 ≡ ok key_object
unfolding find_object load new_x509_certificate_object new_private_key_object priv_equal
    set_certificate set_derive new_public_key_object
key_object-held = refl

key_object-private : key_object.priv_key ≡ some (ecdsa_private p256 1 2 3)
unfolding find_object load new_x509_certificate_object new_private_key_object priv_equal
    set_certificate set_derive new_public_key_object
key_object-private = refl

abbrev secrets : List AttributeTemplate
secrets = record { typ = attribute_value; len = 0 } ∷ []

main-IsWithheld_example :
    (attribute_values (open_session test_objects 1) 42 secrets
      ≡ ok (template_values key_object secrets))
    × All IsWithheld (template_values key_object secrets).0
unfolding handled
main-IsWithheld_example =
    main-IsWithheld test_outside test_world [] test_flags (codes "socket") test_objects one_session
      main-listens one_session-Reach [] [] opened_conn refl 1 (open_session test_objects 1)
      opened-session 42 key_object (ecdsa_private p256 1 2 3) key_object-held key_object-private
      secrets

-- Encoders that fail where Go's do: on a key of an unknown type or curve, and on an object identifier
-- that is too short or has a first component above 2.
abbrev strict_oid : List ℕ → Option Bytes
strict_oid [] = none
strict_oid (a ∷ []) = none
strict_oid (a ∷ b ∷ rest) = if ltb 2 a then none else some (6 ∷ [])

abbrev strict_public : PublicKey → Option Bytes
strict_public (ecdsa_public (other_curve b o) x y) = none
strict_public (ecdsa_public c x y) = some (48 ∷ [])
strict_public (rsa_public n e) = some (48 ∷ [])
strict_public (other_public k) = none

abbrev strict_env : Env
strict_env = record test_env { marshal_public = strict_public; marshal_oid = strict_oid }

abbrev strict_outside : Outside
strict_outside = record test_outside { env = strict_env }

abbrev IsEncoded : List ℕ → Type 0
IsEncoded oid = (b : Bytes) × (strict_oid oid ≡ some b)

named-strict_oid : (c : Curve) (oid : List ℕ) → oid_named_curve c ≡ some oid → IsEncoded oid
unfolding oid_named_curve
named-strict_oid p224 oid e = subst IsEncoded (some-injective e) (_, refl)
named-strict_oid p256 oid e = subst IsEncoded (some-injective e) (_, refl)
named-strict_oid p384 oid e = subst IsEncoded (some-injective e) (_, refl)
named-strict_oid p521 oid e = subst IsEncoded (some-injective e) (_, refl)
named-strict_oid (other_curve b o) oid e = cc

strict_env-Works : Works strict_env
strict_env-Works = record {
  random = λ n. (_, refl);
  marshal_oid = named-strict_oid;
  marshal_octets = λ b. (_, refl);
  marshal_integer = λ n. (_, refl);
}

abbrev block : Bytes → Block
block text = record { typ = text; bytes = text }

cert_files-IsCertificateFile : All (IsCertificateFile strict_outside) test_flags.cert_files
cert_files-IsCertificateFile =
    ((test_certificate, (block (codes "cert"), (codes "cert", refl, refl), refl)), tt)

priv_files-IsPrivateFile : All (IsPrivateFile strict_outside) test_flags.priv_files
unfolding public
priv_files-IsPrivateFile = (
  (
    ecdsa_private p256 1 2 3,
    (block (codes "EC PRIVATE KEY"), (codes "EC PRIVATE KEY", refl, refl), inr (inl (refl, refl))),
    ((_, refl), (_, refl)),
  ),
  tt,
)

pub_files-IsPublicFile : All (IsPublicFile strict_outside) test_flags.pub_files
pub_files-IsPublicFile = (
  (
    rsa_public 3233 17,
    (block (codes "RSA PUBLIC KEY"), (codes "RSA PUBLIC KEY", refl, refl), inl (refl, refl)),
    (tt, (_, refl)),
  ),
  tt,
)

load-done_example : (objs : List Object) × (load strict_outside test_flags ≡ done objs)
load-done_example =
    load-done strict_outside test_flags strict_env-Works cert_files-IsCertificateFile
      priv_files-IsPrivateFile pub_files-IsPublicFile
