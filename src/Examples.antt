-- ===== src/Examples.antt =====
-- One token with a key, and a connection to it: concrete values at which the theorems are applied.
mod Wire
mod Token
mod Server
mod System
mod Files
mod Generator
mod Names
use go_p11_kit.Base.{ℕ, ◌+◌, true, false, none, some, List, [], ◌∷◌, ◌++◌, replicate}
use go_p11_kit.Codes.Calls.{call_get_info, call_open_session, call_finalize}
use go_p11_kit.Codes.Attributes.{attribute_class, attribute_token}
use go_p11_kit.Codes.Mechanisms.{cko_private_key, cko_public_key}
use go_p11_kit.Result.{ok}
use go_p11_kit.Wire.Attributes.{Attribute, ulong_attribute, byte_attribute}
use go_p11_kit.Wire.Body.{Body, empty_body}
use go_p11_kit.Wire.Body.Write.{Version, write_ulong}
use go_p11_kit.Token.Keys.{Signer, other_private, rsa_public}
use go_p11_kit.Token.Object.{Object}
use go_p11_kit.Token.Env.{Env}
use go_p11_kit.Server.Slot.{Slot}
use go_p11_kit.Server.Session.{Session, open_session}
use go_p11_kit.Server.State.{Conn}
use go_p11_kit.Server.Loop.{World}

abbrev pub test_env : Env
test_env = record {
  sign = λ k d o. ok d;
  unmarshal_signature = λ d. ok (5, 7);
  random = λ n. ok (n + 41);
  marshal_public = λ k. some (48 ∷ []);
  marshal_oid = λ o. some (6 ∷ []);
  marshal_octets = λ b. some (4 ∷ b);
  marshal_integer = λ n. some (2 ∷ n ∷ []);
  unmarshal_oid = λ b. none;
  marshal_point = λ c x y. 4 ∷ [];
  is_on_curve = λ c x y. true;
  scalar_mult = λ c x y d. x;
  generate_rsa = λ bits. none;
  generate_ecdsa = λ c. none;
  hash = λ h b. replicate 32 7;
  get_objects = λ id. ok [];
  mechanism_info = λ id m. ok (0, 0, 0);
}

abbrev pub private_object : Object
private_object = record {
  id = 41;
  attributes =
      ulong_attribute attribute_class cko_private_key ∷ byte_attribute attribute_token 1 ∷ [];
  pub_key = none;
  priv_key = none;
}

abbrev pub public_object : Object
public_object = record {
  id = 42;
  attributes = ulong_attribute attribute_class cko_public_key ∷ [];
  pub_key = none;
  priv_key = none;
}

abbrev pub test_version : Version
test_version = record { major = 1; minor = 2 }

abbrev pub test_slot : Slot
test_slot = record {
  id = 1;
  description = [];
  label = [];
  manufacturer = [];
  model = [];
  serial = [];
  hardware_version = test_version;
  firmware_version = test_version;
  objects = private_object ∷ public_object ∷ [];
  has_get_objects = false;
  mechanisms = none;
  has_mechanism_info = false;
  initialized = true;
}

abbrev pub test_session : Session
test_session = open_session (private_object ∷ public_object ∷ []) 1

abbrev pub test_conn : Conn
test_conn = record {
  manufacturer = [];
  library = [];
  library_version = test_version;
  slots = test_slot ∷ [];
  last_session_id = 3;
  sessions = (3, test_session) ∷ [];
}

abbrev pub test_world : World
test_world = record {
  env = λ n. test_env;
  others = λ n slots. slots;
  writable = λ n. true;
  version_writable = true;
}

-- C_OpenSession of slot 1 with CKF_SERIAL_SESSION.
abbrev pub open_request : Body
open_request = write_ulong (write_ulong (empty_body call_open_session) 1) 4

abbrev pub test_requests : List (ℕ × Body)
test_requests = (1, open_request) ∷ (2, empty_body call_finalize) ∷ []
