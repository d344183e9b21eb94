-- ===== src/Examples/Server.antt =====
-- The theorems on sessions and connections, at concrete values.
use go_p11_kit.Base.{
  ℕ, ◌≡◌, ◌≢◌, refl, sym, ◌∙◌, Option, none, some, List, [], ◌∷◌, ◌++◌, ◌==◌, if◌then◌else◌, arith,
  All, ◌▸◌,
}
use go_p11_kit.Codes.Attributes.{attribute_class}
use go_p11_kit.Codes.Mechanisms.{cko_private_key, ckm_ecdsa}
use go_p11_kit.Codes.Errors.{err_session_handle_invalid}
use go_p11_kit.Result.{ok, err, ckr}
use go_p11_kit.Wire.Attributes.{Attribute, ulong_attribute}
use go_p11_kit.Server.Session.{Session, open_session, find}
use go_p11_kit.Server.Session.Find.{matching, find_matches-find, find_run, find_run_lem}
use go_p11_kit.Server.State.{Conn, find_slot, find_session, is_open, new_session, close_session}
use go_p11_kit.Server.State.Sessions.{new_session_lem, close_session_lem}
use go_p11_kit.Server.Loop.{step, stuck, handle}
use go_p11_kit.Server.Loop.Fuel.{handle-ne-stuck}
use go_p11_kit.Server.Loop.Runs.{messages, run, served, IsMessage, handle-run}
use go_p11_kit.Codes.Calls.{call_close_session}
use go_p11_kit.Wire.Buffer.{Bytes, be64}
use go_p11_kit.Wire.Body.{Body, empty_body}
use go_p11_kit.Wire.Body.Write.{write_ulong}
use go_p11_kit.Wire.Body.Read.{read_ulong}
use go_p11_kit.Server.Isolation.Requests.{first_ulong}
use go_p11_kit.Wire.Mechanisms.{raw}
use go_p11_kit.Token.Keys.{p256, ecdsa_private}
use go_p11_kit.Token.Sign.{sign}
use go_p11_kit.Server.Handlers.Signing.{handle_sign_final}
use go_p11_kit.Server.Multipart.{final_request, updated, signed, joined, extended, multipart_lem}
use go_p11_kit.Server.Isolation.Step.{step-open}
use go_p11_kit.Server.Invariant.Loop.{handle-Inv}
use go_p11_kit.Server.Invariant.{Inv}
use go_p11_kit.Server.Invariant.Handlers.{step-Inv}
use go_p11_kit.Examples.{
  test_env, test_slot, test_session, test_conn, test_world, open_request, test_requests,
  private_object, public_object,
}
use go_p11_kit.Examples.Wire.{open_request-IsSendable}

abbrev private_keys : List Attribute
private_keys = ulong_attribute attribute_class cko_private_key ∷ []

find_matches-find_example :
    (find test_session private_keys).find_matches
    ≡ test_session.find_matches ++ matching test_session.objects private_keys
find_matches-find_example = find_matches-find test_session private_keys

find_run_lem_example :
    (find_run (find test_session private_keys) (1 ∷ 5 ∷ [])).0
      ++ (find_run (find test_session private_keys) (1 ∷ 5 ∷ [])).1.find_matches
    ≡ (find test_session private_keys).find_matches
find_run_lem_example = find_run_lem (find test_session private_keys) (1 ∷ 5 ∷ [])

test_slot-found : find_slot test_conn.slots 1 ≡ some test_slot
unfolding find_slot
test_slot-found = refl

new_session_lem_example :
    (id : ℕ) × ((new_session test_env 1 test_conn).0 ≡ ok id)
    × (find_session test_conn.sessions id ≡ none)
    × ((j : ℕ)
        → find_session (new_session test_env 1 test_conn).1.sessions j ≡ (
            if id == j
            then some (open_session (private_object ∷ public_object ∷ []) 1)
            else find_session test_conn.sessions j))
new_session_lem_example =
    new_session_lem test_env 1 test_conn test_slot (private_object ∷ public_object ∷ [])
      (omega arith) test_slot-found refl

close_session_lem_example :
    ((close_session 3 test_conn).0
      ≡ (if is_open test_conn.sessions 3 then ok tt else err (ckr err_session_handle_invalid)))
    × ((j : ℕ)
        → find_session (close_session 3 test_conn).1.sessions j
          ≡ (if 3 == j then none else find_session test_conn.sessions j))
close_session_lem_example = close_session_lem 3 test_conn

pub test_conn-Inv : Inv (1 ∷ []) test_conn
unfolding is_open open_session
test_conn-Inv = record {
  slot_ids = refl;
  last = omega arith;
  served = ((omega arith, refl), tt);
  distinct = (refl, tt);
}

step-Inv_example : Inv (1 ∷ []) (step test_world 0 open_request test_conn).1
step-Inv_example =
    step-Inv (1 ∷ []) test_world 0 open_request test_conn (λ n slots. refl) test_conn-Inv

handle-ne-stuck_example : (handle test_world test_conn (0 ∷ messages test_requests)).end ≢ stuck
handle-ne-stuck_example = handle-ne-stuck test_world test_conn (0 ∷ messages test_requests)

pub test_requests-IsMessage : All IsMessage test_requests
test_requests-IsMessage = (
  (omega arith, open_request-IsSendable),
  (
    (
      omega arith,
      record { call = omega arith; signature = omega arith; size = omega arith; no_error = refl },
    ),
    tt,
  ),
)

handle-run_example :
    handle test_world test_conn (0 ∷ messages test_requests)
    ≡ served (0 ∷ []) (run test_world 0 test_conn test_requests)
handle-run_example = handle-run test_world test_conn 0 test_requests refl test_requests-IsMessage

handle-Inv_example : Inv (1 ∷ []) (handle test_world test_conn (0 ∷ messages test_requests)).state
handle-Inv_example =
    handle-Inv (1 ∷ []) test_world test_conn (0 ∷ messages test_requests) (λ n slots. refl)
      test_conn-Inv

abbrev pub close_request : Body
close_request = write_ulong (empty_body call_close_session) 5

close_request-first : first_ulong close_request ≡ some 5
unfolding read_ulong write_ulong be64
close_request-first = refl

some-five : ◌≢◌ {A = Option ℕ} (some 5) (some 3)
some-five e = cc

close_request-other : first_ulong close_request ≢ some 3
close_request-other e = some-five (sym close_request-first ∙ e)

test_session-found : find_session test_conn.sessions 3 ≡ some test_session
unfolding find_session
test_session-found = refl

step-open_example :
    find_session (step test_world 0 close_request test_conn).1.sessions 3 ≡ some test_session
step-open_example =
    step-open test_world 0 close_request test_conn 3 test_session test_session-found
      close_request-other (omega arith)

abbrev signing_session : Session
signing_session = record test_session {
  sign_mechanism = record { typ = ckm_ecdsa; params = raw (some []) };
  sign_object = record private_object { priv_key = some (ecdsa_private p256 1 2 3) };
}

abbrev signing_conn : Conn
signing_conn = record test_conn { sessions = (3, signing_session) ∷ [] }

signing_session-found : find_session signing_conn.sessions 3 ≡ some signing_session
unfolding find_session
signing_session-found = refl

abbrev pieces : List Bytes
pieces = (1 ∷ 2 ∷ []) ∷ (3 ∷ []) ∷ []

multipart_lem_example :
    ((handle_sign_final test_env (final_request 3 64) (updated 3 pieces signing_conn)).0
      ≡ signed (
          sign test_env signing_session.sign_object signing_session.sign_mechanism
            (signing_session.sign_data ++ joined pieces)))
    × (find_session
          (handle_sign_final test_env
            (final_request 3 64)
            (updated 3 pieces signing_conn)).1.sessions
          3
        ≡ some (extended signing_session (joined pieces)))
multipart_lem_example =
    multipart_lem test_env 3 64 pieces signing_conn signing_session (omega arith) (omega arith)
      (omega arith ▸ omega arith ▸ tt) signing_session-found
