-- ===== src/Examples/System.antt =====
-- The theorems on requests that fail, and on the connections to one handler, at concrete values.
use go_p11_kit.Base.{ℕ, ◌≡◌, refl, List, [], ◌∷◌, map, some}
use go_p11_kit.Codes.Errors.{err_session_handle_invalid}
use go_p11_kit.Result.{err, ckr, ok}
use go_p11_kit.Wire.Body.{Body, empty_body}
use go_p11_kit.Wire.Body.Write.{write_ulong}
use go_p11_kit.Wire.Buffer.{be64}
use go_p11_kit.Server.Handlers.Sessions.{handle_open_session, handle_close_session}
use go_p11_kit.Server.Loop.{Reply, reply, give_up, handlers, dispatch, step, respond, handle}
use go_p11_kit.Server.Loop.Runs.{messages}
use go_p11_kit.Server.Loop.Answers.{until_finalize, end_of, IsAnswerable, handle-answers}
use go_p11_kit.Server.Growth.{Grows}
use go_p11_kit.Server.Atomic.Requests.{dispatch-err}
use go_p11_kit.Server.System.{
  System, connect, view, handled, accept, request, Reach, here, next, Reach-Grows, Good, Reach-Good,
}
use go_p11_kit.Server.State.{Conn, find_session, find_slot}
use go_p11_kit.Server.Session.{open_session, find_object, session_object}
use go_p11_kit.Server.System.Objects.{Reach-session_object}
use go_p11_kit.Examples.{
  private_object, public_object, test_env, test_version, test_slot, test_conn, test_world,
  open_request, test_requests,
}
use go_p11_kit.Examples.Server.{test_conn-Inv, test_requests-IsMessage, close_request}

close_request-fails :
    (dispatch test_env close_request test_conn).0 ≡ err (ckr err_session_handle_invalid)
unfolding dispatch handlers write_ulong handle_close_session be64
close_request-fails = refl

dispatch-err_example : (dispatch test_env close_request test_conn).1 ≡ test_conn
dispatch-err_example =
    dispatch-err (1 ∷ []) test_env close_request test_conn (ckr err_session_handle_invalid)
      test_conn-Inv close_request-fails

abbrev body_of : Reply → Body
body_of (reply b) = b
body_of (give_up f) = empty_body 0

test_requests-IsAnswerable : IsAnswerable test_world 0 test_conn test_requests
unfolding step dispatch handlers respond handle_open_session be64
test_requests-IsAnswerable = (
  (body_of (respond (step test_world 0 open_request test_conn).0), refl),
  λ goes_on. ((_, refl), λ goes_on. tt),
)

handle-answers_example :
    (replies : List (ℕ × Body)) × ((handle test_world test_conn (0 ∷ messages test_requests)).output
      ≡ 0 ∷ messages replies)
    × (map (λ m. m.0) replies ≡ map (λ m. m.0) (until_finalize test_requests))
    × ((handle test_world test_conn (0 ∷ messages test_requests)).end ≡ end_of test_requests)
handle-answers_example =
    handle-answers test_world test_conn 0 test_requests refl (λ k. refl) test_requests-IsMessage
      test_requests-IsAnswerable

abbrev test_system : System
test_system = record {
  manufacturer = [];
  library = [];
  library_version = test_version;
  slots = test_slot ∷ [];
  connections = [];
}

abbrev one_connection : System
one_connection = record test_system { connections = connect test_system ∷ [] }

abbrev opened : System
opened =
    handled one_connection []
      (dispatch test_env open_request (view test_system.slots (connect test_system))).1 []

opened-Reach : Reach test_system opened
opened-Reach =
    next (next here (accept test_system))
      (request one_connection [] [] (connect test_system) test_env open_request refl)

Reach-Grows_example : Grows test_system.slots opened.slots
Reach-Grows_example = Reach-Grows opened-Reach

Reach-Good_example : Good (1 ∷ []) opened
Reach-Good_example = Reach-Good (1 ∷ []) opened-Reach (record { slot_ids = refl; each = tt })

abbrev opened_conn : Conn
opened_conn = (dispatch test_env open_request (view test_system.slots (connect test_system))).1

opened-session :
    find_session opened_conn.sessions 1
    ≡ some (open_session (private_object ∷ public_object ∷ []) 1)
unfolding dispatch handlers handle_open_session be64 find_session connect
opened-session = refl

test_slot-known : find_slot test_system.slots 1 ≡ some test_slot
unfolding find_slot
test_slot-known = refl

public_object-held : find_object test_slot.objects 42 ≡ ok public_object
unfolding find_object
public_object-held = refl

Reach-session_object_example :
    session_object (open_session (private_object ∷ public_object ∷ []) 1) 42 ≡ ok public_object
unfolding open_session handled
Reach-session_object_example =
    Reach-session_object opened-Reach refl [] [] opened_conn refl 1
      (open_session (private_object ∷ public_object ∷ []) 1) opened-session test_slot
      test_slot-known refl 42 public_object public_object-held
