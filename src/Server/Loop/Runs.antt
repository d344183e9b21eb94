-- ===== src/Server/Loop/Runs.antt =====
-- `Handle` of p11kit/p11kit.go over lists of requests, without framing and fuel.
use go_p11_kit.Base.{
  ℕ, zero, suc, ◌^◌, ◌<◌, ◌≡◌, ap, ◌∙◌, Bool, true, false, List, [], ◌∷◌, ◌++◌, ◌==◌, length, All,
  arith, append-nil, append_assoc,
}
use go_p11_kit.Codes.Calls.{call_finalize}
use go_p11_kit.Result.{Result, ok, no_header}
use go_p11_kit.Wire.Buffer.{Bytes, uint32}
use go_p11_kit.Wire.Body.{Body}
use go_p11_kit.Wire.Message.{read_request, header, write_response}
use go_p11_kit.Wire.Message.RoundTrip.{IsSendable, read_request-write_response}
use go_p11_kit.Wire.Message.Length.{read_request-shorter}
use go_p11_kit.Server.State.{Conn}
use go_p11_kit.Server.Loop.{
  World, Served, End, finalized, aborted, write_aborted, Reply, reply, give_up, answer, step,
  respond, serve, started, handle,
}

-- Messages one after the other, each with its id.
abbrev pub messages : List (ℕ × Body) → Bytes
messages [] = []
messages ((id, b) ∷ ms) = write_response id b ++ messages ms

pub record Run : Type 0 where
  pub replies : List (ℕ × Body)
  pub state : Conn
  pub end : End

abbrev pub after : Bool → Bool → ℕ → Reply → Conn → Run → Run
after writable last id (give_up f) c rest = record { replies = []; state = c; end = aborted f }
after false last id (reply b) c rest = record { replies = []; state = c; end = write_aborted }
after true true id (reply b) c rest = record { replies = (id, b) ∷ []; state = c; end = finalized }
after true false id (reply b) c rest = record rest { replies = (id, b) ∷ rest.replies }

-- The requests are answered in turn, until one ends the connection or there are no more.
unfoldable pub run : World → ℕ → Conn → List (ℕ × Body) → Run
run w n c [] = record { replies = []; state = c; end = aborted no_header }
run w n c ((id, req) ∷ rs) =
    let (r, c') = step w n req c in
    let rest = run w (suc n) c' rs in
    after (w.writable n) (req.call == call_finalize) id (respond r) c' rest

abbrev pub served : Bytes → Run → Served
served out r = record { output = out ++ messages r.replies; state = r.state; end = r.end }

abbrev pub IsMessage : ℕ × Body → Type 0
IsMessage m = (m.0 < 2 ^ 32) × IsSendable m.1

answer-after :
    (writable last : Bool) (id : ℕ) (r : Reply) (c : Conn) (out : Bytes) (go_on : Bytes → Served)
    (rest : Run)
    → ((out' : Bytes) → go_on out' ≡ served out' rest)
    → answer writable last id r c out go_on ≡ served out (after writable last id r c rest)
answer-after writable last id (give_up f) c out go_on rest h = rw append-nil
answer-after false last id (reply b) c out go_on rest h = rw append-nil
answer-after true true id (reply b) c out go_on rest h = rw append-nil
answer-after true false id (reply b) c out go_on rest h =
    h (out ++ write_response id b) ∙ rw append_assoc

serve-run :
    (fuel : ℕ) (w : World) (n : ℕ) (c : Conn) (rs : List (ℕ × Body)) (out : Bytes)
    → All IsMessage rs
    → length (messages rs) < fuel
    → serve fuel w n c (messages rs) out ≡ served out (run w n c rs)
unfolding serve run
serve-run zero w n c rs out h k = absurd (omega arith)
serve-run (suc fuel) w n c [] out h k = unfold read_request header uint32 in rw append-nil
serve-run (suc fuel) w n c ((id, req) ∷ rs) out ((small, sendable), hs) k = rw e (
    answer-after (w.writable n) (req.call == call_finalize) id (respond (step w n req c).0)
      (step w n req c).1 out _ (run w (suc n) (step w n req c).1 rs)
      λ out'. serve-run fuel w (suc n) (step w n req c).1 rs out' hs shorter)
  where
    e : read_request (write_response id req ++ messages rs) ≡ (ok (id, req), messages rs)
    e = read_request-write_response id req (messages rs) small sendable

    shorter : length (messages rs) < fuel
    shorter = omega (
      arith,
      read_request-shorter (write_response id req ++ messages rs) (id, req)
          (ap (λ (p : Result (ℕ × Body) × Bytes). p.0) e),
      ap (λ (p : Result (ℕ × Body) × Bytes). length p.1) e,
    )

-- On a version byte and a list of messages that fit on the wire, and where the version can be
-- written, `Handle` writes the version 0 and then the replies of the run over the messages' bodies,
-- each as a message with the id of its request, and it leaves the state and ends as that run.
pub handle-run :
    (w : World) (c : Conn) (version : ℕ) (rs : List (ℕ × Body))
    → w.version_writable ≡ true
    → All IsMessage rs
    → handle w c (version ∷ messages rs) ≡ served (0 ∷ []) (run w 0 c rs)
unfolding handle
handle-run w c version rs ready h =
    ap (λ (b : Bool). started b c (serve (suc (length (messages rs))) w 0 c (messages rs) (0 ∷ [])))
      ready
    ∙ serve-run (suc (length (messages rs))) w 0 c rs (0 ∷ []) h (omega arith)
