-- ===== src/Server/Invariant/Loop.antt =====
-- `Handle` of p11kit/p11kit.go and the invariant of the connection.
use go_p11_kit.Base.{ℕ, zero, suc, Bool, true, false, [], List, ◌∷◌, ◌==◌, length}
use go_p11_kit.Codes.Calls.{call_finalize}
use go_p11_kit.Result.{Result, ok, err}
use go_p11_kit.Wire.Buffer.{Bytes}
use go_p11_kit.Wire.Body.{Body}
use go_p11_kit.Wire.Message.{read_request}
use go_p11_kit.Server.State.{Conn}
use go_p11_kit.Server.Loop.{
  World, Served, Reply, reply, give_up, answer, step, respond, round, serve, started, handle,
}
use go_p11_kit.Server.Invariant.{Inv}
use go_p11_kit.Server.Invariant.Handlers.{KeepsIds, step-Inv}

module _ (ids : List ℕ) where
  answer-Inv :
      (writable last : Bool) (id : ℕ) (r : Reply) (c : Conn) (out : Bytes) (go_on : Bytes → Served)
      → Inv ids c
      → ((out' : Bytes) → Inv ids (go_on out').state)
      → Inv ids (answer writable last id r c out go_on).state
  answer-Inv writable last id (give_up f) c out go_on h k = h
  answer-Inv false last id (reply b) c out go_on h k = h
  answer-Inv true true id (reply b) c out go_on h k = h
  answer-Inv true false id (reply b) c out go_on h k = k _

  module _ (w : World) (same : KeepsIds w) where
    round-Inv :
        (n : ℕ) (c : Conn) (out : Bytes) (m : Result (ℕ × Body)) (go_on : Conn → Bytes → Served)
        → Inv ids c
        → ((c' : Conn) (out' : Bytes) → Inv ids c' → Inv ids (go_on c' out').state)
        → Inv ids (round w n c out m go_on).state
    round-Inv n c out (err e) go_on h k = h
    round-Inv n c out (ok (id, req)) go_on h k =
        let (r, c') = step w n req c in
        let h' = step-Inv ids w n req c same h in
        answer-Inv (w.writable n) (req.call == call_finalize) id (respond r) c' out (go_on c') h'
          λ out'. k c' out' h'

    serve-Inv :
        (fuel n : ℕ) (c : Conn) (stream out : Bytes)
        → Inv ids c
        → Inv ids (serve fuel w n c stream out).state
    unfolding serve
    serve-Inv zero n c stream out h = h
    serve-Inv (suc fuel) n c stream out h =
        round-Inv n c out (read_request stream).0 _ h
          λ c' out' h'. serve-Inv fuel (suc n) c' (read_request stream).1 out' h'

started-Inv :
    (ids : List ℕ) (b : Bool) (c : Conn) (r : Served)
    → Inv ids c
    → Inv ids r.state
    → Inv ids (started b c r).state
started-Inv ids true c r h k = k
started-Inv ids false c r h k = h

-- Whatever bytes a client sends, and however the loop ends, the connection's sessions are left with
-- distinct uint64 IDs and belong to slots, and the slots have the IDs that they had, provided that
-- this holds at first and that other connections keep the slots' IDs.
pub handle-Inv :
    (ids : List ℕ) (w : World) (c : Conn) (stream : Bytes)
    → KeepsIds w
    → Inv ids c
    → Inv ids (handle w c stream).state
unfolding handle
handle-Inv ids w c [] same h = h
handle-Inv ids w c (version ∷ stream) same h =
    started-Inv ids w.version_writable c _ h
      (serve-Inv ids w same (suc (length stream)) 0 c stream (0 ∷ []) h)
