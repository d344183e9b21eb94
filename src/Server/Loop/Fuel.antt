-- ===== src/Server/Loop/Fuel.antt =====
-- The fuel of the loop of `Handle` of p11kit/p11kit.go.
use go_p11_kit.Base.{
  ℕ, zero, suc, ◌<◌, ◌≡◌, ◌≢◌, refl, Bool, true, false, [], ◌∷◌, ◌==◌, length, arith,
}
use go_p11_kit.Codes.Calls.{call_finalize}
use go_p11_kit.Result.{Result, ok, err}
use go_p11_kit.Wire.Buffer.{Bytes}
use go_p11_kit.Wire.Body.{Body}
use go_p11_kit.Wire.Message.{read_request}
use go_p11_kit.Wire.Message.Length.{read_request-shorter}
use go_p11_kit.Server.State.{Conn}
use go_p11_kit.Server.Loop.{
  World, Served, stuck, Reply, reply, give_up, answer, step, respond, round, serve, started, handle,
}

answer-ends :
    (writable last : Bool) (id : ℕ) (r : Reply) (c : Conn) (out : Bytes) (go_on : Bytes → Served)
    → ((out' : Bytes) → (go_on out').end ≢ stuck)
    → (answer writable last id r c out go_on).end ≢ stuck
answer-ends writable last id (give_up f) c out go_on h = λ e. cc
answer-ends false last id (reply b) c out go_on h = λ e. cc
answer-ends true true id (reply b) c out go_on h = λ e. cc
answer-ends true false id (reply b) c out go_on h = h _

round-ends :
    (w : World) (n : ℕ) (c : Conn) (out : Bytes) (m : Result (ℕ × Body))
    (go_on : Conn → Bytes → Served)
    → ((id : ℕ) (req : Body)
        → m ≡ ok (id, req)
        → (c' : Conn) (out' : Bytes) → (go_on c' out').end ≢ stuck)
    → (round w n c out m go_on).end ≢ stuck
round-ends w n c out (err e) go_on h = λ e. cc
round-ends w n c out (ok (id, req)) go_on h =
    answer-ends (w.writable n) (req.call == call_finalize) id (respond (step w n req c).0)
      (step w n req c).1 out (go_on (step w n req c).1) (h id req refl (step w n req c).1)

serve-ends :
    (fuel : ℕ) (w : World) (n : ℕ) (c : Conn) (stream out : Bytes)
    → length stream < fuel
    → (serve fuel w n c stream out).end ≢ stuck
unfolding serve
serve-ends zero w n c stream out h = absurd (omega arith)
serve-ends (suc fuel) w n c stream out h =
    round-ends w n c out (read_request stream).0 _ λ id req e c' out'.
      serve-ends fuel w (suc n) c' (read_request stream).1 out'
        (omega (arith, read_request-shorter stream (id, req) e))

started-ends : (b : Bool) (c : Conn) (s : Served) → s.end ≢ stuck → (started b c s).end ≢ stuck
started-ends true c s h = h
started-ends false c s h = λ e. cc

-- `Handle` returns on every stream, whatever the rest of the world does: the model's fuel, one
-- round more than the stream has bytes, never runs out.
pub handle-ne-stuck : (w : World) (c : Conn) (stream : Bytes) → (handle w c stream).end ≢ stuck
unfolding handle
handle-ne-stuck w c [] = λ e. cc
handle-ne-stuck w c (version ∷ stream) =
    started-ends w.version_writable c _
      (serve-ends (suc (length stream)) w 0 c stream (0 ∷ []) (omega arith))
