-- ===== src/Server/Loop/Answers.antt =====
-- The replies of a run of p11kit/p11kit.go's loop over a list of requests.
use go_p11_kit.Base.{
  All, ℕ, suc, ◌≡◌, ◌∙◌, refl, ap, Bool, true, false, List, [], ◌∷◌, ◌==◌, if◌then◌else◌, map,
}
use go_p11_kit.Codes.Calls.{call_finalize}
use go_p11_kit.Result.{no_header}
use go_p11_kit.Wire.Body.{Body}
use go_p11_kit.Server.State.{Conn}
use go_p11_kit.Server.Loop.{Served, handle, World, End, finalized, aborted, reply, step, respond}
use go_p11_kit.Server.Loop.Runs.{Run, run, after, messages, IsMessage, handle-run}

-- The requests up to the first C_Finalize, which is one of them.
abbrev pub until_finalize : List (ℕ × Body) → List (ℕ × Body)
until_finalize [] = []
until_finalize ((id, req) ∷ rs) =
    let rest = until_finalize rs in (id, req) ∷ (if req.call == call_finalize then [] else rest)

-- How a run over the requests ends that has answered them all.
abbrev pub end_of : List (ℕ × Body) → End
end_of [] = aborted no_header
end_of ((id, req) ∷ rs) =
    let rest = end_of rs in if req.call == call_finalize then finalized else rest

-- The outcome of each request, up to the first C_Finalize, is one that the loop can answer: it is a
-- response or a return code.
abbrev pub IsAnswerable : World → ℕ → Conn → List (ℕ × Body) → Type 0
IsAnswerable w n c [] = Unit {0}
IsAnswerable w n c ((id, req) ∷ rs) =
    let rest = IsAnswerable w (suc n) (step w n req c).1 rs in
    ((b : Body) × (respond (step w n req c).0 ≡ reply b))
    × (req.call == call_finalize ≡ false → rest)

answered :
    (last : Bool) (id : ℕ) (req b : Body) (c : Conn) (r : Run) (rs : List (ℕ × Body)) (e : End)
    → (last ≡ false → (map (λ m. m.0) r.replies ≡ map (λ m. m.0) rs) × (r.end ≡ e))
    → let r' = after true last id (reply b) c r in
      (map (λ m. m.0) r'.replies ≡ map (λ m. m.0) ((id, req) ∷ (if last then [] else rs)))
      × (r'.end ≡ (if last then finalized else e))
answered true id req b c r rs e h = (refl, refl)
answered false id req b c r rs e h = (ap (◌∷◌ id) (h refl).0, (h refl).1)

run-answers :
    (w : World) (n : ℕ) (c : Conn) (rs : List (ℕ × Body))
    → ((k : ℕ) → w.writable k ≡ true)
    → IsAnswerable w n c rs
    → (map (λ m. m.0) (run w n c rs).replies ≡ map (λ m. m.0) (until_finalize rs))
      × ((run w n c rs).end ≡ end_of rs)
unfolding run
run-answers w n c [] ready h = (refl, refl)
run-answers w n c ((id, req) ∷ rs) ready ((b, e), rest) =
    rw (ready n, e)
      (answered (req.call == call_finalize) id req b (step w n req c).1
        (run w (suc n) (step w n req c).1 rs) (until_finalize rs) (end_of rs)
        λ goes_on. run-answers w (suc n) (step w n req c).1 rs ready (rest goes_on))

-- On a list of messages that fit on the wire, where everything can be written and the outcome of no
-- request ends the connection, `Handle` writes the version and then one reply to each request up to the
-- first C_Finalize, in their order and under their ids, and it ends with that C_Finalize, or with the
-- end of the stream where there is none.
pub handle-answers :
    (w : World) (c : Conn) (version : ℕ) (rs : List (ℕ × Body))
    → w.version_writable ≡ true
    → ((k : ℕ) → w.writable k ≡ true)
    → All IsMessage rs
    → IsAnswerable w 0 c rs
    → (replies : List (ℕ × Body)) × ((handle w c (version ∷ messages rs)).output
        ≡ 0 ∷ messages replies)
      × (map (λ m. m.0) replies ≡ map (λ m. m.0) (until_finalize rs))
      × ((handle w c (version ∷ messages rs)).end ≡ end_of rs)
handle-answers w c version rs first ready fit h =
    let e = handle-run w c version rs first fit in
    let (ids, ended) = run-answers w 0 c rs ready h in
    (
      (run w 0 c rs).replies,
      ap (λ (s : Served). s.output) e,
      ids,
      ap (λ (s : Served). s.end) e ∙ ended,
    )
