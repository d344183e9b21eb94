-- ===== src/ExampleServer/Serving.antt =====
-- The connections that `main` of example/example-p11-kit-server/main.go serves over its socket.
use go_p11_kit.Base.{
  ◌≡◌, ◌≢◌, refl, ap, sym, Bool, true, false, List, [], ◌∷◌, ◌++◌, All, codes, Bool-cases, inl, inr,
}
use go_p11_kit.Wire.Buffer.{Bytes}
use go_p11_kit.Token.Object.{Object}
use go_p11_kit.Server.Slot.{Slot}
use go_p11_kit.Server.Invariant.{Inv}
use go_p11_kit.Server.Growth.{GrowsSlot, Grows}
use go_p11_kit.Server.Loop.{World, End, finalized, aborted, write_aborted, stuck, handle}
use go_p11_kit.Server.System.{System, view, Reach, Reach-Grows, Reach-Good}
use go_p11_kit.ExampleServer.Outside.{Outside, Fatal, listening_on, Outcome, fatal, done}
use go_p11_kit.ExampleServer.Main.{
  Flags, load, slot, connection, Running, listening, exited_with_usage, failed_with, served_stdio,
  socket_path, listen, start, served_until, run_with, main,
}

-- The `Handler`, before the first connection.
abbrev pub serving : List Object → System
serving objs = record {
  manufacturer = (connection objs).manufacturer;
  library = (connection objs).library;
  library_version = (connection objs).library_version;
  slots = (connection objs).slots;
  connections = [];
}

abbrev listened : List Object → Running → List Object
listened os (listening path objs) = objs
listened os exited_with_usage = os
listened os (failed_with f) = os
listened os (served_stdio output) = os

module _ (path : Bytes) (objs : List Object) where
  served_until-ne-listening :
      (e : End) (output : Bytes) → served_until e output ≢ listening path objs
  served_until-ne-listening finalized output h = cc
  served_until-ne-listening (aborted f) output h = cc
  served_until-ne-listening write_aborted output h = cc
  served_until-ne-listening stuck output h = cc

  failed-ne-listening : (f : Fatal) → failed_with f ≢ listening path objs
  failed-ne-listening f h = cc

  listen_inv :
      (out : Outside) (os : List Object) (m : Outcome Bytes)
      → listen out os m ≡ listening path objs
      → os ≡ objs
  listen_inv out os (fatal f) h = cc
  listen_inv out os (done p) h = elim (Bool-cases (out.listen p)) [
    | inl e ↦ ap (listened os) (rw e at h)
    | inr e ↦ absurd (failed-ne-listening (listening_on p) (rw e at h))
  ]

  start_inv :
      (out : Outside) (w : World) (stdin : Bytes) (stdio : Bool) (p : Bytes)
      (m : Outcome (List Object))
      → start out w stdin stdio p m ≡ listening path objs
      → m ≡ done objs
  start_inv out w stdin stdio p (fatal f) h = cc
  start_inv out w stdin true p (done os) h =
      absurd (served_until-ne-listening (handle w (connection os) stdin).end _ h)
  start_inv out w stdin false p (done os) h = ap done (listen_inv out os (socket_path out p) h)

  run_with_inv :
      (out : Outside) (w : World) (stdin : Bytes) (flags : Flags) (args : List Bytes)
      → run_with out w stdin flags args ≡ listening path objs
      → load out flags ≡ done objs
  unfolding run_with
  run_with_inv out w stdin flags [] h = start_inv out w stdin flags.stdio [] (load out flags) h
  run_with_inv out w stdin flags (p ∷ []) h = start_inv out w stdin flags.stdio p (load out flags) h
  run_with_inv out w stdin flags (p ∷ q ∷ rest) h = cc

-- What the server has at any time: one slot, which still has the objects of its files before any others
-- and is the initialized token "example", and connections whose sessions have distinct uint64 IDs and
-- belong to that slot.
pub record IsServing (objs : List Object) (t : System) : Type 0 where
  pub token : Slot
  pub only : t.slots ≡ token ∷ []
  pub added : List Object
  pub objects : token.objects ≡ objs ++ added
  pub initialized : token.initialized ≡ true
  pub label : token.label ≡ codes "example"
  pub each : All (λ c. Inv (1 ∷ []) (view t.slots c)) t.connections

one_slot :
    (s : Slot) (ts : List Slot) → Grows (s ∷ []) ts → (t : Slot) × (ts ≡ t ∷ []) × GrowsSlot s t
one_slot s [] g = absurd g
one_slot s (t ∷ []) g = (t, refl, g.0)
one_slot s (t ∷ u ∷ ts) g = absurd g.1

Reach-IsServing : (objs : List Object) {t : System} → Reach (serving objs) t → IsServing objs t
Reach-IsServing objs {t} r =
    let (token, only, g) = one_slot (slot objs) t.slots (Reach-Grows r) in
    let (initialized, label) = g.initialized refl in
    record {
      token = token;
      only = only;
      added = g.added;
      objects = sym g.objects;
      initialized = initialized;
      label = label;
      each = (Reach-Good (1 ∷ []) r (record { slot_ids = refl; each = tt })).each;
    }

-- If `main` comes to listen, it has loaded its objects, and it serves those in one initialized slot
-- from then on, however the requests of its connections follow one another.
pub main-IsServing :
    (out : Outside) (w : World) (stdin : Bytes) (flags : Flags) (path : Bytes) (objs : List Object)
    (t : System)
    → main out w stdin flags ≡ listening path objs
    → Reach (serving objs) t
    → (load out flags ≡ done objs) × IsServing objs t
unfolding main
main-IsServing out w stdin flags path objs t h r =
    (run_with_inv path objs out w stdin flags flags.args h, Reach-IsServing objs r)
