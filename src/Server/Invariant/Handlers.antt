-- ===== src/Server/Invariant/Handlers.antt =====
-- The requests of p11kit/p11kit.go and the invariant of the connection.
use go_p11_kit.Base.{ℕ, ◌<◌, ◌^◌, ◌≡◌, true, List, refl, contains, map, ◌∙◌}
use go_p11_kit.Result.{ok}
use go_p11_kit.Wire.Body.{Body}
use go_p11_kit.Wire.Buffer.{Bytes}
use go_p11_kit.Server.Slot.{Slot}
use go_p11_kit.Server.State.{Conn, update_slot}
use go_p11_kit.Server.Invariant.{
  Inv, Keeps, Keeps-lift, Keeps-if, Keeps-bind, Keeps-session, Keeps-slot, Keeps-write_session,
  Keeps-update_slot, Keeps-close_session, Keeps-new_session, Keeps-persist_object,
}
use go_p11_kit.Server.Handlers.Info.{handle_init_token, init_slot}
use go_p11_kit.Server.Keeping.{Keeper}
use go_p11_kit.Server.Keeping.Requests.{dispatch-kept}
use go_p11_kit.Server.Loop.{World, step}

module _ (ids : List ℕ) where
  Keeps-init_slot :
      (resp : Body) (id : ℕ) (label : Bytes)
      → Keeps
          (Inv ids)
          (λ c. (ok resp, record c { slots = update_slot id (init_slot label) c.slots }))
  unfolding init_slot
  Keeps-init_slot resp id label = Keeps-update_slot ids resp id (init_slot label) (λ s. refl)

  init_token-Inv : (req : Body) → Keeps (Inv ids) (handle_init_token req)
  unfolding handle_init_token init_slot
  init_token-Inv req =
      search (Keeps-lift, Keeps-if, Keeps-bind, Keeps-slot, Keeps-init_slot) depth 8

  pub Inv-keeper : Keeper (Inv ids) (λ id. id < 2 ^ 64) (λ id objects. contains ids id ≡ true)
  Inv-keeper = record {
    at_session = Keeps-session ids;
    at_slot = λ id f kf. Keeps-slot ids id f λ s known. kf s;
    at_write_session = Keeps-write_session ids;
    at_append = λ id objects more h. h;
    at_close_session = Keeps-close_session ids;
    at_new_session = Keeps-new_session ids;
    at_persist_object = Keeps-persist_object ids;
    at_init_token = init_token-Inv;
  }

-- Other connections change the slots' contents, and not their IDs.
abbrev pub KeepsIds : World → Type 0
KeepsIds w =
    (n : ℕ) (slots : List Slot) → map (λ s. s.id) (w.others n slots) ≡ map (λ s. s.id) slots

-- Whatever the request and its outcome, the connection's sessions keep distinct uint64 IDs and
-- belong to slots, and the slots keep their IDs, provided that other connections keep these.
pub step-Inv :
    (ids : List ℕ) (w : World) (n : ℕ) (req : Body) (c : Conn)
    → KeepsIds w
    → Inv ids c
    → Inv ids (step w n req c).1
unfolding step
step-Inv ids w n req c same h = (dispatch-kept (Inv-keeper ids) (w.env n) req).at _ (record {
  slot_ids = same n c.slots ∙ h.slot_ids;
  last = h.last;
  served = h.served;
  distinct = h.distinct;
})
