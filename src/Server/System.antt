-- ===== src/Server/System.antt =====
-- The connections to one `Handler` of p11kit/p11kit.go: they share the slots, and their requests are
-- handled in any order.
pub mod Objects
use go_p11_kit.Base.{ℕ, ◌≡◌, List, [], ◌∷◌, ◌++◌, map, All, All-append, arith}
use go_p11_kit.Wire.Buffer.{Bytes}
use go_p11_kit.Wire.Body.{Body}
use go_p11_kit.Wire.Body.Write.{Version}
use go_p11_kit.Token.Env.{Env}
use go_p11_kit.Server.Slot.{Slot}
use go_p11_kit.Server.State.{Conn}
use go_p11_kit.Server.Invariant.{Inv}
use go_p11_kit.Server.Invariant.Handlers.{Inv-keeper}
use go_p11_kit.Server.Keeping.Requests.{dispatch-kept}
use go_p11_kit.Server.Growth.{Grows, Grows-refl, Grows-trans}
use go_p11_kit.Server.Growth.Requests.{dispatch-Grows}
use go_p11_kit.Server.Loop.{dispatch}

-- The fields of the `Handler`, and the connections that are open.
pub record System : Type 0 where
  pub manufacturer : Bytes
  pub library : Bytes
  pub library_version : Version
  pub slots : List Slot
  pub connections : List Conn

-- `h := &handler{s: s}`
unfoldable pub connect : System → Conn
connect s = record {
  manufacturer = s.manufacturer;
  library = s.library;
  library_version = s.library_version;
  slots = s.slots;
  last_session_id = 0;
  sessions = [];
}

-- A connection sees the slots as they are now.
abbrev pub view : List Slot → Conn → Conn
view slots c = record c { slots = slots }

-- After the connection has handled a request.
unfoldable pub handled : System → List Conn → Conn → List Conn → System
handled s front c back = record s { slots = c.slots; connections = front ++ c ∷ back }

-- A connection is accepted, handles one request, or ends.
pub data Move : System → System → Type 0 where
  accept : (s : System) → Move s (record s { connections = connect s ∷ s.connections })
  request :
      (s : System) (front back : List Conn) (c : Conn) (env : Env) (req : Body)
      → s.connections ≡ front ++ c ∷ back
      → Move s (handled s front (dispatch env req (view s.slots c)).1 back)
  close :
      (s : System) (front back : List Conn) (c : Conn)
      → s.connections ≡ front ++ c ∷ back
      → Move s (record s { connections = front ++ back })

pub data Reach (s : System) : System → Type 0 where
  here : Reach s s
  next : {t u : System} → Reach s t → Move t u → Reach s u

Move-Grows : {s t : System} → Move s t → Grows s.slots t.slots
unfolding handled
Move-Grows (accept s) = Grows-refl s.slots
Move-Grows (request s front back c env req e) = dispatch-Grows env req (view s.slots c)
Move-Grows (close s front back c e) = Grows-refl s.slots

-- However the requests of any number of connections follow one another, every slot keeps its objects,
-- with others behind them, a token that is initialized stays so under its label, and nothing else of a
-- slot changes.
pub Reach-Grows : {s t : System} → Reach s t → Grows s.slots t.slots
Reach-Grows {s} here = Grows-refl s.slots
Reach-Grows {s} (next r m) = Grows-trans s.slots _ _ (Reach-Grows r) (Move-Grows m)

pub All-split :
    (Q : Conn → Type 0) (front back : List Conn) (c : Conn)
    → All Q (front ++ c ∷ back)
    → All Q front × (Q c × All Q back)
All-split Q [] back c h = (tt, h)
All-split Q (d ∷ front) back c h =
    let (hs, rest) = All-split Q front back c h.1 in ((h.0, hs), rest)

-- `ids` are the IDs of the slots, and each connection has the invariant of one.
pub record Good (ids : List ℕ) (s : System) : Type 0 where
  pub slot_ids : map (λ v. v.id) s.slots ≡ ids
  pub each : All (λ c. Inv ids (view s.slots c)) s.connections

module _ (ids : List ℕ) where
  view-Inv :
      (ss ts : List Slot) (cs : List Conn)
      → map (λ v. v.id) ts ≡ ids
      → All (λ c. Inv ids (view ss c)) cs
      → All (λ c. Inv ids (view ts c)) cs
  view-Inv ss ts [] e h = tt
  view-Inv ss ts (c ∷ cs) e h = (
    record { slot_ids = e; last = h.0.last; served = h.0.served; distinct = h.0.distinct },
    view-Inv ss ts cs e h.1,
  )

  Move-Good : {s t : System} → Move s t → Good ids s → Good ids t
  unfolding handled connect
  Move-Good (accept s) h = record {
    slot_ids = h.slot_ids;
    each =
        (record { slot_ids = h.slot_ids; last = omega arith; served = tt; distinct = tt }, h.each);
  }
  Move-Good (request s front back c env req e) h =
      let (fs, (g, bs)) = All-split (λ c. Inv ids (view s.slots c)) front back c (rw e at h.each) in
      let kept = (dispatch-kept (Inv-keeper ids) env req).at (view s.slots c) g in
      record {
        slot_ids = kept.slot_ids;
        each =
            All-append _ front _ (view-Inv s.slots _ front kept.slot_ids fs)
              (kept, view-Inv s.slots _ back kept.slot_ids bs);
      }
  Move-Good (close s front back c e) h =
      let (fs, (g, bs)) = All-split (λ c. Inv ids (view s.slots c)) front back c (rw e at h.each) in
      record { slot_ids = h.slot_ids; each = All-append _ front back fs bs }

  -- However the requests of any number of connections follow one another, each connection has sessions
  -- with distinct uint64 IDs that belong to slots, and the slots have the IDs that they had, provided that
  -- this holds at first.
  pub Reach-Good : {s t : System} → Reach s t → Good ids s → Good ids t
  Reach-Good here h = h
  Reach-Good (next r m) h = Move-Good m (Reach-Good r h)
