-- ===== src/Server/Growth.antt =====
-- The slots of p11kit/p11kit.go before and after requests.
pub mod Requests
use go_p11_kit.Base.{
  ℕ, ◌≡◌, refl, ap, sym, ◌∙◌, true, false, some, List, [], ◌∷◌, ◌++◌, ◌==◌, if◌then◌else◌,
  append-nil, append_assoc, Bool-cases, inl, inr,
}
use go_p11_kit.Wire.Buffer.{Bytes}
use go_p11_kit.Token.Object.{Object}
use go_p11_kit.Server.Slot.{Slot}
use go_p11_kit.Server.State.{find_slot, update_slot}
use go_p11_kit.Server.Handlers.Info.{init_slot}

-- From `s` to `t` objects are added behind those that were there, a token that is initialized stays
-- so under its label, and all else is the same.
pub record GrowsSlot (s t : Slot) : Type 0 where
  pub added : List Object
  pub objects : s.objects ++ added ≡ t.objects
  pub initialized : s.initialized ≡ true → (t.initialized ≡ true) × (t.label ≡ s.label)
  pub fixed : t ≡ record s { label = t.label; objects = t.objects; initialized = t.initialized }

abbrev pub Grows : List Slot → List Slot → Type 0
Grows [] [] = Unit {0}
Grows [] (t ∷ ts) = ⊥
Grows (s ∷ ss) [] = ⊥
Grows (s ∷ ss) (t ∷ ts) = GrowsSlot s t × Grows ss ts

GrowsSlot-refl : (s : Slot) → GrowsSlot s s
GrowsSlot-refl s = record {
  added = [];
  objects = append-nil s.objects;
  initialized = λ h. (h, refl);
  fixed = refl;
}

GrowsSlot-trans : (s t u : Slot) → GrowsSlot s t → GrowsSlot t u → GrowsSlot s u
GrowsSlot-trans s t u g h = record {
  added = g.added ++ h.added;
  objects =
      sym (append_assoc s.objects g.added h.added) ∙ ap (λ os. os ++ h.added) g.objects ∙ h.objects;
  initialized = λ e.
      let (e', same) = g.initialized e in
      let (e'', same') = h.initialized e' in (e'', same' ∙ same);
  fixed =
      h.fixed
      ∙ ap
          (λ (v : Slot). record v {
            label = u.label;
            objects = u.objects;
            initialized = u.initialized;
          })
          g.fixed;
}

pub Grows-refl : (ss : List Slot) → Grows ss ss
Grows-refl [] = tt
Grows-refl (s ∷ ss) = (GrowsSlot-refl s, Grows-refl ss)

pub Grows-trans : (ss ts us : List Slot) → Grows ss ts → Grows ts us → Grows ss us
Grows-trans [] [] us g h = h
Grows-trans [] (t ∷ ts) us g h = absurd g
Grows-trans (s ∷ ss) [] us g h = absurd g
Grows-trans (s ∷ ss) (t ∷ ts) [] g h = h
Grows-trans (s ∷ ss) (t ∷ ts) (u ∷ us) g h =
    (GrowsSlot-trans s t u g.0 h.0, Grows-trans ss ts us g.1 h.1)

-- A write to the slot that a lookup finds.
pub Grows-update :
    (ss : List Slot) (id : ℕ) (f : Slot → Slot)
    → ((s : Slot) → find_slot ss id ≡ some s → GrowsSlot s (f s))
    → Grows ss (update_slot id f ss)
unfolding update_slot find_slot
Grows-update [] id f h = tt
Grows-update (s ∷ ss) id f h = elim (Bool-cases (s.id == id)) [
  | inl e ↦ rw e (h s (rw e refl), Grows-refl ss)
  | inr e ↦ rw e (GrowsSlot-refl s, Grows-update ss id f (λ t found. h t (rw e found)))
]

pub append-GrowsSlot :
    (s : Slot) (o : Object) → GrowsSlot s (record s { objects = s.objects ++ o ∷ [] })
append-GrowsSlot s o = record {
  added = o ∷ [];
  objects = refl;
  initialized = λ h. (h, refl);
  fixed = refl;
}

pub init_slot-GrowsSlot :
    (s : Slot) (label : Bytes) → s.initialized ≡ false → GrowsSlot s (init_slot label s)
unfolding init_slot
init_slot-GrowsSlot s label fresh = record {
  added = [];
  objects = append-nil s.objects;
  initialized = λ h. cc;
  fixed = refl;
}
