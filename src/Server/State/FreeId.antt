-- ===== src/Server/State/FreeId.antt =====
-- The loop of `newSession` of p11kit/p11kit.go, which looks for a free session ID.
use go_p11_kit.Base.{
  ℕ, zero, suc, ◌+◌, ◌-◌, ◌%◌, ◌^◌, ◌≤◌, ◌<◌, ◌≡◌, refl, subst, ◌∙◌, Bool, true, false, [], ◌∷◌,
  ◌==◌, if◌then◌else◌, length, arith, Bool-cases, inl, inr,
}
use go_p11_kit.Server.State.{Sessions, is_open, find_session, delete_session, free_id}

pub is_open-delete_session :
    (id j : ℕ) (sessions : Sessions)
    → is_open (delete_session id sessions) j ≡ (if id == j then false else is_open sessions j)
unfolding is_open find_session delete_session
is_open-delete_session id j [] = ground arith
is_open-delete_session id j ((k, s) ∷ sessions) =
    ground (arith, is_open-delete_session id j sessions)

length-delete_session_le :
    (id : ℕ) (sessions : Sessions) → length (delete_session id sessions) ≤ length sessions
unfolding delete_session
length-delete_session_le id [] = omega arith
length-delete_session_le id ((k, s) ∷ sessions) =
    ground (arith, length-delete_session_le id sessions)

length-delete_session_lt :
    (id : ℕ) (sessions : Sessions)
    → is_open sessions id ≡ true
    → length (delete_session id sessions) < length sessions
unfolding is_open find_session delete_session
length-delete_session_lt id [] e = cc
length-delete_session_lt id ((k, s) ∷ sessions) e =
    ground (arith, length-delete_session_le id sessions, length-delete_session_lt id sessions)

shift_lem : (id k : ℕ) → ((id + 1) % 2 ^ 64 + k) % 2 ^ 64 ≡ (id + suc k) % 2 ^ 64
shift_lem id k = omega arith

shift_zero : (id : ℕ) → id < 2 ^ 64 → (id + 0) % 2 ^ 64 ≡ id
shift_zero id h = omega arith

-- The search looks at the next `fuel` IDs alone.
free_id_ext :
    (fuel : ℕ) (used used' : ℕ → Bool) (id : ℕ)
    → id < 2 ^ 64
    → ((k : ℕ) → k < fuel → used ((id + k) % 2 ^ 64) ≡ used' ((id + k) % 2 ^ 64))
    → free_id fuel used id ≡ free_id fuel used' id
unfolding free_id
free_id_ext zero used used' id h agree = refl
free_id_ext (suc fuel) used used' id h agree = ground (
  arith,
  subst (λ (n : ℕ). used n ≡ used' n) (shift_zero id h) (agree 0 (omega arith)),
  free_id_ext fuel used used' ((id + 1) % 2 ^ 64) (omega arith)
      (λ (k : ℕ) (lt : k < fuel). rw (shift_lem id k) (agree (suc k) (omega arith))),
)

-- It ends at one of them, or at the one behind them.
free_id_window :
    (fuel : ℕ) (used : ℕ → Bool) (id : ℕ)
    → id < 2 ^ 64
    → (k : ℕ) × (k ≤ fuel) × (free_id fuel used id ≡ (id + k) % 2 ^ 64)
unfolding free_id
free_id_window zero used id h = (0, omega arith, omega arith)
free_id_window (suc fuel) used id h = elim (Bool-cases (used id)) [
  | inl taken ↦
      let (k, le, e) = free_id_window fuel used ((id + 1) % 2 ^ 64) (omega arith) in
      (suc k, omega arith, rw taken (e ∙ shift_lem id k))
  | inr free ↦ (0, omega arith, rw free (omega arith))
]

-- The IDs behind `id` are open as they are with `id` closed, until the search comes round.
module _ (sessions : Sessions) (id : ℕ) (h : id < 2 ^ 64) where
  rest : Sessions
  rest = delete_session id sessions

  next : ℕ
  next = (id + 1) % 2 ^ 64

  same_as_rest :
      (k : ℕ)
      → k < 2 ^ 64 - 1
      → is_open sessions ((next + k) % 2 ^ 64) ≡ is_open rest ((next + k) % 2 ^ 64)
  unfolding next rest
  same_as_rest k lt =
      ground (arith, shift_lem id k, is_open-delete_session id ((next + k) % 2 ^ 64) sessions)

  end :
      (fuel : ℕ)
      → fuel < 2 ^ 64 - 1
      → is_open rest (free_id fuel (is_open rest) next) ≡ false
      → (k : ℕ) × (k ≤ fuel) × (free_id fuel (is_open rest) next ≡ (next + k) % 2 ^ 64)
      → free_id fuel (is_open sessions) next ≡ free_id fuel (is_open rest) next
      → is_open sessions (free_id fuel (is_open sessions) next) ≡ false
  end fuel small ih (k, le, e) same = rw (same, e) (same_as_rest k (omega arith) ∙ rw (← e) ih)

  later_is_free :
      (fuel : ℕ)
      → fuel < 2 ^ 64 - 1
      → is_open rest (free_id fuel (is_open rest) next) ≡ false
      → is_open sessions (free_id fuel (is_open sessions) next) ≡ false
  later_is_free fuel small ih =
      end fuel small ih (free_id_window fuel (is_open rest) next (unfold next in omega arith)) (
        free_id_ext fuel (is_open sessions) (is_open rest) next (unfold next in omega arith)
          (λ k lt. same_as_rest k (omega arith)))

-- With fewer sessions than rounds the search ends at an ID that no session has.
pub free_id-is_free :
    (fuel : ℕ) (sessions : Sessions) (id : ℕ)
    → id < 2 ^ 64
    → length sessions < fuel
    → fuel < 2 ^ 64
    → is_open sessions (free_id fuel (is_open sessions) id) ≡ false
unfolding free_id next rest
free_id-is_free zero sessions id h room small = absurd (omega arith)
free_id-is_free (suc fuel) sessions id h room small = elim (Bool-cases (is_open sessions id)) [
  | inl taken ↦ rw taken (
      later_is_free sessions id h fuel (omega arith) (
        free_id-is_free fuel (delete_session id sessions) ((id + 1) % 2 ^ 64) (omega arith)
          (omega (arith, length-delete_session_lt id sessions taken)) (omega arith)))
  | inr free ↦ rw free free
]

pub free_id-lt : (fuel : ℕ) (used : ℕ → Bool) (id : ℕ) → id < 2 ^ 64 → free_id fuel used id < 2 ^ 64
unfolding free_id
free_id-lt zero used id h = h
free_id-lt (suc fuel) used id h =
    ground (arith, free_id-lt fuel used ((id + 1) % 2 ^ 64) (omega arith))
