-- ===== src/Server/Multipart.antt =====
-- Signatures in several parts, of p11kit/p11kit.go: C_SignUpdate any number of times, then C_SignFinal.
use go_p11_kit.Base.{
  ℕ, ◌%◌, ◌^◌, ◌<◌, ◌≡◌, refl, ap, sym, ◌∙◌, Option, some, List, [], ◌∷◌, ◌++◌, length, All, arith,
  append_assoc, append-nil, ==_refl,
}
use go_p11_kit.Codes.Calls.{call_sign_update, call_sign_final}
use go_p11_kit.Result.{Result, ok, err, ◌>>=◌}
use go_p11_kit.Wire.Buffer.{
  Bytes, be32, null_length, add_byte, add_uint32, add_uint64, add_byte_array, uint32,
}
use go_p11_kit.Wire.Body.{Body, empty_body, new_response, sig_byte_buffer}
use go_p11_kit.Wire.Body.Write.{write, write_ulong, write_byte_array, add_optional_bytes}
use go_p11_kit.Wire.Body.Read.{request, read_byte_array, read_byte_buffer, string_of}
use go_p11_kit.Wire.Body.RoundTrip.{
  followed, read_ulong-write_ulong, read_byte_array-write_byte_array,
}
use go_p11_kit.Token.Env.{Env}
use go_p11_kit.Token.Sign.{sign}
use go_p11_kit.Server.Session.{Session}
use go_p11_kit.Server.State.{
  Conn, continue, pure, find_session, session, write_session, put_session,
}
use go_p11_kit.Server.State.Sessions.{find_session-put_session}
use go_p11_kit.Server.Requests.{sign_update_request, sign_final_request}
use go_p11_kit.Server.Handlers.Signing.{handle_sign_update, handle_sign_final}

-- The body that a client sends to have more data signed in a session.
abbrev pub update_request : ℕ → Bytes → Body
update_request id d = write_byte_array (write_ulong (empty_body call_sign_update) id) (some d) 0

array_behind :
    (call id : ℕ) (d : Bytes)
    → write_byte_array (write_ulong (empty_body call) id) (some d) 0
      ≡ followed
          (write_ulong (empty_body call) id)
          (write_byte_array (empty_body call) (some d) 0).signature
          (write_byte_array (empty_body call) (some d) 0).buffer
unfolding write_byte_array add_optional_bytes write write_ulong add_byte_array add_byte add_uint32
    add_uint64
array_behind call id d = simp append_assoc

nothing_behind :
    (call : ℕ) (d : Bytes)
    → followed (write_byte_array (empty_body call) (some d) 0) [] []
      ≡ followed
          (empty_body call)
          (write_byte_array (empty_body call) (some d) 0).signature
          (write_byte_array (empty_body call) (some d) 0).buffer
unfolding write_byte_array write
nothing_behind call d =
    ap
      (λ (x : Bytes). record (followed (write_byte_array (empty_body call) (some d) 0) [] []) {
        buffer = x;
      })
      (append-nil (add_optional_bytes [] (some d) 0))

array_alone :
    (call : ℕ) (d : Bytes)
    → length d < null_length
    → read_byte_array (
        followed
          (empty_body call)
          (write_byte_array (empty_body call) (some d) 0).signature
          (write_byte_array (empty_body call) (some d) 0).buffer)
      ≡ (some (some d, 0), empty_body call)
array_alone call d k =
    ap read_byte_array (sym (nothing_behind call d))
    ∙ read_byte_array-write_byte_array call 0 (some d) [] [] (omega arith)
        λ a e. omega (arith, k, ap (λ (o : Option Bytes). length (string_of o)) e)

update_request_lem :
    (id : ℕ) (d : Bytes)
    → id < 2 ^ 64
    → length d < null_length
    → request sign_update_request (update_request id d) ≡ ok (id, some d)
unfolding request sign_update_request
update_request_lem id d h k = rw (
  array_behind call_sign_update id d,
  read_ulong-write_ulong call_sign_update id
      (write_byte_array (empty_body call_sign_update) (some d) 0).signature
      (write_byte_array (empty_body call_sign_update) (some d) 0).buffer h,
  array_alone call_sign_update d k,
)

-- The session after data was added to what is to be signed.
abbrev pub extended : Session → Bytes → Session
extended s d = record s { sign_data = s.sign_data ++ d }

update_lem :
    (id : ℕ) (d : Bytes) (c : Conn) (s : Session)
    → id < 2 ^ 64
    → length d < null_length
    → find_session c.sessions id ≡ some s
    → (handle_sign_update (update_request id d) c).1
      ≡ record c { sessions = put_session id (extended s d) c.sessions }
unfolding handle_sign_update session write_session
update_lem id d c s h k e = rw (update_request_lem id d h k, e)

-- The body of C_SignFinal of a client whose buffer holds `n` bytes.
abbrev pub final_request : ℕ → ℕ → Body
final_request id n = followed (write_ulong (empty_body call_sign_final) id) sig_byte_buffer (be32 n)

final_request_lem :
    (id n : ℕ) → id < 2 ^ 64 → n < 2 ^ 32 → request sign_final_request (final_request id n) ≡ ok id
unfolding request sign_final_request read_byte_buffer uint32 be32
final_request_lem id n h k =
    rw (read_ulong-write_ulong call_sign_final id sig_byte_buffer (be32 n) h)

-- The answer that holds a signature.
abbrev pub signed : Result Bytes → Result Body
signed r =
    r >>= λ sig. ok (write_byte_array (empty_body call_sign_final) (some sig) (length sig % 2 ^ 32))

continue-signed :
    (r : Result Bytes) (c : Conn)
    → continue r
        (λ sig.
          pure (write_byte_array (empty_body call_sign_final) (some sig) (length sig % 2 ^ 32)))
        c
      ≡ (signed r, c)
continue-signed (ok sig) c = refl
continue-signed (err e) c = refl

final_lem :
    (env : Env) (id n : ℕ) (c : Conn) (s : Session)
    → id < 2 ^ 64
    → n < 2 ^ 32
    → find_session c.sessions id ≡ some s
    → handle_sign_final env (final_request id n) c
      ≡ (signed (sign env s.sign_object s.sign_mechanism s.sign_data), c)
unfolding handle_sign_final session new_response write_ulong
final_lem env id n c s h k e =
    rw (final_request_lem id n h k, e)
      (continue-signed (sign env s.sign_object s.sign_mechanism s.sign_data) c)

-- C_SignUpdate with one piece of data after the other.
abbrev pub updated : ℕ → List Bytes → Conn → Conn
updated id [] c = c
updated id (d ∷ ds) c = updated id ds (handle_sign_update (update_request id d) c).1

abbrev pub joined : List Bytes → Bytes
joined [] = []
joined (d ∷ ds) = d ++ joined ds

abbrev pub IsPiece : Bytes → Type 0
IsPiece d = length d < null_length

updated_lem :
    (id : ℕ) (ds : List Bytes) (c : Conn) (s : Session)
    → id < 2 ^ 64
    → All IsPiece ds
    → find_session c.sessions id ≡ some s
    → find_session (updated id ds c).sessions id ≡ some (extended s (joined ds))
updated_lem id [] c s h hs e =
    e ∙ ap (λ (x : Bytes). some (record s { sign_data = x })) (sym (append-nil s.sign_data))
updated_lem id (d ∷ ds) c s h (k, hs) e =
    updated_lem id ds (handle_sign_update (update_request id d) c).1 (extended s d) h hs found
    ∙ ap (λ (x : Bytes). some (record s { sign_data = x })) (append_assoc s.sign_data d (joined ds))
  where
    found :
        find_session (handle_sign_update (update_request id d) c).1.sessions id
        ≡ some (extended s d)
    found =
        ap (λ (c' : Conn). find_session c'.sessions id) (update_lem id d c s h k e)
        ∙ find_session-put_session id id (extended s d) c.sessions
        ∙ rw (==_refl id)

-- For a uint64 ID of an open session, a uint32 size of the client's buffer, and data of lengths
-- below that of nil: after any number of C_SignUpdate, C_SignFinal answers with the signature, by
-- the session's key and mechanism, of what the session held before and then the data of each in
-- turn; and it leaves all of that in the session.
pub multipart_lem :
    (env : Env) (id n : ℕ) (ds : List Bytes) (c : Conn) (s : Session)
    → id < 2 ^ 64
    → n < 2 ^ 32
    → All IsPiece ds
    → find_session c.sessions id ≡ some s
    → ((handle_sign_final env (final_request id n) (updated id ds c)).0
        ≡ signed (sign env s.sign_object s.sign_mechanism (s.sign_data ++ joined ds)))
      × (find_session (handle_sign_final env (final_request id n) (updated id ds c)).1.sessions id
          ≡ some (extended s (joined ds)))
multipart_lem env id n ds c s h k hs e =
    let held = updated_lem id ds c s h hs e in
    let final = final_lem env id n (updated id ds c) (extended s (joined ds)) h k held in
    (
      ap (λ (p : Result Body × Conn). p.0) final,
      ap (λ (p : Result Body × Conn). find_session p.1.sessions id) final ∙ held,
    )
