-- ===== src/Server/Handlers/NewKeys.antt =====
-- The handlers that make new keys.
use go_p11_kit.Base.{ℕ, Bool, false, Option, none, some, [], ◌∷◌, ◌++◌, if◌then◌else◌}
use go_p11_kit.Codes.Attributes.{attribute_token}
use go_p11_kit.Wire.Attributes.{Attribute}
use go_p11_kit.Wire.Body.{Body, new_response}
use go_p11_kit.Wire.Body.Read.{request}
use go_p11_kit.Wire.Body.Write.{write_ulong}
use go_p11_kit.Token.Object.{Object, attribute_value}
use go_p11_kit.Token.Derive.{is_true}
use go_p11_kit.Token.Generate.{generate_key_pair}
use go_p11_kit.Token.Env.{Env}
use go_p11_kit.Server.Session.{session_object, derive}
use go_p11_kit.Server.State.{
  Action, ◌>>=◌, ◌>>◌, pure, lift, session, write_session, persist_object,
}
use go_p11_kit.Server.Requests.{generate_key_pair_request, derive_key_request}

abbrev has_true : Option Attribute → Bool
has_true none = false
has_true (some a) = is_true a.byte_value

-- Whether CKA_TOKEN is true.
unfoldable pub is_token_object : Object → Bool
unfolding attribute_value is_true
is_token_object o = has_true (attribute_value o attribute_token)

-- One round of the loop of `handleGenerateKeyPair`.
unfoldable pub persist_if_token : ℕ → Object → Action (Unit {0})
unfolding is_token_object persist_object
persist_if_token slot_id o = if is_token_object o then persist_object slot_id o else pure tt

unfoldable pub handle_generate_key_pair : Env → Body → Action Body
unfolding request generate_key_pair_request new_response session write_session generate_key_pair
    persist_if_token write_ulong
handle_generate_key_pair env req = do
  (session_id, m, pub_tmpl, priv_tmpl) ← lift (request generate_key_pair_request req)
  s ← session session_id
  (public_object, private_object) ← lift (generate_key_pair env m pub_tmpl priv_tmpl)
  write_session session_id (record s { objects = s.objects ++ public_object ∷ private_object ∷ [] })
  persist_if_token s.slot_id public_object
  persist_if_token s.slot_id private_object
  pure (write_ulong (write_ulong (new_response req) public_object.id) private_object.id)

unfoldable pub handle_derive_key : Env → Body → Action Body
unfolding request derive_key_request new_response session write_session session_object derive
    write_ulong
handle_derive_key env req = do
  (session_id, m, key_id, tmpl) ← lift (request derive_key_request req)
  s ← session session_id
  o ← lift (session_object s key_id)
  derived ← lift (derive env m o tmpl)
  write_session session_id (record s { objects = s.objects ++ derived ∷ [] })
  pure (write_ulong (new_response req) derived.id)
