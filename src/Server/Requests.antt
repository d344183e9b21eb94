-- ===== src/Server/Requests.antt =====
-- What each handler of p11kit/p11kit.go reads from its request, in the order in which it reads.
use go_p11_kit.Base.{ℕ, Option, List}
use go_p11_kit.Wire.Buffer.{Bytes}
use go_p11_kit.Wire.Attributes.{Attribute}
use go_p11_kit.Wire.Mechanisms.{Mechanism}
use go_p11_kit.Wire.Body.Read.{
  Parser, ◌>>=◌, ◌>>◌, pure, read_byte, read_byte_array, read_zero_string, read_ulong,
  read_ulong_buffer, read_byte_buffer, read_mechanism, read_attribute_array, AttributeTemplate,
  read_attribute_buffer,
}

-- The handshake; the reserved byte and the reserved data are not looked at.
unfoldable pub initialize_request : Parser (Option Bytes)
unfolding read_byte_array read_byte
initialize_request = do handshake ← read_byte_array; read_byte; read_byte_array; pure handshake.0

-- A slot or a session and nothing else.
unfoldable pub id_request : Parser ℕ
unfolding read_ulong
id_request = read_ulong

unfoldable pub slot_list_request : Parser ℕ
unfolding read_byte read_ulong_buffer
slot_list_request = do read_byte; read_ulong_buffer

-- A slot and a count, of C_GetMechanismList; a session and a count, of C_FindObjects.
unfoldable pub count_request : Parser (ℕ × ℕ)
unfolding read_ulong read_ulong_buffer
count_request = do id ← read_ulong; count ← read_ulong_buffer; pure (id, count)

-- A slot and a mechanism, of C_GetMechanismInfo; a slot and flags, of C_OpenSession.
unfoldable pub two_ulongs_request : Parser (ℕ × ℕ)
unfolding read_ulong
two_ulongs_request = do id ← read_ulong; n ← read_ulong; pure (id, n)

-- The slot and the label; the PIN is not looked at.
unfoldable pub init_token_request : Parser (ℕ × Bytes)
unfolding read_ulong read_byte_array read_zero_string
init_token_request = do
  slot_id ← read_ulong
  read_byte_array
  label ← read_zero_string
  pure (slot_id, label)

-- The session and the type of the user; the PIN is not looked at.
unfoldable pub login_request : Parser (ℕ × ℕ)
unfolding read_ulong read_byte_array
login_request = do
  session_id ← read_ulong
  user_type ← read_ulong
  read_byte_array
  pure (session_id, user_type)

unfoldable pub find_objects_init_request : Parser (ℕ × List Attribute)
unfolding read_ulong read_attribute_array
find_objects_init_request = do
  session_id ← read_ulong
  tmpl ← read_attribute_array
  pure (session_id, tmpl)

unfoldable pub get_attribute_value_request : Parser (ℕ × ℕ × List AttributeTemplate)
unfolding read_ulong read_attribute_buffer
get_attribute_value_request = do
  session_id ← read_ulong
  object_id ← read_ulong
  attrs ← read_attribute_buffer
  pure (session_id, object_id, attrs)

unfoldable pub sign_init_request : Parser (ℕ × Mechanism × ℕ)
unfolding read_ulong read_mechanism
sign_init_request = do
  session_id ← read_ulong
  m ← read_mechanism
  key_id ← read_ulong
  pure (session_id, m, key_id)

-- The session and the data; the size of the client's buffer is not looked at.
unfoldable pub sign_request : Parser (ℕ × Option Bytes)
unfolding read_ulong read_byte_array read_byte_buffer
sign_request = do
  session_id ← read_ulong
  d ← read_byte_array
  read_byte_buffer
  pure (session_id, d.0)

unfoldable pub sign_update_request : Parser (ℕ × Option Bytes)
unfolding read_ulong read_byte_array
sign_update_request = do session_id ← read_ulong; d ← read_byte_array; pure (session_id, d.0)

unfoldable pub sign_final_request : Parser ℕ
unfolding read_ulong read_byte_buffer
sign_final_request = do session_id ← read_ulong; read_byte_buffer; pure session_id

unfoldable pub generate_key_pair_request : Parser (ℕ × Mechanism × List Attribute × List Attribute)
unfolding read_ulong read_mechanism read_attribute_array
generate_key_pair_request = do
  session_id ← read_ulong
  m ← read_mechanism
  pub_tmpl ← read_attribute_array
  priv_tmpl ← read_attribute_array
  pure (session_id, m, pub_tmpl, priv_tmpl)

unfoldable pub derive_key_request : Parser (ℕ × Mechanism × ℕ × List Attribute)
unfolding read_ulong read_mechanism read_attribute_array
derive_key_request = do
  session_id ← read_ulong
  m ← read_mechanism
  key_id ← read_ulong
  tmpl ← read_attribute_array
  pure (session_id, m, key_id, tmpl)
