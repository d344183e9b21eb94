-- ===== src/Server/Handlers/Objects.antt =====
-- The handlers that search for objects and read their attributes.
use go_p11_kit.Base.{◌%◌, ◌^◌, some, length, if◌then◌else◌}
use go_p11_kit.Codes.Errors.{err_attribute_type_invalid}
use go_p11_kit.Wire.Body.{Body, new_response}
use go_p11_kit.Wire.Body.Read.{request}
use go_p11_kit.Wire.Body.Write.{write_ulong, write_ulong_array, write_attribute_array}
use go_p11_kit.Server.Session.{find, find_next, attribute_values}
use go_p11_kit.Server.State.{Action, ◌>>=◌, ◌>>◌, pure, lift, session, write_session}
use go_p11_kit.Server.Requests.{
  id_request, find_objects_init_request, count_request, get_attribute_value_request,
}

unfoldable pub handle_find_objects_init : Body → Action Body
unfolding request find_objects_init_request new_response session write_session find
handle_find_objects_init req = do
  (session_id, tmpl) ← lift (request find_objects_init_request req)
  s ← session session_id
  write_session session_id (find s tmpl)
  pure (new_response req)

unfoldable pub handle_find_objects : Body → Action Body
unfolding request count_request new_response session write_session find_next write_ulong_array
handle_find_objects req = do
  (session_id, count) ← lift (request count_request req)
  s ← session session_id
  let (ids, s') = find_next s count
  write_session session_id s'
  pure (write_ulong_array (new_response req) (some ids) (length ids % 2 ^ 32))

-- The session is read, and neither looked up nor changed.
unfoldable pub handle_find_objects_final : Body → Action Body
unfolding request id_request new_response
handle_find_objects_final req = do lift (request id_request req); pure (new_response req)

unfoldable pub handle_get_attribute_value : Body → Action Body
unfolding request get_attribute_value_request new_response session attribute_values
    write_attribute_array write_ulong
handle_get_attribute_value req = do
  (session_id, object_id, tmpl) ← lift (request get_attribute_value_request req)
  s ← session session_id
  (attrs, all_valid) ← lift (attribute_values s object_id tmpl)
  pure (
      write_ulong (write_attribute_array (new_response req) attrs)
        (if all_valid then 0 else err_attribute_type_invalid))
