-- ===== src/Device/Manager.antt =====
-- modules/stream-device/src/manager.cpp
use stream_cloud.Prelude.{String, not, ◌==◌, if◌then◌else◌, List, [], ◌∷◌, contains}
use stream_cloud.Api.Action.{Action, Result, ok, pure, throw, lift, undefined, ◌>>=◌}
use stream_cloud.Api.Libraries.{Libraries}
use stream_cloud.Api.Rpc
use stream_cloud.Api.Rpc.{
  RequestMessage, is_request, is_response, parse_request, at_key, param_string, serialize_request,
  serialize_response, metadata_of,
}
use stream_cloud.Api.Message.{
  Task, Message, Context, ws, http, Transport, web_socket, transport_id, error, http_context,
  text_body, document_body, task_body, transport_body, send, reply, failure,
}
use stream_cloud.Manager.Platform.{is_lost}

-- `manager::impl`
pub record Device : Type 0 where
  pub device_key : String
  pub manager_key : String
  pub profile_key : String

abbrev pub get_service_list : List String
get_service_list = "control" ∷ []

module _ (L : Libraries) where
  abbrev pub own_params : Device → L.Map
  own_params self = L.put L.empty_map "key" (L.of_string self.device_key)

  abbrev pub own_metadata : Device → L.Map
  own_metadata self =
      L.put (L.put L.empty_map "manager-key" (L.of_string self.manager_key)) "user-key"
        (L.of_string self.profile_key)

  -- what the program asks of the manager
  abbrev pub own_request : Device → String → L.Map → RequestMessage L.json
  own_request self method params = record {
    id = L.of_string "0";
    method = method;
    params = L.of_map params;
    metadata = own_metadata self;
  }

  abbrev pub connect_params : Device → L.Map
  connect_params self =
      L.put
        (L.put (own_params self) "actions"
          (L.of_array (L.of_string "control.on" ∷ L.of_string "control.off" ∷ [])))
        "variables" (L.of_array (L.of_string "control.status" ∷ []))

  -- the message with the connection and the keys in its metadata
  unfoldable pub add_keys : Device → String → L.Map → Result L.Map
  unfolding metadata_of
  add_keys self id message = Rpc.◌>>=◌ (metadata_of L.json message) λ metadata.
      let metadata' =
        L.put
          (L.put
            (L.put (L.put metadata "transport" (L.of_string id)) "device-key"
              (L.of_string self.device_key))
            "manager-key" (L.of_string self.manager_key))
          "user-key" (L.of_string self.profile_key) in
      ok (L.put message "metadata" (L.of_map metadata'))

module _ (L : Libraries) (ctx : Context) where
  -- a task, by the parts of the method's name
  unfoldable pub to_service : Task L.json → List String → Action (Message L.json) Device Unit
  unfolding contains
  to_service task (service_name ∷ method_name ∷ _) =
      if contains service_name get_service_list
      then if not (ctx.contacts service_name)
        then throw ctx.out_of_range
        else if ctx.message_types service_name method_name
        then send ctx service_name method_name (task_body task)
        -- the text of the error is put into the transport that came in, not into this new one
        else send ctx "ws" "write" (transport_body (web_socket task.transport_id L.no_text))
      else reply ctx task (failure task "service not found")
  to_service task _ = pure tt

  -- The connection is read before it is known to be there.
  unfoldable pub manager_request : L.Map → Action (Message L.json) Device Unit
  unfolding to_service parse_request Rpc.contains
  manager_request message = do
    let (metadata, message') = at_key L.json message "metadata"
    id ← lift (param_string L.json metadata "transport")
    (request, _) ← lift (parse_request L.json message')
    let task : Task L.json = record { request = request; transport_id = id; storage = [] }
    if Rpc.contains L.json request.metadata "transport"
        then to_service task (L.split request.method)
        else if request.method == "disconnect"
        then send ctx "client" "close" (text_body "")
        else pure tt

  unfoldable pub dispatcher : Transport L.json → Action (Message L.json) Device Unit
  unfolding manager_request is_request is_response serialize_request Rpc.contains
  dispatcher (web_socket id body) self =
      (do
        message ← lift (L.read body)
        if is_request L.json message
            then manager_request message
            else if Rpc.contains L.json message "error"
            then send ctx "client" "close" (text_body "")
            else if is_response L.json message
            then send ctx "client" "set_closing_message" (
                document_body (
                  serialize_request L.json
                    (own_request L self "devices.disconnect" (own_params L self))))
            else pure tt)
        self
  -- an object of another class is read as a web socket
  dispatcher (error id ws code) self = lift undefined self
  dispatcher (error id http code) self = pure tt self
  dispatcher (http_context id) self = pure tt self

  unfoldable pub handshake : Transport L.json → Action (Message L.json) Device Unit
  unfolding serialize_request
  handshake transport self =
      send ctx "client" "write"
        (transport_body (
          web_socket (transport_id L.json transport) (
            serialize_request L.json
              (own_request L self "devices.connect" (connect_params L self)))))
        self

  unfoldable pub on_error : Transport L.json → Action (Message L.json) Device Unit
  on_error (error id ws code) =
      if is_lost code
      then send ctx "client" "reconnect" (text_body "")
      else send ctx "client" "close" (transport_body (web_socket id L.no_text))
  on_error (error id http code) = pure tt
  -- an object of another class is read as an error
  on_error (web_socket id body) = lift undefined
  on_error (http_context id) = pure tt

  unfoldable pub write : Transport L.json → Action (Message L.json) Device Unit
  unfolding add_keys
  write (web_socket id body) self =
      (do
        message ← lift (L.read body)
        message' ← lift (add_keys L self id message)
        send ctx "client" "write" (transport_body (web_socket id (L.to_string message'))))
        self
  write (error id ws code) self = lift undefined self
  write (error id http code) self = pure tt self
  write (http_context id) self = pure tt self
