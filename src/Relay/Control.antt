-- ===== src/Relay/Control.antt =====
-- A user's command on its way through the manager's devices to a device, and the device's answer.
use stream_cloud.Prelude.{String, Bool, true, none, ◌≡◌, some, [], ◌∷◌, arith}
use stream_cloud.Api.Action.{ok, ◌>>=◌, lift, undefined}
use stream_cloud.Api.Libraries.{Libraries, JsonLaws}
use stream_cloud.Api.Rpc
use stream_cloud.Api.Rpc.{
  RequestMessage, ResponseMessage, string_at, param_string, serialize_request, serialize_response,
  serialize_notify, request_object, response_object, is_request, at_key, parse_response,
  metadata_of,
}
use stream_cloud.Api.Rpc.Laws.{parse_request-request_object, find-request_object, at_key-some}
use stream_cloud.Api.Rpc.Relay.{is_request-request_object, is_empty-put, param_string-put}
use stream_cloud.Api.Message.{
  Task, Message, Context, web_socket, transport_body, task_body, send, success,
}
use stream_cloud.Device.Control.{Control, switch_to, read_status, status_notify}
use stream_cloud.Device.Manager.{Device, dispatcher, manager_request, to_service}

module _ (L : Libraries) (laws : JsonLaws L.json) (id : String) (request_id : L.Value)
    (action : String) where
  -- The request that `devices::request` builds, and the task that the device makes of it.
  abbrev pub action_request : RequestMessage L.json
  action_request = record {
    id = request_id;
    method = action;
    params = L.null;
    metadata = L.put L.empty_map "transport" (L.of_string id);
  }

  abbrev pub device_task : Task L.json
  device_task = record { request = action_request; transport_id = id; storage = [] }

  find-metadata :
      L.find (request_object L.json action_request) "metadata"
      ≡ some (L.of_map action_request.metadata)
  find-metadata =
      rw
        (
          find-request_object L.json laws,
          is_empty-put L.json laws L.empty_map "transport" (L.of_string id),
        )
        (ground arith)

  names_transport : Rpc.contains L.json action_request.metadata "transport" ≡ true
  unfolding Rpc.contains
  names_transport = rw laws.find-put (ground arith)

  pub dispatcher-action_request :
      (ctx : Context) (self : Device) (connection : String) (text : L.Text)
      → L.read text ≡ ok (request_object L.json action_request)
      → (dispatcher L ctx (web_socket connection text) self).sent
        ≡ (to_service L ctx device_task (L.split action) self).sent
  unfolding dispatcher manager_request ◌>>=◌
  dispatcher-action_request ctx self connection text read = ground (
    arith,
    is_request-request_object L.json laws action_request,
    at_key-some L.json laws (request_object L.json action_request) "metadata" find-metadata,
    param_string-put L.json laws L.empty_map "transport" id,
    parse_request-request_object L.json laws action_request,
    names_transport,
  )

module _ (L : Libraries) (ctx : Context) (task : Task L.json) where
  pub to_service-control :
      (self : Device) (method_name : String)
      → ctx.contacts "control" ≡ true
      → ctx.message_types "control" method_name ≡ true
      → (to_service L ctx task ("control" ∷ method_name ∷ []) self).sent
        ≡ record { contact = "control"; command = method_name; body = task_body task } ∷ []
  unfolding to_service send
  to_service-control self method_name known accepted = ground arith

  -- a text that "control" hands to "manager"
  abbrev pub to_manager : L.Text → Message L.json
  to_manager text = record {
    contact = "manager";
    command = "write";
    body = transport_body (web_socket task.transport_id text);
  }

  pub switch_to-sent :
      (self : Control) (value : Bool)
      → ctx.contacts "manager" ≡ true
      → (switch_to L ctx task value self).sent
        ≡ to_manager (serialize_response L.json (success task (L.of_bool true)))
          ∷ to_manager (serialize_notify L.json (status_notify L value))
          ∷ []
  unfolding switch_to ◌>>=◌ send
  switch_to-sent self value known = ground arith

  pub switch_to-status :
      (self : Control) (value : Bool)
      → ctx.contacts "manager" ≡ true
      → (switch_to L ctx task value self).state.status ≡ some value
  unfolding switch_to ◌>>=◌ send
  switch_to-status self value known = ground arith

  -- After "on" or "off" has set a value, "status" answers any task with that value; before that, what
  -- it reads is not defined, and it sends nothing.
  pub read_status-switch_to :
      (task2 : Task L.json) (self : Control) (value : Bool)
      → ctx.contacts "manager" ≡ true
      → ((read_status L ctx task2 (switch_to L ctx task value self).state).sent
          ≡ record {
            contact = "manager";
            command = "write";
            body = transport_body (
                web_socket task2.transport_id
                  (serialize_response L.json (success task2 (L.of_bool value))));
          }
            ∷ [])
        × (read_status L ctx task2 (record { status = none })
            ≡ lift undefined (record { status = none }))
  unfolding switch_to read_status ◌>>=◌ send
  read_status-switch_to task2 self value known = (ground arith, ground arith)
