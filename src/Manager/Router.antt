-- ===== src/Manager/Router.antt =====
-- modules/stream-manager/src/router.cpp
pub mod Access
pub mod Dispatch
use stream_cloud.Prelude.{
  String, true, false, not, Bool, ◌||◌, ◌==◌, if◌then◌else◌, Option, none, some, List, [], ◌∷◌,
  Assoc, emplace, contains,
}
use stream_cloud.Api.Action.{Action, pure, throw, lift, undefined, ◌>>=◌, ◌>>◌}
use stream_cloud.Api.Libraries.{Libraries}
use stream_cloud.Api.Rpc
use stream_cloud.Api.Rpc.{RequestMessage, is_request, is_response, is_notify, parse_request}
use stream_cloud.Api.Message.{
  Task, Message, Context, ErrorCode, connection_reset, not_connected, closed, TransportType, ws,
  http, Transport, web_socket, error, http_context, task_body, transport_body, storage_at, send,
  failure, reply,
}

-- `router::impl`
pub record Router : Type 0 where
  pub profile_key : String
  pub manager_key : String

abbrev pub get_service_list : List String
get_service_list = "users" ∷ "devices" ∷ "groups" ∷ "subscriptions" ∷ "connections" ∷ "devices" ∷ []

abbrev pub get_quest_method_list : List String
get_quest_method_list = "users.login" ∷ "manager.info" ∷ []

abbrev pub get_user_method_list : List String
get_user_method_list =
    "devices.list" ∷ "devices.control" ∷ "devices.detail" ∷ "devices.subscribe"
    ∷ "subscriptions.devices" ∷ "devices.unsubscribe" ∷ "connections.subscribe"
    ∷ "connections.unsubscribe" ∷ []

-- The codes of a connection that the other side has ended.
abbrev pub is_gone : ErrorCode → Bool
is_gone connection_reset = true
is_gone not_connected = true
is_gone closed = true
is_gone _ = false

module _ (L : Libraries) (ctx : Context) where
  -- the task of a request, with the names of the service and of its method
  abbrev pub task_of : String → RequestMessage L.json → String → String → String → Task L.json
  task_of id request service_name method_name profile_key = record {
    request = request;
    transport_id = id;
    storage =
        emplace "profile.key" profile_key
          (emplace "service.method" method_name (emplace "service.name" service_name []));
  }

  -- the dispatcher's requests, by the parts of the method's name
  unfoldable pub route :
      Router → String → RequestMessage L.json → List String → Action (Message L.json) Router Unit
  unfolding emplace contains Rpc.contains
  route self id request (service_name ∷ method_name ∷ _) =
      let task = task_of id request service_name method_name self.profile_key in
      if Rpc.contains L.json request.metadata "user-key"
      then send ctx "users" "auth" (task_body task)
      else if contains request.method get_quest_method_list
      then send ctx service_name method_name (task_body task)
      else reply ctx task (failure task "access is denied")
  route self id request _ =
      let task : Task L.json = record { request = request; transport_id = id; storage = [] } in
      reply ctx task (failure task "not specified correctly method")

  unfoldable pub dispatcher : Transport L.json → Action (Message L.json) Router Unit
  unfolding route is_request is_response is_notify parse_request
  dispatcher (web_socket id body) self =
      (do
        message ← lift (L.read body)
        if is_request L.json message
            then (do
              (request, _) ← lift (parse_request L.json message)
              route self id request (L.split request.method))
            else if is_response L.json message
            then send ctx "devices" "response"
                (transport_body (web_socket id (L.to_string message)))
            else if is_notify L.json message
            then send ctx "devices" "notify" (transport_body (web_socket id (L.to_string message)))
            else pure tt)
        self
  -- an object of another class is read as a web socket
  dispatcher (error id ws code) self = lift undefined self
  dispatcher (error id http code) self = pure tt self
  dispatcher (http_context id) self = pure tt self

  unfoldable pub service : Task L.json → Action (Message L.json) Router Unit
  unfolding contains
  service task =
      let (service_name, storage1) = storage_at "service.name" task.storage in
      let (method_name, storage2) = storage_at "service.method" storage1 in
      let (user_admin, storage3) = storage_at "user.admin" storage2 in
      if contains service_name get_service_list
      then if not (ctx.contacts service_name)
        then throw ctx.out_of_range
        else if ctx.message_types service_name method_name
        then if user_admin == "1" || contains task.request.method get_user_method_list
          then send ctx service_name method_name (task_body (record task { storage = storage3 }))
          else reply ctx task (failure task "permission denied")
        else reply ctx task (failure task "method not found")
      else reply ctx task (failure task "service not found")

  unfoldable pub on_error : Transport L.json → Action (Message L.json) Router Unit
  on_error (error id ws code) =
      send ctx "ws" (if is_gone code then "remove" else "close")
        (transport_body (web_socket id L.no_text))
  on_error (error id http code) = pure tt
  -- an object of another class is read as an error
  on_error (web_socket id body) = lift undefined
  on_error (http_context id) = pure tt
