-- ===== src/Platform/Router.antt =====
-- modules/stream-platform/src/router.cpp
pub mod Access
use stream_cloud.Prelude.{
  String, true, not, Bool, ◌==◌, if◌then◌else◌, List, [], ◌∷◌, Assoc, emplace, contains,
}
use stream_cloud.Api.Action.{Action, pure, throw, lift, undefined, ◌>>=◌, ◌>>◌}
use stream_cloud.Api.Libraries.{Libraries}
use stream_cloud.Api.Rpc
use stream_cloud.Api.Rpc.{RequestMessage, is_request, is_response, is_notify, parse_request}
use stream_cloud.Api.Message.{
  Task, Message, Context, ws, http, Transport, web_socket, error, http_context, task_body,
  transport_body, storage_at, send, failure, reply,
}
use stream_cloud.Manager.Router.{is_gone}

abbrev pub get_service_list : List String
get_service_list = "profile" ∷ "managers" ∷ "manager" ∷ []

abbrev pub get_quest_method_list : List String
get_quest_method_list = "profile.signup" ∷ "profile.login" ∷ "manager.info" ∷ []

-- `router::impl` has no members.
module _ (L : Libraries) (ctx : Context) where
  -- the task of a request, without names in its storage
  abbrev pub bare_task : String → RequestMessage L.json → Task L.json
  bare_task id request = record { request = request; transport_id = id; storage = [] }

  -- the task with the names of the service and of its method
  abbrev pub task_of : String → RequestMessage L.json → String → String → Task L.json
  task_of id request service_name method_name = record (bare_task id request) {
    storage = emplace "service.method" method_name (emplace "service.name" service_name []);
  }

  -- the requests that are not for a manager, by the parts of the method's name
  unfoldable pub route :
      String → RequestMessage L.json → List String → Action (Message L.json) Unit Unit
  unfolding emplace contains Rpc.contains
  route id request (service_name ∷ method_name ∷ _) =
      let task = task_of id request service_name method_name in
      if Rpc.contains L.json request.metadata "profile-key"
      then send ctx "profile" "auth" (task_body task)
      else if contains request.method get_quest_method_list
      then send ctx service_name method_name (task_body task)
      else reply ctx task (failure task "access is denied")
  route id request _ =
      let task = bare_task id request in
      reply ctx task (failure task "not specified correctly method")

  unfoldable pub dispatcher : Transport L.json → Action (Message L.json) Unit Unit
  unfolding route is_request is_response is_notify parse_request Rpc.contains
  dispatcher (web_socket id body) self =
      (do
        message ← lift (L.read body)
        if is_request L.json message
            then (do
              (request, _) ← lift (parse_request L.json message)
              if Rpc.contains L.json request.metadata "manager-key"
                  then send ctx "managers" "request" (task_body (bare_task id request))
                  else route id request (L.split request.method))
            else if is_response L.json message
            then send ctx "managers" "response"
                (transport_body (web_socket id (L.to_string message)))
            else if is_notify L.json message
            then send ctx "managers" "response"
                (transport_body (web_socket id (L.to_string message)))
            else pure tt)
        self
  -- an object of another class is read as a web socket
  dispatcher (error id ws code) self = lift undefined self
  dispatcher (error id http code) self = pure tt self
  dispatcher (http_context id) self = pure tt self

  unfoldable pub service : Task L.json → Action (Message L.json) Unit Unit
  unfolding contains
  service task =
      let (service_name, storage1) = storage_at "service.name" task.storage in
      let (method_name, storage2) = storage_at "service.method" storage1 in
      if contains service_name get_service_list
      then if not (ctx.contacts service_name)
        then throw ctx.out_of_range
        else if ctx.message_types service_name method_name
        then send ctx service_name method_name (task_body (record task { storage = storage2 }))
        else reply ctx task (failure task "method not found")
      else reply ctx task (failure task "service not found")

  unfoldable pub on_error : Transport L.json → Action (Message L.json) Unit Unit
  on_error (error id ws code) =
      send ctx "ws" (if is_gone code then "remove" else "close")
        (transport_body (web_socket id L.no_text))
  on_error (error id http code) = pure tt
  -- an object of another class is read as an error
  on_error (web_socket id body) = lift undefined
  on_error (http_context id) = pure tt
