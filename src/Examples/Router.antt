-- ===== src/Examples/Router.antt =====
-- router.cpp, and the way of a request through users.cpp, at concrete inputs.
use stream_cloud.Prelude.{◌≡◌, refl, true, [], ◌∷◌, contains}
use stream_cloud.Api.Rpc
use stream_cloud.Api.Rpc.{RequestMessage, request_object, response_object, notify_object}
use stream_cloud.Api.Message.{Task, Message, task_body, web_socket}
use stream_cloud.Manager.Users.{auth}
use stream_cloud.Manager.Router.{Router, get_quest_method_list, task_of, route, dispatcher, service}
use stream_cloud.Manager.Router.Access.{IsPermitted, handed_on, route_guest, service-IsPermitted}
use stream_cloud.Manager.Pipeline.{IsAdmitted, authenticated, request-IsAdmitted}
use stream_cloud.Toy.{running, libraries, json, everyone, request}
use stream_cloud.Toy.Laws.{json_laws}
use stream_cloud.Examples.Rpc.{failed, changed}
use stream_cloud.Manager.Router.Dispatch.{to_devices, dispatcher_lem}
use stream_cloud.Toy.JsonTree.{text, null, field, end}
use stream_cloud.Examples.Users.{state}

abbrev self : Router
self = record { profile_key = "root.root"; manager_key = "m" }

abbrev login : RequestMessage json
login = request "users.login" null end

abbrev login_message : Message json
login_message = record {
  contact = "users";
  command = "login";
  body = task_body (task_of libraries everyone "t1" login "users" "login" "root.root");
}

login_run :
    (route libraries everyone self "t1" login ("users" ∷ "login" ∷ []) self).sent
    ≡ login_message ∷ []
unfolding route running
login_run = refl

route_guest_example : contains "users.login" get_quest_method_list ≡ true
unfolding running Rpc.contains
route_guest_example =
    route_guest libraries everyone self "t1" login ("users" ∷ "login" ∷ []) login_message _ refl
      login_run refl

abbrev bobs : RequestMessage json
bobs = request "devices.list" null (field "user-key" (text "bob.pw") end)

-- the task that `auth` passes on, and the message that `service` sends for it
abbrev passed : Task json
passed = authenticated libraries everyone self "t1" bobs "devices" "list" "bob.pw" "bob"

abbrev authenticated_message : Message json
authenticated_message = record { contact = "router"; command = "service"; body = task_body passed }

abbrev service_message : Message json
service_message = handed_on libraries everyone passed self

service_run : (service libraries everyone passed self).sent ≡ service_message ∷ []
unfolding service running
service_run = refl

auth_run :
    (auth everyone (task_of libraries everyone "t1" bobs "devices" "list" "root.root") state).sent
    ≡ authenticated_message ∷ []
unfolding auth running
auth_run = refl

service-IsPermitted_example :
    IsPermitted libraries everyone passed self
    × (service_message ≡ handed_on libraries everyone passed self)
service-IsPermitted_example =
    service-IsPermitted libraries everyone passed self service_message _ service_run refl

request-IsAdmitted_example :
    IsAdmitted libraries everyone self "t1" bobs "devices" "list" "bob.pw" state service_message
unfolding running
request-IsAdmitted_example =
    request-IsAdmitted libraries everyone self "t1" bobs "devices" "list" "bob.pw" state
      authenticated_message service_message passed _ refl auth_run refl refl service_run refl

dispatcher_lem_example :
    ((dispatcher libraries everyone (web_socket "t1" (request_object json login)) self).sent
      ≡ (route libraries everyone self "t1" login ("users" ∷ "login" ∷ []) self).sent)
    × ((dispatcher libraries everyone (web_socket "t1" (response_object json failed)) self).sent
        ≡ to_devices libraries "t1" "response" (response_object json failed) ∷ [])
    × ((dispatcher libraries everyone (web_socket "t1" (notify_object json changed)) self).sent
        ≡ to_devices libraries "t1" "notify" (notify_object json changed) ∷ [])
unfolding running
dispatcher_lem_example =
    dispatcher_lem libraries json_laws everyone self "t1" login failed changed
      (request_object json login) (response_object json failed) (notify_object json changed) refl
      refl refl refl
