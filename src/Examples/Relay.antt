-- ===== src/Examples/Relay.antt =====
-- The programs together at concrete inputs.
use stream_cloud.Prelude.{◌≡◌, refl, true, none, [], ◌∷◌}
use stream_cloud.Api.Action.{ok, threw}
use stream_cloud.Api.Rpc.{
  ResponseMessage, parse_response, serialize_request, serialize_response, request_object,
  response_object,
}
use stream_cloud.Api.Message.{
  Task, web_socket, transport_body, text_body, document_body, written, failure, reply_message,
  success,
}
use stream_cloud.Network.Listener
use stream_cloud.Network.Listener.{Listener, piped, wrote}
use stream_cloud.Platform.Managers
use stream_cloud.Platform.Managers.{with_transport, disconnect_message}
use stream_cloud.Platform.Router
use stream_cloud.Manager.Platform
use stream_cloud.Manager.Platform.{Platform, own_request}
use stream_cloud.Manager.Router as ManagerRouter
use stream_cloud.Manager.Devices.{Devices}
use stream_cloud.Device.Manager
use stream_cloud.Device.Manager.{Device}
use stream_cloud.Relay.Request.{request_across}
use stream_cloud.Relay.Reply.{response_across}
use stream_cloud.Relay.Control.{device_task}
use stream_cloud.Relay.Command.{IsCarriedOut, control_across}
use stream_cloud.Relay.Session.{to_profile, handshake_across, closing_across}
use stream_cloud.Relay.Leaving.{disconnect_received}
use stream_cloud.Toy
use stream_cloud.Toy.{running, libraries, json, everyone, task}
use stream_cloud.Toy.Laws.{json_laws}
use stream_cloud.Toy.JsonTree.{text, obj, field, end}
use stream_cloud.Examples.Platform.{managers_state, asking}

abbrev home : Platform
home = record { profile_key = "ann.pw"; manager_key = "ann.home" }

abbrev router : ManagerRouter.Router
router = record { profile_key = "root.root"; manager_key = "m" }

abbrev lamp : Device
lamp = record { device_key = "k"; manager_key = "ann.home"; profile_key = "bob.pw" }

abbrev answer : ResponseMessage json
answer = success asking (libraries.of_bool true)

request_across_example :
    (text1 text2 : libraries.Text) × ((Managers.request everyone asking managers_state).sent
      ≡ written json "m1" text1 ∷ [])
    × ((Platform.dispatcher libraries everyone (web_socket "p1" text1) home).sent
        ≡ record {
          contact = "router";
          command = "dispatcher";
          body = transport_body (web_socket "t1" text2);
        }
          ∷ [])
    × ((ManagerRouter.dispatcher libraries everyone (web_socket "t1" text2) router).sent
        ≡ (ManagerRouter.route libraries everyone router "t1"
            (with_transport libraries asking)
            (libraries.split "users.list")
            router).sent)
unfolding running serialize_request serialize_response request_object response_object
request_across_example =
    request_across libraries json_laws everyone everyone everyone asking managers_state home router
      "ann.home" "m1" "p1" refl refl refl refl refl refl

-- the listener of the manager, whose pipe is `platform`, and that of the platform
abbrev here : Listener
here = record { storage_sessions = []; pipe = "platform" ∷ [] }

abbrev there : Listener
there = record { storage_sessions = ("m1", 1) ∷ ("t1", 2) ∷ []; pipe = [] }

response_across_example :
    (text1 text2 : libraries.Text) × (m : libraries.Map) × ((Listener.write json "at"
        (web_socket "t1" (serialize_response json answer))
        here).sent
      ≡ piped "platform" (web_socket "t1" (serialize_response json answer)) ∷ [])
    × ((Platform.write libraries everyone
          (web_socket "t1" (serialize_response json answer))
          home).sent
        ≡ record {
          contact = "client";
          command = "write";
          body = transport_body (web_socket "t1" text1);
        }
          ∷ [])
    × ((Router.dispatcher libraries everyone (web_socket "m1" text1) tt).sent
        ≡ record {
          contact = "managers";
          command = "response";
          body = transport_body (web_socket "m1" text2);
        }
          ∷ [])
    × ((Managers.response {L = libraries} everyone text2 managers_state).sent
        ≡ written json "t1" (libraries.to_string m) ∷ [])
    × ((Listener.write json "at" (web_socket "t1" (libraries.to_string m)) there).sent
        ≡ wrote 2 (libraries.to_string m) ∷ [])
    × (parse_response json m ≡ ok (record answer { error = none; metadata = end }, m))
unfolding running serialize_request serialize_response request_object response_object
response_across_example =
    response_across libraries json_laws everyone everyone home managers_state here there "at" "t1"
      "m1" 2 answer refl refl refl refl refl refl refl refl

-- the device "k" is registered, and a user asks for its action
abbrev devices_state : Devices libraries
devices_state = record {
  db = record { answers = []; numbers = [] };
  members = record {
    devices_reg = ("k", "d1") ∷ [];
    device_actions_reg = ("k", []) ∷ [];
    device_variables_reg = ("k", []) ∷ [];
  };
}

abbrev commanding : Task json
commanding =
    task
      (Toy.request "devices.control" (obj (field "action" (text "control.on") end))
        (field "device-key" (text "k") end))
      []

control_across_example :
    IsCarriedOut libraries json_laws everyone everyone everyone everyone commanding devices_state
      lamp router "d1" "control.on"
      (device_task libraries json_laws "t1" commanding.request.id "control.on")
      (record { status = none })
unfolding running serialize_request serialize_response request_object response_object
control_across_example =
    control_across libraries json_laws everyone everyone everyone everyone commanding devices_state
      lamp router "d1" "control.on" (record { status = none }) refl refl refl refl refl refl refl
      refl refl refl refl refl refl

handshake_across_example :
    (sent : libraries.Text) × ((Platform.handshake libraries everyone
        (web_socket "c1" end)
        home).sent
      ≡ record {
        contact = "client";
        command = "write";
        body = transport_body (web_socket "c1" sent);
      }
        ∷ [])
    × ((Router.dispatcher libraries everyone (web_socket "m2" sent) tt).sent
        ≡ to_profile libraries everyone "m2"
            (own_request libraries home "managers.connect")
            "managers"
            "connect"
          ∷ [])
    × ((Managers.request everyone asking
          (Managers.connect everyone
            (record {
              request = own_request libraries home "managers.connect";
              transport_id = "m2";
              storage = ("profile.login", "ann") ∷ [];
            })
            managers_state).state).sent
        ≡ written json "m1" (serialize_request json (with_transport libraries asking)) ∷ [])
unfolding running serialize_request serialize_response request_object response_object
handshake_across_example =
    handshake_across libraries json_laws everyone everyone home managers_state (web_socket "c1" end)
      "m2" (("profile.login", "ann") ∷ []) asking 0 refl refl refl refl refl refl refl

closing_across_example :
    (sent : libraries.Text) × ((Platform.dispatcher libraries everyone
        (web_socket "c1" (libraries.to_string (response_object json answer)))
        home).sent
      ≡ record { contact = "client"; command = "set_closing_message"; body = document_body sent }
        ∷ [])
    × ((Router.dispatcher libraries everyone (web_socket "m1" sent) tt).sent
        ≡ to_profile libraries everyone "m1"
            (own_request libraries home "managers.disconnect")
            "managers"
            "disconnect"
          ∷ [])
    × ((Managers.request everyone asking
          (Managers.disconnect everyone
            (record {
              request = own_request libraries home "managers.disconnect";
              transport_id = "m1";
              storage = [];
            })
            managers_state).state).sent
        ≡ reply_message asking (failure asking "manager not connection") ∷ [])
unfolding running serialize_request serialize_response request_object response_object
closing_across_example =
    closing_across libraries json_laws everyone everyone home managers_state answer "m1" "c1" []
      asking refl refl refl refl refl refl refl refl

disconnect_received_example :
    ((Platform.dispatcher libraries everyone
        (web_socket "c1" (disconnect_message libraries asking))
        home).sent
      ≡ record { contact = "client"; command = "close"; body = text_body "" } ∷ [])
    × ((Manager.dispatcher libraries everyone
          (web_socket "c1" (disconnect_message libraries asking))
          lamp).sent
        ≡ [])
    × ((Manager.dispatcher libraries everyone
          (web_socket "c1" (disconnect_message libraries asking))
          lamp).result
        ≡ threw "not a map")
unfolding running serialize_request serialize_response request_object response_object
disconnect_received_example =
    disconnect_received libraries json_laws everyone asking home lamp "c1" refl refl
