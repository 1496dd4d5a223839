-- ===== src/Relay/Command.antt =====
-- A user's command and the device's answer, through every program that passes them on.
use stream_cloud.Prelude.{String, true, ◌≡◌, ◌∙◌, ap, none, some, [], ◌∷◌, lookup}
use stream_cloud.Api.Action.{ok}
use stream_cloud.Api.Libraries.{Libraries, JsonLaws}
use stream_cloud.Api.Rpc.{
  string_at, param_string, serialize_request, serialize_response, serialize_notify, parse_response,
  request_object, response_object, ResponseMessage,
}
use stream_cloud.Api.Message.{
  Task, Context, web_socket, transport_body, task_body, written, success,
}
use stream_cloud.Manager.Router
use stream_cloud.Manager.Router.{Router}
use stream_cloud.Manager.Devices
use stream_cloud.Manager.Devices.{Devices}
use stream_cloud.Manager.Devices.Relay.{request_registered}
use stream_cloud.Device.Control.{Control, on, status_notify, switch_to}
use stream_cloud.Device.Manager.{Device, dispatcher, to_service, write}
use stream_cloud.Relay.Control.{
  action_request, device_task, dispatcher-action_request, to_service-control, switch_to-sent,
  switch_to-status,
}
use stream_cloud.Relay.DeviceReply.{
  named, stripped, write-response_object, dispatcher-named, response-named,
}
use stream_cloud.Api.Rpc.Relay.{parse_response_without}

module _ (L : Libraries) (laws : JsonLaws L.json) (devices router device control : Context)
    (task : Task L.json) (s : Devices L) (self : Device) (router_self : Router)
    (connection action : String) where
  -- The device's response, with the id of the request and the result true.
  abbrev pub device_response : ResponseMessage L.json
  device_response =
      success (device_task L laws task.transport_id task.request.id action) (L.of_bool true)

  -- What happens to a command of the user, message by message.
  pub record IsCarriedOut (t : Task L.json) (c : Control) : Type 0 where
    pub text1 : L.Text
    pub text2 : L.Text
    pub text3 : L.Text
    pub text4 : L.Text
    pub answer : L.Map
    pub asked : (Devices.request devices task s).sent ≡ written L.json connection text1 ∷ []
    pub taken :
        (dispatcher L device (web_socket "" text1) self).sent
        ≡ record { contact = "control"; command = "on"; body = task_body t } ∷ []
    pub switched :
        (on L control t c).sent
        ≡ record {
          contact = "manager";
          command = "write";
          body = transport_body (web_socket task.transport_id text2);
        }
          ∷ record {
            contact = "manager";
            command = "write";
            body =
                transport_body
                  (web_socket task.transport_id (serialize_notify L.json (status_notify L true)));
          }
          ∷ []
    pub status : (on L control t c).state.status ≡ some true
    pub written_back :
        (write L device (web_socket task.transport_id text2) self).sent
        ≡ record {
          contact = "client";
          command = "write";
          body = transport_body (web_socket task.transport_id text3);
        }
          ∷ []
    pub recognised :
        (Router.dispatcher L router (web_socket connection text3) router_self).sent
        ≡ record {
          contact = "devices";
          command = "response";
          body = transport_body (web_socket connection text4);
        }
          ∷ []
    pub answered :
        (Devices.response devices connection text4 s).sent
        ≡ written L.json task.transport_id (L.to_string answer) ∷ []
    pub parsed :
        parse_response L.json answer
        ≡ ok (
          record {
            id = task.request.id;
            result = L.of_bool true;
            metadata = L.empty_map;
            error = none;
          },
          answer,
        )

  -- A user's request for the action "on" of a registered device reaches the device's `control`, which
  -- turns its status on; its response comes back through the device's `manager`, the manager's router
  -- and `devices`, to the connection of the user, with the id of the request and the result true.
  -- The texts of the request to the device, of its response, and of that response with the keys are
  -- read back as the maps that were written, the JSON maps have their documented laws, the action's
  -- name splits into "control" and "on", and the actors know the contacts that they send to.
  pub control_across :
      (c : Control)
      → (let asked =
            request_object L.json
              (action_request L laws task.transport_id task.request.id action) in
          L.read (L.to_string asked) ≡ ok asked)
      → L.read (serialize_response L.json device_response)
        ≡ ok (response_object L.json device_response)
      → (let sent = named L laws self task.transport_id device_response in
          L.read (L.to_string sent) ≡ ok sent)
      → string_at L.json task.request.metadata "device-key" ≡ ok self.device_key
      → param_string L.json task.request.params "action" ≡ ok action
      → lookup self.device_key s.members.devices_reg ≡ some connection
      → L.split action ≡ "control" ∷ "on" ∷ []
      → devices.contacts "ws" ≡ true
      → router.contacts "devices" ≡ true
      → device.contacts "control" ≡ true
      → device.message_types "control" "on" ≡ true
      → device.contacts "client" ≡ true
      → control.contacts "manager" ≡ true
      → IsCarriedOut (device_task L laws task.transport_id task.request.id action) c
  unfolding serialize_request serialize_response on switch_to
  control_across c read_asked read_response read_named given asked found parts k1 k2 k3 k4 k5 k6 =
      let t = device_task L laws task.transport_id task.request.id action in
      let r = success t (L.of_bool true) in
      record {
        text1 = Devices.device_request L task action;
        text2 = serialize_response L.json r;
        text3 = L.to_string (named L laws self task.transport_id r);
        text4 = L.to_string (named L laws self task.transport_id r);
        answer = stripped L laws self task.transport_id r;
        asked =
            request_registered devices task s self.device_key connection action given found asked
              k1;
        taken =
            dispatcher-action_request L laws task.transport_id task.request.id action device self ""
              _ read_asked
            ∙ ap (λ p. (to_service L device t p self).sent) parts
            ∙ to_service-control L device t self "on" k3 k4;
        switched = switch_to-sent L control t c true k6;
        status = switch_to-status L control t c true k6;
        written_back =
            write-response_object L laws self task.transport_id r device _ read_response k5;
        recognised =
            dispatcher-named L laws self task.transport_id r router router_self connection _
              read_named k2;
        answered =
            response-named L laws self task.transport_id r devices s connection connection _
              read_named found k1;
        parsed = parse_response_without L.json laws r _;
      }
