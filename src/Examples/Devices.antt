-- ===== src/Examples/Devices.antt =====
-- devices.cpp at concrete inputs.
use stream_cloud.Prelude.{◌≡◌, refl, [], ◌∷◌, All}
use stream_cloud.Api.Message.{Task, transport_body, web_socket, reply_message, failure}
use stream_cloud.Api.Answers.{Answers}
use stream_cloud.Api.Effects.{Keeps}
use stream_cloud.Api.Database.{OfMembers}
use stream_cloud.Manager.Devices.{
  Devices, device_handlers, answering, device_request, set_of, connect, disconnect, request,
}
use stream_cloud.Manager.Devices.Answers.{hop_of, answering-Answers}
use stream_cloud.Manager.Devices.Registration.{IsAligned, device_handlers-IsAligned}
use stream_cloud.Manager.Devices.Relay.{IsConnecting, request-connect, request-disconnect}
use stream_cloud.Toy
use stream_cloud.Toy.{running, libraries, json, everyone, task}
use stream_cloud.Toy.JsonTree.{text, obj, arr, nil, cons, field, end}

-- the device "k" is registered with an older connection
abbrev state : Devices libraries
state = record {
  db = record { answers = []; numbers = ("select count(*) from devices where key = ?;", 1) ∷ [] };
  members = record {
    devices_reg = ("k", "old") ∷ [];
    device_actions_reg = ("k", []) ∷ [];
    device_variables_reg = ("k", []) ∷ [];
  };
}

abbrev connecting : Task json
connecting =
    task
      (Toy.request "devices.connect"
        (obj (
          field "key" (text "k")
            (field "actions" (arr (cons (text "blink") nil)) (field "variables" (arr nil) end))))
        end)
      []

abbrev leaving : Task json
leaving = task (Toy.request "devices.disconnect" (obj (field "key" (text "k") end)) end) []

abbrev asking : Task json
asking =
    task
      (Toy.request "devices.control" (obj (field "action" (text "blink") end))
        (field "device-key" (text "k") end))
      []

answering-Answers_example :
    All
      (λ h. Answers {S = Devices libraries} (hop_of h.0) connecting h.1)
      (answering everyone connecting)
answering-Answers_example = answering-Answers everyone connecting

device_handlers-IsAligned_example :
    All (λ h. Keeps (OfMembers {L = libraries} IsAligned) h.1) (device_handlers everyone connecting)
device_handlers-IsAligned_example = device_handlers-IsAligned everyone connecting

connecting-IsConnecting : IsConnecting everyone connecting state "k"
unfolding running set_of
connecting-IsConnecting = record {
  given = refl;
  action_values = text "blink" ∷ [];
  variable_values = [];
  given_actions = refl;
  given_variables = refl;
  some_given = refl;
  actions = "blink" ∷ [];
  variables = [];
  read_actions = refl;
  read_variables = refl;
  count = 0;
  in_database = refl;
}

request-connect_example :
    (request everyone asking (connect everyone connecting state).state).sent
    ≡ record {
      contact = "ws";
      command = "write";
      body = transport_body (web_socket "old" (device_request libraries asking "blink"));
    }
      ∷ []
unfolding running
request-connect_example =
    request-connect everyone connecting asking state "k" "blink" connecting-IsConnecting refl refl
      refl

request-disconnect_example :
    (request everyone asking (disconnect everyone leaving state).state).sent
    ≡ reply_message asking (failure asking "device not connected") ∷ []
unfolding running
request-disconnect_example = request-disconnect everyone leaving asking state "k" refl refl refl
