-- ===== src/Device/Control.antt =====
-- modules/stream-device/src/control.cpp
use stream_cloud.Prelude.{String, Bool, true, false, Option, some, List, [], ◌∷◌}
use stream_cloud.Api.Action.{Action, gets, modify, lift, or_undefined, ◌>>=◌, ◌>>◌}
use stream_cloud.Api.Libraries.{Libraries}
use stream_cloud.Api.Rpc.{NotifyMessage, serialize_response, serialize_notify}
use stream_cloud.Api.Message.{Task, Message, Context, transport_body, web_socket, send, success}

-- `control::impl`: its one member is not initialised; `none` stands for that.
pub record Control : Type 0 where
  pub status : Option Bool

-- The notification that the variable "control.status" has a new value.
abbrev pub status_notify : (L : Libraries) → Bool → NotifyMessage L.json
status_notify L value = record {
  method = "control.status";
  params = L.of_bool value;
  metadata = L.empty_map;
}

module _ (L : Libraries) (ctx : Context) (task : Task L.json) where
  -- a text for the connection of the task, by way of "manager"
  abbrev pub to_manager : L.Text → Action (Message L.json) Control Unit
  to_manager text = send ctx "manager" "write" (transport_body (web_socket task.transport_id text))

  -- the handlers "on" and "off", which set their values and answer alike
  unfoldable pub switch_to : Bool → Action (Message L.json) Control Unit
  unfolding serialize_response serialize_notify
  switch_to value = do
    modify (λ self. record { status = some value })
    to_manager (serialize_response L.json (success task (L.of_bool true)))
    to_manager (serialize_notify L.json (status_notify L value))

  unfoldable pub on : Action (Message L.json) Control Unit
  unfolding switch_to
  on = switch_to true

  unfoldable pub off : Action (Message L.json) Control Unit
  unfolding switch_to
  off = switch_to false

  unfoldable pub read_status : Action (Message L.json) Control Unit
  unfolding serialize_response
  read_status = do
    status ← gets (λ self. self.status)
    value ← lift (or_undefined status)
    to_manager (serialize_response L.json (success task (L.of_bool value)))

  -- the attached handlers, by their command
  abbrev pub control_handlers : List (String × Action (Message L.json) Control Unit)
  control_handlers = ("on", on) ∷ ("off", off) ∷ ("status", read_status) ∷ []
