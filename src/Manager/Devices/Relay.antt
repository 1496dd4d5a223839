-- ===== src/Manager/Devices/Relay.antt =====
-- Where the requests to a device and its responses go.
use stream_cloud.Prelude.{
  String, ℕ, suc, true, ◌≡◌, ◌||◌, eq_refl, none, some, List, [], ◌∷◌, arith, is_nil, not, lookup,
  lookup-emplace, lookup-erase, or_else,
}
use stream_cloud.Api.Action.{ok, ◌>>=◌, try_catch}
use stream_cloud.Api.Libraries.{Libraries}
use stream_cloud.Api.Rpc
use stream_cloud.Api.Rpc.{param_string, string_at, param, get_array}
use stream_cloud.Api.Message.{
  Task, Context, transport_body, web_socket, send, reply, guarded, guarded_after, failure,
  reply_message,
}
use stream_cloud.Api.Database.{query_number, set_members, members}
use stream_cloud.Manager.Devices.{
  Registry, Devices, is_reg_device, add_reg_device, remove_reg_device, get_device_transport_id,
  set_of, device_request, connect, disconnect, request,
}

lookup-add_reg_device :
    (key id : String) (actions variables : List String) (reg : Registry)
    → lookup key (add_reg_device key id actions variables reg).devices_reg
      ≡ some (or_else id (lookup key reg.devices_reg))
unfolding add_reg_device
lookup-add_reg_device key id actions variables reg =
    ground (arith, lookup-emplace key key id reg.devices_reg, eq_refl key)

module _ {L : Libraries} (ctx : Context) where
  -- The arguments with which `connect` registers a device.
  pub record IsConnecting (task : Task L.json) (s : Devices L) (key : String) : Type 0 where
    pub given : param_string L.json task.request.params "key" ≡ ok key
    pub action_values : List L.Value
    pub variable_values : List L.Value
    pub given_actions :
        Rpc.◌>>=◌ (param L.json task.request.params "actions") (get_array L.json) ≡ ok action_values
    pub given_variables :
        Rpc.◌>>=◌ (param L.json task.request.params "variables") (get_array L.json)
        ≡ ok variable_values
    pub some_given : (not (is_nil action_values) || not (is_nil variable_values)) ≡ true
    pub actions : List String
    pub variables : List String
    pub read_actions : set_of L.json action_values [] ≡ ok actions
    pub read_variables : set_of L.json variable_values [] ≡ ok variables
    pub count : ℕ
    pub in_database :
        L.number s.db "select count(*) from devices where key = ?;" (key ∷ []) ≡ ok (suc count)

  connect-members :
      (task : Task L.json) (s : Devices L) (key : String) (c : IsConnecting task s key)
      → (connect ctx task s).state.members
        ≡ add_reg_device key task.transport_id c.actions c.variables s.members
  unfolding connect ◌>>=◌ guarded guarded_after try_catch query_number set_members reply
  connect-members task s key c = ground arith

  -- How `request` goes on for a registered device, and for another one.
  pub request_registered :
      (task : Task L.json) (s : Devices L) (key id action : String)
      → string_at L.json task.request.metadata "device-key" ≡ ok key
      → lookup key s.members.devices_reg ≡ some id
      → param_string L.json task.request.params "action" ≡ ok action
      → ctx.contacts "ws" ≡ true
      → (request ctx task s).sent
        ≡ record {
          contact = "ws";
          command = "write";
          body = transport_body (web_socket id (device_request L task action));
        }
          ∷ []
  unfolding request is_reg_device get_device_transport_id ◌>>=◌ members send
  request_registered task s key id action given found asked known = ground arith

  request_unregistered :
      (task : Task L.json) (s : Devices L) (key : String)
      → string_at L.json task.request.metadata "device-key" ≡ ok key
      → lookup key s.members.devices_reg ≡ none
      → ctx.contacts "ws" ≡ true
      → (request ctx task s).sent ≡ reply_message task (failure task "device not connected") ∷ []
  unfolding request is_reg_device ◌>>=◌ members send reply
  request_unregistered task s key given found known = ground arith

  -- After a device of the database has connected with at least one action or variable, a request
  -- to it goes to the connection that it came from; but if the key was registered before, the
  -- request goes to the connection that was registered first.
  pub request-connect :
      (task1 task2 : Task L.json) (s : Devices L) (key action : String)
      → IsConnecting task1 s key
      → string_at L.json task2.request.metadata "device-key" ≡ ok key
      → param_string L.json task2.request.params "action" ≡ ok action
      → ctx.contacts "ws" ≡ true
      → (request ctx task2 (connect ctx task1 s).state).sent
        ≡ record {
          contact = "ws";
          command = "write";
          body = transport_body (
              web_socket
                (or_else task1.transport_id (lookup key s.members.devices_reg))
                (device_request L task2 action));
        }
          ∷ []
  request-connect task1 task2 s key action c given asked known =
      request_registered task2 (connect ctx task1 s).state key _ action given
        (rw (connect-members task1 s key c)
          (lookup-add_reg_device key task1.transport_id c.actions c.variables s.members))
        asked known

  disconnect-members :
      (task : Task L.json) (s : Devices L) (key : String)
      → param_string L.json task.request.params "key" ≡ ok key
      → (disconnect ctx task s).state.members ≡ remove_reg_device key s.members
  unfolding disconnect ◌>>=◌ try_catch set_members
  disconnect-members task s key given = ground arith

  -- After a device has disconnected, a request to it is answered with an error, and nothing is
  -- sent to a device, if the actor knows the web sockets.
  pub request-disconnect :
      (task1 task2 : Task L.json) (s : Devices L) (key : String)
      → param_string L.json task1.request.params "key" ≡ ok key
      → string_at L.json task2.request.metadata "device-key" ≡ ok key
      → ctx.contacts "ws" ≡ true
      → (request ctx task2 (disconnect ctx task1 s).state).sent
        ≡ reply_message task2 (failure task2 "device not connected") ∷ []
  unfolding remove_reg_device
  request-disconnect task1 task2 s key gone given known =
      request_unregistered task2 (disconnect ctx task1 s).state key given
        (rw (disconnect-members task1 s key gone)
          (ground (arith, lookup-erase key key s.members.devices_reg, eq_refl key)))
        known
