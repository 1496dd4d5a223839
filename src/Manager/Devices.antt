-- ===== src/Manager/Devices.antt =====
-- modules/stream-manager/src/devices.cpp
pub mod Answers
pub mod Registration
pub mod Relay
use Prim.Native.String
use stream_cloud.Prelude.{
  String, true, false, Bool, not, ◌&&◌, ◌||◌, ◌==◌, if◌then◌else◌, ltb, is_nil, Option, none, some,
  List, [], ◌∷◌, map, Assoc, lookup, has_key, emplace, erase, set_emplace,
}
use stream_cloud.Api.Rpc
use stream_cloud.Api.Rpc.{
  param_string, string_at, at_key, get_array, get_string, is_response, is_notify, serialize_request,
}
use stream_cloud.Api.Action.{Result, ok, Action, pure, lift, or_throw, ◌>>=◌, ◌>>◌, try_catch}
use stream_cloud.Api.Libraries.{Libraries, Json}
use stream_cloud.Api.Message.{
  Task, Message, Context, task_body, transport_body, web_socket, storage_at, send, success, failure,
  reply, guarded, guarded_after,
}
use stream_cloud.Api.Database.{
  all_have, with_columns, Stored, execute, query, query_number, set_members, members, column,
}

-- The three maps of `devices::impl`, by device_key: the connection of a device, its actions and its
-- variables.
pub record Registry : Type 0 where
  pub devices_reg : Assoc String
  pub device_actions_reg : Assoc (List String)
  pub device_variables_reg : Assoc (List String)

-- `devices::impl`
abbrev pub Devices : Libraries → Type 0
Devices L = Stored L Registry

unfoldable pub is_reg_device : String → Registry → Bool
is_reg_device device_key reg = has_key device_key reg.devices_reg

unfoldable pub has_value : String → Assoc String → Bool
has_value id [] = false
has_value id ((k, v) ∷ rest) = v == id || has_value id rest

unfoldable pub is_reg_device_id : String → Registry → Bool
unfolding has_value
is_reg_device_id id reg = has_value id reg.devices_reg

unfoldable pub add_reg_device : String → String → List String → List String → Registry → Registry
unfolding emplace
add_reg_device device_key transport_id actions variables reg = record {
  devices_reg = emplace device_key transport_id reg.devices_reg;
  device_actions_reg = emplace device_key actions reg.device_actions_reg;
  device_variables_reg = emplace device_key variables reg.device_variables_reg;
}

unfoldable pub remove_reg_device : String → Registry → Registry
unfolding erase
remove_reg_device device_key reg = record {
  devices_reg = erase device_key reg.devices_reg;
  device_actions_reg = erase device_key reg.device_actions_reg;
  device_variables_reg = erase device_key reg.device_variables_reg;
}

unfoldable pub get_device_transport_id : Context → String → Registry → Result String
get_device_transport_id ctx key reg = or_throw ctx.out_of_range (lookup key reg.devices_reg)

unfoldable pub get_device_actions : Context → String → Registry → Result (List String)
get_device_actions ctx key reg = or_throw ctx.out_of_range (lookup key reg.device_actions_reg)

unfoldable pub get_device_variables : Context → String → Registry → Result (List String)
get_device_variables ctx key reg = or_throw ctx.out_of_range (lookup key reg.device_variables_reg)

-- `for (auto const &v : values) set.emplace(v.as<std::string>());`
unfoldable pub set_of : (J : Json) → List J.Value → List String → Result (List String)
unfolding set_emplace
set_of J [] set = ok set
set_of J (v ∷ vs) set = Rpc.◌>>=◌ (get_string J v) (λ s. set_of J vs (set_emplace s set))

module _ (L : Libraries) where
  abbrev pub device_entry : List (Option String) → L.Value
  device_entry row = L.of_map (
      L.put (L.put L.empty_map "name" (L.of_string (column 0 row))) "key"
        (L.of_string (column 1 row)))

  -- the callback of `detail`, for one row and the map that the rows before have left
  unfoldable pub add_detail : Context → Registry → L.Map → List (Option String) → Result L.Map
  unfolding get_device_actions get_device_variables
  add_detail ctx reg info row =
      let key = column 0 row in
      Rpc.◌>>=◌ (get_device_actions ctx key reg) λ actions.
        Rpc.◌>>=◌ (get_device_variables ctx key reg) λ variables. ok (
          L.put
            (L.put (L.put (L.put info "name" (L.of_string (column 1 row))) "key" (L.of_string key))
              "actions" (L.of_array (map L.of_string actions)))
            "variables" (L.of_array (map L.of_string variables)))

  unfoldable pub add_details :
      Context → Registry → L.Map → List (List (Option String)) → Result L.Map
  unfolding add_detail
  add_details ctx reg info [] = ok info
  add_details ctx reg info (row ∷ rows) =
      Rpc.◌>>=◌ (add_detail ctx reg info row) (λ info'. add_details ctx reg info' rows)

  -- The request that goes to the device, with the connection of the user who asked for it.
  abbrev pub device_request : Task L.json → String → L.Text
  device_request task action = serialize_request L.json (record {
    id = task.request.id;
    method = action;
    params = L.null;
    metadata = L.put L.empty_map "transport" (L.of_string task.transport_id);
  })

module _ {L : Libraries} (ctx : Context) (task : Task L.json) where
  unfoldable pub add : Action (Message L.json) (Devices L) Unit
  add = do
    name ← lift (param_string L.json task.request.params "name")
    let user_login = (storage_at "user.login" task.storage).0
    let key = String.◌++◌ (String.◌++◌ user_login ".") name
    response ←
        if not (name == "")
        then guarded task (do
          execute "insert into devices (name, key) values (?,?);" (name ∷ key ∷ [])
          pure (success task (L.of_string key)))
        else pure (failure task "name device empty")
    reply ctx task response

  unfoldable pub delete : Action (Message L.json) (Devices L) Unit
  delete = do
    key ← lift (param_string L.json task.request.params "key")
    response ←
        if not (key == "")
        then guarded task (do
          execute "delete from devices where key = ?;" (key ∷ [])
          pure (success task (L.of_bool true)))
        else pure (failure task "key device empty")
    reply ctx task response

  -- the callback has a third parameter, "status"
  unfoldable pub list : Action (Message L.json) (Devices L) Unit
  unfolding all_have
  list = do
    response ← guarded task (do
      rows ← query "select name, key from devices;" []
      devices ← lift (with_columns 3 rows)
      pure (success task (L.of_array (map (device_entry L) devices))))
    reply ctx task response

  unfoldable pub detail : Action (Message L.json) (Devices L) Unit
  unfolding is_reg_device add_details
  detail = do
    key ← lift (param_string L.json task.request.params "key")
    reg ← members
    response ←
        if is_reg_device key reg
        then guarded task (do
          found ← query "select key, name from devices where key = ? limit 1;" (key ∷ [])
          device_info ← lift (add_details L ctx reg L.empty_map found)
          pure (success task (L.of_map device_info)))
        else pure (failure task "device not connected")
    reply ctx task response

  unfoldable pub control : Action (Message L.json) (Devices L) Unit
  unfolding is_reg_device Rpc.contains
  control =
      if Rpc.contains L.json task.request.metadata "device-key"
      then (do
        device_key ← lift (string_at L.json task.request.metadata "device-key")
        reg ← members
        if is_reg_device device_key reg
            then send ctx "connections" "devices" (task_body task)
            else reply ctx task (failure task "device not connected"))
      else reply ctx task (failure task "device-key not found")

  -- The result is set before the lists are read: a throw there leaves it beside the error.
  unfoldable pub connect : Action (Message L.json) (Devices L) Unit
  unfolding set_of add_reg_device
  connect = do
    key ← lift (param_string L.json task.request.params "key")
    actions ← lift (Rpc.◌>>=◌ (Rpc.param L.json task.request.params "actions") (get_array L.json))
    variables ←
        lift (Rpc.◌>>=◌ (Rpc.param L.json task.request.params "variables") (get_array L.json))
    response ← guarded task (do
      count_device_key ← query_number "select count(*) from devices where key = ?;" (key ∷ [])
      if ltb 0 count_device_key
          then if not (is_nil actions) || not (is_nil variables)
            then guarded_after (success task (L.of_bool true)) (do
              device_actions ← lift (set_of L.json actions [])
              device_variables ← lift (set_of L.json variables [])
              set_members (add_reg_device key task.transport_id device_actions device_variables)
              pure (success task (L.of_bool true)))
            else pure (failure task "device control contains actions and/or variables")
          else pure (failure task "device not found"))
    reply ctx task response

  unfoldable pub disconnect : Action (Message L.json) (Devices L) Unit
  unfolding remove_reg_device
  disconnect = do
    key ← lift (param_string L.json task.request.params "key")
    try_catch (set_members (remove_reg_device key)) (λ what. reply ctx task (failure task what))

  unfoldable pub request : Action (Message L.json) (Devices L) Unit
  unfolding is_reg_device get_device_transport_id serialize_request
  request = do
    device_key ← lift (string_at L.json task.request.metadata "device-key")
    reg ← members
    if is_reg_device device_key reg
        then (do
          device_transport_id ← lift (get_device_transport_id ctx device_key reg)
          action ← lift (param_string L.json task.request.params "action")
          send ctx "ws" "write"
              (transport_body (web_socket device_transport_id (device_request L task action))))
        else reply ctx task (failure task "device not connected")

  unfoldable pub subscribe : Action (Message L.json) (Devices L) Unit
  unfolding is_reg_device
  subscribe = do
    device_key ← lift (param_string L.json task.request.params "device-key")
    reg ← members
    if is_reg_device device_key reg
        then send ctx "connections" "subscribe" (task_body task)
        else reply ctx task (failure task "device not connected")

  unfoldable pub unsubscribe : Action (Message L.json) (Devices L) Unit
  unfolding is_reg_device
  unsubscribe = do
    device_key ← lift (param_string L.json task.request.params "device-key")
    reg ← members
    if is_reg_device device_key reg
        then send ctx "connections" "unsubscribe" (task_body task)
        else reply ctx task (failure task "device not connected")

  -- the attached handlers that take a task, by their command
  abbrev pub device_handlers : List (String × Action (Message L.json) (Devices L) Unit)
  device_handlers =
      ("add", add)
      ∷ ("delete", delete)
      ∷ ("list", list)
      ∷ ("detail", detail)
      ∷ ("control", control)
      ∷ ("connect", connect)
      ∷ ("disconnect", disconnect)
      ∷ ("request", request)
      ∷ ("subscribe", subscribe)
      ∷ ("unsubscribe", unsubscribe)
      ∷ []

  -- those of them that answer the task itself
  abbrev pub answering : List (String × Action (Message L.json) (Devices L) Unit)
  answering =
      ("add", add)
      ∷ ("delete", delete)
      ∷ ("list", list)
      ∷ ("detail", detail)
      ∷ ("control", control)
      ∷ ("connect", connect)
      ∷ ("subscribe", subscribe)
      ∷ ("unsubscribe", unsubscribe)
      ∷ []

-- The two handlers that take a web socket, with its id and its text.
module _ {L : Libraries} (ctx : Context) (id : String) (body : L.Text) where
  -- a response of a device goes back to the user, without the metadata
  unfoldable pub response : Action (Message L.json) (Devices L) Unit
  unfolding is_reg_device is_response
  response = do
    message ← lift (L.read body)
    if is_response L.json message
        then (do
          let (metadata, message') = at_key L.json message "metadata"
          transports_id ← lift (param_string L.json metadata "transport")
          device_key ← lift (param_string L.json metadata "device-key")
          reg ← members
          if is_reg_device device_key reg
              then send ctx "ws" "write" (
                  transport_body
                    (web_socket transports_id (L.to_string (L.remove message' "metadata"))))
              else pure tt)
        else pure tt

  unfoldable pub notify : Action (Message L.json) (Devices L) Unit
  unfolding is_reg_device is_notify
  notify = do
    message ← lift (L.read body)
    if is_notify L.json message
        then (do
          let (metadata, message') = at_key L.json message "metadata"
          device_key ← lift (param_string L.json metadata "device-key")
          reg ← members
          if is_reg_device device_key reg
              then send ctx "subscriptions" "emit"
                  (transport_body (web_socket id (L.to_string message')))
              else pure tt)
        else pure tt
