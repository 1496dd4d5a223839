-- ===== src/Platform/Managers.antt =====
-- modules/stream-platform/src/managers.cpp
pub mod Names
pub mod Relay
use Prim.Native.String
use stream_cloud.Prelude.{
  String, ℕ, Bool, true, false, not, ◌&&◌, ◌||◌, ◌==◌, if◌then◌else◌, ltb, leb, Option, List, [],
  ◌∷◌, map, Assoc, has_key, lookup, emplace, erase,
}
use stream_cloud.Api.Rpc
use stream_cloud.Api.Action.{Result, Action, pure, lift, or_throw, ◌>>=◌, ◌>>◌, try_catch}
use stream_cloud.Api.Libraries.{Libraries}
use stream_cloud.Api.Rpc.{param_string, string_at, at_key, serialize_request}
use stream_cloud.Api.Message.{
  Task, Message, Context, text_body, transport_body, web_socket, storage_at, send, success, failure,
  reply, guarded, guarded_after,
}
use stream_cloud.Api.Database.{
  all_have, with_columns, Stored, execute, query, query_number, set_members, members, column,
}

-- `managers::impl`: the database, and `managers_reg`, manager_key -> the id of its connection
abbrev pub Managers : Libraries → Type 0
Managers L = Stored L (Assoc String)

unfoldable pub is_reg_manager : String → Assoc String → Bool
is_reg_manager manager_key managers_reg = has_key manager_key managers_reg

unfoldable pub is_reg_manager_id : String → Assoc String → Bool
is_reg_manager_id id [] = false
is_reg_manager_id id ((k, v) ∷ rest) = v == id || is_reg_manager_id id rest

unfoldable pub add_reg_manager : String → String → Assoc String → Assoc String
unfolding emplace
add_reg_manager manager_key transport_id managers_reg =
    emplace manager_key transport_id managers_reg

unfoldable pub remove_reg_manager : String → Assoc String → Assoc String
unfolding erase
remove_reg_manager manager_key managers_reg = erase manager_key managers_reg

unfoldable pub get_manager_transport_id : Context → String → Assoc String → Result String
get_manager_transport_id ctx key managers_reg = or_throw ctx.out_of_range (lookup key managers_reg)

-- The key of a manager, and the address by which it is trusted.
abbrev pub manager_key_of : String → String → String
manager_key_of profile_login name = String.◌++◌ (String.◌++◌ profile_login ".") name

abbrev pub trusted_url : String → String → String
trusted_url profile_login key = String.◌++◌ (String.◌++◌ profile_login "/") key

abbrev pub insert_manager : String
insert_manager = "insert into managers (profile_login,name, key) values (?,?, ?);"

abbrev pub delete_manager : String
delete_manager = "delete from managers where key = ? and profile_login =  ?;"

abbrev pub count_managers : String
count_managers = "select count(*) from managers where key = ? and profile_login = ?"

module _ (L : Libraries) where
  abbrev pub manager_entry : List (Option String) → L.Value
  manager_entry row = L.of_map (
      L.put (L.put L.empty_map "name" (L.of_string (column 0 row))) "key"
        (L.of_string (column 1 row)))

  -- the message that tells a manager to disconnect
  abbrev pub disconnect_message : Task L.json → L.Text
  disconnect_message task = serialize_request L.json (record {
    id = task.request.id;
    method = "disconnect";
    params = L.null;
    metadata = L.empty_map;
  })

  -- `task.request.metadata["transport"] = task.transport_id_`
  abbrev pub with_transport : Task L.json → Rpc.RequestMessage L.json
  with_transport task = record task.request {
    metadata = L.put task.request.metadata "transport" (L.of_string task.transport_id);
  }

-- the name is not empty, and has at most six bytes
abbrev pub is_short : String → Bool
is_short name = not (name == "") && leb (String.len name) 6

module _ {L : Libraries} (ctx : Context) (task : Task L.json) where
  unfoldable pub add : Action (Message L.json) (Managers L) Unit
  add = do
    name ← lift (param_string L.json task.request.params "name")
    let profile_login = (storage_at "profile.login" task.storage).0
    let key = manager_key_of profile_login name
    response ←
        if is_short name
        then guarded task (do
          execute insert_manager (profile_login ∷ name ∷ key ∷ [])
          let result = success task (L.of_map (L.put L.empty_map "key" (L.of_string key)))
          guarded_after result (do
            send ctx "http" "add_trusted_url" (text_body (trusted_url profile_login key))
            pure result))
        else pure (failure task "name manager empty or size > 6")
    reply ctx task response

  -- The manager is told to disconnect, and is taken out, whether or not a row was deleted.
  unfoldable pub delete : Action (Message L.json) (Managers L) Unit
  unfolding is_reg_manager get_manager_transport_id remove_reg_manager serialize_request
  delete = do
    key ← lift (param_string L.json task.request.params "key")
    let profile_login = (storage_at "profile.login" task.storage).0
    let result = success task (L.of_bool true)
    response ←
        if not (key == "")
        then guarded task (do
          execute delete_manager (key ∷ profile_login ∷ [])
          guarded_after result (do
            send ctx "http" "remove_trusted_url" (text_body (trusted_url profile_login key))
            managers_reg ← members
            if is_reg_manager key managers_reg
                then (do
                  id ← lift (get_manager_transport_id ctx key managers_reg)
                  send ctx "ws" "write"
                      (transport_body (web_socket id (disconnect_message L task))))
                else pure tt
            set_members (remove_reg_manager key)
            pure result))
        else pure (failure task "key manager empty")
    reply ctx task response

  -- the callback has a third parameter, "status"
  unfoldable pub list : Action (Message L.json) (Managers L) Unit
  unfolding all_have
  list = do
    let profile_login = (storage_at "profile.login" task.storage).0
    response ← guarded task (do
      rows ← query "select name, key from managers where profile_login = ?;" (profile_login ∷ [])
      managers ← lift (with_columns 3 rows)
      pure (success task (L.of_array (map (manager_entry L) managers))))
    reply ctx task response

  unfoldable pub connect : Action (Message L.json) (Managers L) Unit
  unfolding add_reg_manager
  connect = do
    key ← lift (param_string L.json task.request.params "key")
    let profile_login = (storage_at "profile.login" task.storage).0
    response ← guarded task (do
      count_managers_key ← query_number count_managers (key ∷ profile_login ∷ [])
      if ltb 0 count_managers_key
          then (do
            set_members (add_reg_manager key task.transport_id)
            pure (success task (L.of_bool true)))
          else pure (failure task "manager not found"))
    reply ctx task response

  unfoldable pub disconnect : Action (Message L.json) (Managers L) Unit
  unfolding remove_reg_manager
  disconnect = do
    key ← lift (param_string L.json task.request.params "key")
    try_catch (set_members (remove_reg_manager key)) (λ what. reply ctx task (failure task what))

  unfoldable pub request : Action (Message L.json) (Managers L) Unit
  unfolding is_reg_manager get_manager_transport_id serialize_request
  request = do
    manager_key ← lift (string_at L.json task.request.metadata "manager-key")
    managers_reg ← members
    if is_reg_manager manager_key managers_reg
        then (do
          id ← lift (get_manager_transport_id ctx manager_key managers_reg)
          send ctx "ws" "write"
              (transport_body (web_socket id (serialize_request L.json (with_transport L task)))))
        else reply ctx task (failure task "manager not connection")

  -- the attached handlers that take a task, by their command
  abbrev pub manager_handlers : List (String × Action (Message L.json) (Managers L) Unit)
  manager_handlers =
      ("add", add)
      ∷ ("delete", delete)
      ∷ ("list", list)
      ∷ ("connect", connect)
      ∷ ("disconnect", disconnect)
      ∷ ("request", request)
      ∷ []

-- What a manager sends back, a response or a notification, goes to the client whose connection its
-- metadata names, without the metadata. Which connection it came from is not looked at.
module _ {L : Libraries} (ctx : Context) (body : L.Text) where
  unfoldable pub response : Action (Message L.json) (Managers L) Unit
  response = do
    message ← lift (L.read body)
    let (metadata, message') = at_key L.json message "metadata"
    transports_id ← lift (param_string L.json metadata "transport")
    send ctx "ws" "write"
        (transport_body (web_socket transports_id (L.to_string (L.remove message' "metadata"))))
