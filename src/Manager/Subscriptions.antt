-- ===== src/Manager/Subscriptions.antt =====
-- modules/stream-manager/src/subscriptions.cpp
pub mod Access
pub mod Answers
pub mod Delivery
pub mod Sets
use stream_cloud.Prelude.{
  String, ℕ, true, Bool, not, ◌&&◌, ◌||◌, ◌==◌, if◌then◌else◌, ltb, is_nil, Option, none, some,
  List, [], ◌∷◌, map, Assoc, lookup, has_key, emplace, assign, erase, contains, set_emplace,
  set_erase,
}
use stream_cloud.Api.Rpc
use stream_cloud.Api.Action.{Result, ok, Action, pure, lift, or_throw, ◌>>=◌, ◌>>◌, try_catch}
use stream_cloud.Api.Libraries.{Libraries, Json}
use stream_cloud.Api.Rpc.{ResponseMessage, param_string, string_at, at_key, get_array}
use stream_cloud.Api.Message.{
  Task, Message, Context, task_body, transport_body, web_socket, storage_at, send, success, failure,
  response_error, reply, guarded,
}
use stream_cloud.Api.Database.{Stored, execute, query, query_number, set_members, members, column}
use stream_cloud.Manager.GroupKeys.{strings_of, accumulate}

-- `device_subscribe_transport_reg`: device_key -> the transport ids of the subscribed users
abbrev pub Registry : Type 0
Registry = Assoc (List String)

-- `subscriptions::impl`
abbrev pub Subscriptions : Libraries → Type 0
Subscriptions L = Stored L Registry

unfoldable pub is_reg_device : String → Registry → Bool
is_reg_device device_key reg = has_key device_key reg

-- `device_subscribe_transport_reg.at(device_key)`
unfoldable pub get_device_subscribes : Context → String → Registry → Result (List String)
get_device_subscribes ctx device_key reg = or_throw ctx.out_of_range (lookup device_key reg)

unfoldable pub add_reg_device : String → Registry → Registry
unfolding emplace
add_reg_device device_key reg = emplace device_key [] reg

unfoldable pub remove_reg_device : String → Registry → Registry
unfolding erase
remove_reg_device device_key reg = erase device_key reg

-- `device_subscribe_transport_reg.at(device_key).emplace(id)`, for a key that is there
unfoldable pub add_subscriber : String → String → Registry → Registry
unfolding set_emplace assign lookup
add_subscriber device_key id reg = elim (lookup device_key reg) [
  | none ↦ reg
  | some ids ↦ assign device_key (set_emplace id ids) reg
]

-- `device_subscribe_transport_reg.at(device_key).erase(id)`, for a key that is there
unfoldable pub remove_subscriber : String → String → Registry → Registry
unfolding set_erase assign lookup
remove_subscriber device_key id reg = elim (lookup device_key reg) [
  | none ↦ reg
  | some ids ↦ assign device_key (set_erase id ids) reg
]

-- The groups of a device in which a user has a subscription.
abbrev pub select_user_groups : String
select_user_groups =
    "select group_key from subscriptions where user_login = ? and group_key in (?);"

module _ {L : Libraries} (ctx : Context) (task : Task L.json) where
  unfoldable pub add : Action (Message L.json) (Subscriptions L) Unit
  add = do
    group_key ← lift (param_string L.json task.request.params "group-key")
    user_login ← lift (param_string L.json task.request.params "user-login")
    response ←
        if not (group_key == "") && not (user_login == "")
        then guarded task (do
          execute "insert into subscriptions (group_key,user_login) values (?,?);"
              (group_key ∷ user_login ∷ [])
          pure (success task (L.of_bool true)))
        else pure (failure task "key or login empty")
    reply ctx task response

  unfoldable pub delete : Action (Message L.json) (Subscriptions L) Unit
  delete = do
    group_key ← lift (param_string L.json task.request.params "group-key")
    user_login ← lift (param_string L.json task.request.params "user-login")
    response ←
        if not (group_key == "") && not (user_login == "")
        then guarded task (do
          execute "delete from subscriptions where group_key = ? and user_login = ?;"
              (group_key ∷ user_login ∷ [])
          pure (success task (L.of_bool true)))
        else pure (failure task "key or login empty")
    reply ctx task response

  unfoldable pub list : Action (Message L.json) (Subscriptions L) Unit
  list = do
    group_key ← lift (param_string L.json task.request.params "group-key")
    response ←
        if not (group_key == "")
        then guarded task (do
          users ← query "select user_login from subscriptions where group_key = ?;" (group_key ∷ [])
          pure (success task (L.of_array (map (λ row. L.of_string (column 0 row)) users))))
        else pure (failure task "key empty")
    reply ctx task response

  unfoldable pub devices : Action (Message L.json) (Subscriptions L) Unit
  devices = do
    let (user_login, storage) = storage_at "user.login" task.storage
    try_catch
        (do
          found ←
              query "select group_key from subscriptions where user_login = ?;" (user_login ∷ [])
          let groups_list = map (λ row. L.of_string (column 0 row)) found
          send ctx "connections" "groups" (
              task_body (record task {
                request = record task.request { params = L.of_array groups_list };
                storage = storage;
              })))
        (λ what. reply ctx task (failure task what))

  unfoldable pub groups : Action (Message L.json) (Subscriptions L) Unit
  unfolding strings_of accumulate
  groups = do
    device_groups ← lift (get_array L.json (at_key L.json task.request.metadata "device-groups").0)
    let (user_login, storage0) = storage_at "user.login" task.storage
    let (user_admin, storage) = storage_at "user.admin" storage0
    if not (is_nil device_groups)
        then try_catch
            (do
              keys ← lift (strings_of L.json device_groups)
              access_group_users ←
                  query_number
                    "select count(*) from subscriptions where user_login = ? and group_key in (?);"
                    (user_login ∷ accumulate keys ∷ [])
              let metadata = L.remove task.request.metadata "device-groups"
              if ltb 0 access_group_users || user_admin == "1"
                  then send ctx "devices" "request" (
                      task_body (record task {
                        request = record task.request { metadata = metadata };
                        storage = storage;
                      }))
                  else reply ctx task (failure task "access denied to device"))
            (λ what. reply ctx task (failure task what))
        else reply ctx task (failure task "device-groups empty")

  unfoldable pub on : Action (Message L.json) (Subscriptions L) Unit
  unfolding strings_of accumulate is_reg_device get_device_subscribes add_reg_device add_subscriber
      contains
  on = do
    device_groups ← lift (get_array L.json (at_key L.json task.request.metadata "device-groups").0)
    device_key ← lift (param_string L.json task.request.params "device-key")
    let (user_login, storage0) = storage_at "user.login" task.storage
    let user_admin = (storage_at "user.admin" storage0).0
    response ←
        if not (is_nil device_groups)
        then guarded task (do
          keys ← lift (strings_of L.json device_groups)
          user_groups ← query select_user_groups (user_login ∷ accumulate keys ∷ [])
          if is_nil user_groups && user_admin == "0"
              then pure (failure task "access denied to device")
              else (do
                set_members (λ reg.
                    if is_reg_device device_key reg then reg else add_reg_device device_key reg)
                reg ← members
                ids ← lift (get_device_subscribes ctx device_key reg)
                if contains task.transport_id ids
                    then pure (failure task "subscriptions already")
                    else (do
                      set_members (add_subscriber device_key task.transport_id)
                      pure (success task (L.of_bool true)))))
        else pure (failure task "device-groups empty")
    reply ctx task response

  -- The result is set to true after both branches, so that the error stays beside it.
  unfoldable pub off : Action (Message L.json) (Subscriptions L) Unit
  unfolding is_reg_device get_device_subscribes remove_subscriber contains
  off = do
    device_key ← lift (param_string L.json task.request.params "device-key")
    reg ← members
    response ←
        if is_reg_device device_key reg
        then (do
          ids ← lift (get_device_subscribes ctx device_key reg)
          if contains task.transport_id ids
              then (do
                set_members (remove_subscriber device_key task.transport_id)
                pure (success task (L.of_bool true)))
              else pure (record (success task (L.of_bool true)) {
                error = some (response_error "unsubscribe already");
              }))
        else pure (failure task "device is not connect")
    reply ctx task response

  -- the attached handlers that take a task, by their command
  abbrev pub subscription_handlers : List (String × Action (Message L.json) (Subscriptions L) Unit)
  subscription_handlers =
      ("add", add)
      ∷ ("delete", delete)
      ∷ ("list", list)
      ∷ ("devices", devices)
      ∷ ("groups", groups)
      ∷ ("on", on)
      ∷ ("off", off)
      ∷ []

-- `message["metadata"]["transport"] = subscribe`
unfoldable pub set_transport : (J : Json) → J.Map → String → Result J.Map
set_transport J message subscribe =
    let (metadata, message') = at_key J message "metadata" in
    Rpc.◌>>=◌ (or_throw (J.not_a_map metadata) (J.as_map metadata))
      λ m. ok (J.put message' "metadata" (J.of_map (J.put m "transport" (J.of_string subscribe))))

module _ {L : Libraries} (ctx : Context) where
  -- the loop over the subscribers; `message` is one variable, written again for each
  unfoldable pub emit_to : List String → L.Map → Action (Message L.json) (Subscriptions L) Unit
  emit_to [] message = pure tt
  emit_to (subscribe ∷ rest) message = do
    message' ← lift (set_transport L.json message subscribe)
    send ctx "ws" "write" (transport_body (web_socket subscribe (L.to_string message')))
    emit_to rest message'

  unfoldable pub emit : L.Text → Action (Message L.json) (Subscriptions L) Unit
  unfolding is_reg_device get_device_subscribes emit_to
  emit body = do
    message ← lift (L.read body)
    device_key ← lift (param_string L.json (at_key L.json message "metadata").0 "device-key")
    reg ← members
    if is_reg_device device_key reg
        then (do ids ← lift (get_device_subscribes ctx device_key reg); emit_to ids message)
        else pure tt
