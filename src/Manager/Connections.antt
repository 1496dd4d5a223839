-- ===== src/Manager/Connections.antt =====
-- modules/stream-manager/src/connections.cpp
pub mod Answers
use stream_cloud.Prelude.{
  String, true, not, is_nil, ◌&&◌, ◌==◌, if◌then◌else◌, Option, none, some, List, [], ◌∷◌, map,
  get_elem?, or_else,
}
use stream_cloud.Api.Action.{Action, pure, lift, ◌>>=◌, ◌>>◌, try_catch}
use stream_cloud.Api.Libraries.{Libraries}
use stream_cloud.Api.Rpc.{param_string, string_at, get_array}
use stream_cloud.Api.Message.{
  Task, Message, Context, task_body, send, success, failure, reply, guarded,
}
use stream_cloud.Api.Database.{Stored, execute, query, column}
use stream_cloud.Manager.GroupKeys.{strings_of, accumulate}

-- `connections::impl`: the database alone
abbrev pub Connections : Libraries → Type 0
Connections L = Stored L Unit

-- The non-null values of the first column.
unfoldable pub present : List (List (Option String)) → List String
present [] = []
present (row ∷ rows) = elim (or_else none (get_elem? row 0)) [
  | none ↦ present rows
  | some s ↦ s ∷ present rows
]

module _ (L : Libraries) where
  abbrev pub first_column : List (List (Option String)) → List L.Value
  first_column rows = map (λ row. L.of_string (column 0 row)) rows

  -- `task.request.metadata["device-groups"] = groups_list`
  abbrev pub with_groups : List L.Value → Task L.json → Task L.json
  with_groups groups_list task = record task {
    request = record task.request {
      metadata = L.put task.request.metadata "device-groups" (L.of_array groups_list);
    };
  }

abbrev pub select_groups : String
select_groups = "select group_key from connections where device_key = ?;"

module _ {L : Libraries} (ctx : Context) (task : Task L.json) where
  unfoldable pub add : Action (Message L.json) (Connections L) Unit
  add = do
    group_key ← lift (param_string L.json task.request.params "group-key")
    device_key ← lift (param_string L.json task.request.params "device-key")
    response ←
        if not (group_key == "") && not (device_key == "")
        then guarded task (do
          execute "insert into connections (group_key,device_key) values (?,?);"
              (group_key ∷ device_key ∷ [])
          pure (success task (L.of_bool true)))
        else pure (failure task "group-key or device-key empty")
    reply ctx task response

  unfoldable pub delete : Action (Message L.json) (Connections L) Unit
  delete = do
    group_key ← lift (param_string L.json task.request.params "group-key")
    device_key ← lift (param_string L.json task.request.params "device-key")
    response ←
        if not (group_key == "") && not (device_key == "")
        then guarded task (do
          execute "delete from connections where group_key = ? and device_key = ?;"
              (group_key ∷ device_key ∷ [])
          pure (success task (L.of_bool true)))
        else pure (failure task "group-key or device-key empty")
    reply ctx task response

  unfoldable pub list : Action (Message L.json) (Connections L) Unit
  list = do
    group_key ← lift (param_string L.json task.request.params "group-key")
    response ←
        if not (group_key == "")
        then guarded task (do
          devices ← query "select device_key from connections where group_key = ?;" (group_key ∷ [])
          pure (success task (L.of_array (first_column L devices))))
        else pure (failure task "group-key empty")
    reply ctx task response

  unfoldable pub groups : Action (Message L.json) (Connections L) Unit
  unfolding strings_of accumulate present
  groups = do
    group_key_list ← lift (get_array L.json task.request.params)
    response ←
        if not (is_nil group_key_list)
        then guarded task (do
          keys ← lift (strings_of L.json group_key_list)
          devices ←
              query "select device_key from connections where group_key in (?);"
                (accumulate keys ∷ [])
          pure (success task (L.of_array (map L.of_string (present devices)))))
        else pure (failure task "devices not found")
    reply ctx task response

  unfoldable pub devices : Action (Message L.json) (Connections L) Unit
  devices = do
    device_key ← lift (string_at L.json task.request.metadata "device-key")
    if not (device_key == "")
        then try_catch
            (do
              found ← query select_groups (device_key ∷ [])
              if not (is_nil found)
                  then send ctx "subscriptions" "groups"
                      (task_body (with_groups L (first_column L found) task))
                  else reply ctx task (failure task "device groups empty"))
            (λ what. reply ctx task (failure task what))
        else reply ctx task (failure task "device-key empty")

  unfoldable pub subscribe : Action (Message L.json) (Connections L) Unit
  subscribe = do
    device_key ← lift (param_string L.json task.request.params "device-key")
    if not (device_key == "")
        then try_catch
            (do
              found ← query select_groups (device_key ∷ [])
              if not (is_nil found)
                  then send ctx "subscriptions" "on"
                      (task_body (with_groups L (first_column L found) task))
                  else reply ctx task (failure task "device groups empty"))
            (λ what. reply ctx task (failure task what))
        else reply ctx task (failure task "device-key empty")

  unfoldable pub unsubscribe : Action (Message L.json) (Connections L) Unit
  unsubscribe = do
    device_key ← lift (param_string L.json task.request.params "device-key")
    if not (device_key == "")
        then try_catch (send ctx "subscriptions" "off" (task_body task))
            (λ what. reply ctx task (failure task what))
        else reply ctx task (failure task "device-key empty")

  -- the handlers that the constructor attaches, by the command that they take
  abbrev pub connection_handlers : List (String × Action (Message L.json) (Connections L) Unit)
  connection_handlers =
      ("add", add)
      ∷ ("delete", delete)
      ∷ ("list", list)
      ∷ ("groups", groups)
      ∷ ("devices", devices)
      ∷ ("subscribe", subscribe)
      ∷ ("unsubscribe", unsubscribe)
      ∷ []
