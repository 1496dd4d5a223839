-- ===== src/Manager/Groups.antt =====
-- modules/stream-manager/src/groups.cpp
pub mod Answers
use stream_cloud.Prelude.{String, true, not, ◌&&◌, ◌==◌, if◌then◌else◌, Option, List, [], ◌∷◌, map}
use stream_cloud.Api.Action.{Action, pure, lift, ◌>>=◌, ◌>>◌}
use stream_cloud.Api.Libraries.{Libraries}
use stream_cloud.Api.Rpc.{param_string}
use stream_cloud.Api.Message.{Task, Message, Context, success, failure, reply, guarded}
use stream_cloud.Api.Database.{Stored, execute, query, column}

-- `groups::impl`: the database alone
abbrev pub Groups : Libraries → Type 0
Groups L = Stored L Unit

module _ (L : Libraries) where
  abbrev pub group_entry : List (Option String) → L.Value
  group_entry row = L.of_map (
      L.put (L.put L.empty_map "key" (L.of_string (column 0 row))) "name"
        (L.of_string (column 1 row)))

module _ {L : Libraries} (ctx : Context) (task : Task L.json) where
  unfoldable pub add : Action (Message L.json) (Groups L) Unit
  add = do
    key ← lift (param_string L.json task.request.params "key")
    name ← lift (param_string L.json task.request.params "name")
    response ←
        if not (key == "") && not (name == "")
        then guarded task (do
          execute "insert into groups (key,name) values (?,?);" (key ∷ name ∷ [])
          pure (success task (L.of_bool true)))
        else pure (failure task "key or name empty")
    reply ctx task response

  unfoldable pub delete : Action (Message L.json) (Groups L) Unit
  delete = do
    key ← lift (param_string L.json task.request.params "key")
    response ←
        if not (key == "")
        then guarded task (do
          execute "delete from groups where key = ?;" (key ∷ [])
          pure (success task (L.of_bool true)))
        else pure (failure task "key group empty")
    reply ctx task response

  unfoldable pub list : Action (Message L.json) (Groups L) Unit
  list = do
    response ← guarded task (do
      groups ← query "select key,name from groups;" []
      pure (success task (L.of_array (map (group_entry L) groups))))
    reply ctx task response

  -- the handlers that the constructor attaches, by the command that they take
  abbrev pub group_handlers : List (String × Action (Message L.json) (Groups L) Unit)
  group_handlers = ("add", add) ∷ ("delete", delete) ∷ ("list", list) ∷ []
