-- ===== src/Manager/Users.antt =====
-- modules/stream-manager/src/users.cpp
pub mod Access
pub mod Login
pub mod Sessions
pub mod Answers
use Prim.Native.String
use stream_cloud.Prelude.{
  String, Bool, true, false, not, ◌&&◌, ◌||◌, ◌==◌, if◌then◌else◌, Option, List, [], ◌∷◌, map,
  Assoc, has_key, emplace, erase, assign, get_elem?,
}
use stream_cloud.Api.Action.{Action, pure, lift, or_undefined, ◌>>=◌, ◌>>◌, try_catch}
use stream_cloud.Api.Libraries.{Libraries}
use stream_cloud.Api.Rpc.{param_string, string_at}
use stream_cloud.Api.Message.{
  Task, Message, Context, task_body, storage_at, send, success, failure, reply, guarded,
}
use stream_cloud.Api.Database.{Stored, execute, query, set_members, members, column}

-- `users::impl`: the database, and `users_auth`, user_key -> user_login
abbrev pub Users : Libraries → Type 0
Users L = Stored L (Assoc String)

unfoldable pub is_auth : String → Assoc String → Bool
is_auth user_key users_auth = has_key user_key users_auth

unfoldable pub add_auth : String → String → Assoc String → Assoc String
unfolding emplace
add_auth user_key user_login users_auth = emplace user_key user_login users_auth

unfoldable pub is_auth_login : String → Assoc String → Bool
is_auth_login user_login [] = false
is_auth_login user_login ((k, v) ∷ rest) = v == user_login || is_auth_login user_login rest

unfoldable pub remove_auth : String → Assoc String → Assoc String
unfolding erase
remove_auth user_key users_auth = erase user_key users_auth

-- `find_if` stops at the first entry, and that one is erased.
unfoldable pub remove_auth_login : String → Assoc String → Assoc String
remove_auth_login user_login [] = []
remove_auth_login user_login ((k, v) ∷ rest) =
    if v == user_login then rest else (k, v) ∷ remove_auth_login user_login rest

-- The login and the password that the callback leaves behind: those of the last row, or "".
unfoldable pub last_row : List (List (Option String)) → String × String
last_row [] = ("", "")
last_row (row ∷ []) = (column 0 row, column 1 row)
last_row (_ ∷ row ∷ rows) = last_row (row ∷ rows)

abbrev pub join_key : String → String → String
join_key a b = String.◌++◌ (String.◌++◌ a ".") b

abbrev pub select_user : String
select_user = "select login, password from users where login = ? limit 1;"

-- `std::to_string` of a bool
abbrev pub bool_text : Bool → String
bool_text b = if b then "1" else "0"

module _ (L : Libraries) where
  -- one row of the list: the login, and whether it is the profile's own
  abbrev pub user_entry : String → List (Option String) → L.Value
  user_entry profile_key row =
      let login = column 0 row in
      let admin = profile_key == join_key login (column 1 row) in
      L.of_map (L.put (L.put L.empty_map "login" (L.of_string login)) "admin" (L.of_bool admin))

  -- the response to a login
  abbrev pub login_result : String → String → Bool → L.Value
  login_result user_key login admin = L.of_map (
      L.put (L.put (L.put L.empty_map "key" (L.of_string user_key)) "login" (L.of_string login))
        "admin" (L.of_bool admin))

module _ {L : Libraries} (ctx : Context) (task : Task L.json) where
  unfoldable pub add : Action (Message L.json) (Users L) Unit
  add = do
    login ← lift (param_string L.json task.request.params "login")
    password ← lift (param_string L.json task.request.params "password")
    response ←
        if not (login == "") && not (password == "")
        then guarded task (do
          execute "insert into users (login,password) values (?,?);" (login ∷ password ∷ [])
          pure (success task (L.of_bool true)))
        else pure (failure task "login or password empty")
    reply ctx task response

  unfoldable pub delete : Action (Message L.json) (Users L) Unit
  delete = do
    login ← lift (param_string L.json task.request.params "login")
    response ←
        if not (login == "")
        then guarded task (do
          execute "delete from users where login = ?;" (login ∷ [])
          set_members (remove_auth_login login)
          pure (success task (L.of_bool true)))
        else pure (failure task "name manager empty")
    reply ctx task response

  unfoldable pub list : Action (Message L.json) (Users L) Unit
  list = do
    let profile_key = (storage_at "profile.key" task.storage).0
    response ← guarded task (do
      users ← query "select login, password from users;" []
      pure (success task (L.of_array (map (user_entry L profile_key) users))))
    reply ctx task response

  unfoldable pub login : Action (Message L.json) (Users L) Unit
  unfolding last_row
  login = do
    login_param ← lift (param_string L.json task.request.params "login")
    password_param ← lift (param_string L.json task.request.params "password")
    let profile_key = (storage_at "profile.key" task.storage).0
    response ←
        if not (login_param == "") && not (password_param == "")
        then guarded task (do
          found ← query select_user (login_param ∷ [])
          let user_key = join_key login_param password_param
          let admin_user = profile_key == user_key
          if password_param == (last_row found).1 || admin_user
              then pure (success task (login_result L user_key login_param admin_user))
              else pure (failure task "login or password is incorrect"))
        else pure (failure task "login or password empty")
    reply ctx task response

  -- `task.storage.emplace("user.login", user[0])`, and the task goes to the router
  abbrev pub to_router : Assoc String → String → Action (Message L.json) (Users L) Unit
  to_router storage login =
      send ctx "router" "service"
        (task_body (record task { storage = emplace "user.login" login storage }))

  -- the branch of `auth` for a key that is neither cached nor the profile's own
  unfoldable pub check_password :
      Assoc String → String → List String → Action (Message L.json) (Users L) Unit
  unfolding add_auth last_row emplace
  check_password storage user_key user =
      try_catch
        (do
          name ← lift (or_undefined (get_elem? user 0))
          found ← query select_user (name ∷ [])
          given ← lift (or_undefined (get_elem? user 1))
          if given == (last_row found).1
              then (do set_members (add_auth user_key (last_row found).0); to_router storage name)
              else reply ctx task (failure task "authentication bad"))
        (λ what. reply ctx task (failure task what))

  unfoldable pub auth : Action (Message L.json) (Users L) Unit
  unfolding is_auth check_password emplace assign
  auth = do
    user_key ← lift (string_at L.json task.request.metadata "user-key")
    let (profile_key, storage0) = storage_at "profile.key" task.storage
    let admin_user = profile_key == user_key
    let storage = assign "user.admin" (bool_text admin_user) storage0
    let user = L.split user_key
    users_auth ← members
    if is_auth user_key users_auth || admin_user
        then (do name ← lift (or_undefined (get_elem? user 0)); to_router storage name)
        else check_password storage user_key user

  -- the handlers that the constructor attaches, by the command that they take
  abbrev pub user_handlers : List (String × Action (Message L.json) (Users L) Unit)
  user_handlers =
      ("add", add) ∷ ("delete", delete) ∷ ("list", list) ∷ ("login", login) ∷ ("auth", auth) ∷ []
