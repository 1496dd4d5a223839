-- ===== src/Platform/Profile.antt =====
-- modules/stream-platform/src/profile.cpp
pub mod Answers
pub mod Access
use stream_cloud.Prelude.{
  String, Bool, true, not, ◌&&◌, ◌==◌, if◌then◌else◌, Option, List, [], ◌∷◌, Assoc, emplace,
  get_elem?, contains, set_emplace, set_erase,
}
use stream_cloud.Api.Action.{Action, pure, lift, or_undefined, ◌>>=◌, ◌>>◌, try_catch}
use stream_cloud.Api.Libraries.{Libraries}
use stream_cloud.Api.Rpc.{param_string, string_at}
use stream_cloud.Api.Message.{
  Task, Message, Context, task_body, send, success, failure, reply, guarded,
}
use stream_cloud.Api.Database.{Stored, execute, query, set_members, members}
use stream_cloud.Manager.Users.{last_row, join_key}

-- `profile::impl`: the database, and `profiles_auth`, the keys that were authenticated
abbrev pub Profile : Libraries → Type 0
Profile L = Stored L (List String)

unfoldable pub is_auth : String → List String → Bool
unfolding contains
is_auth profile_key profiles_auth = contains profile_key profiles_auth

unfoldable pub add_auth : String → List String → List String
unfolding set_emplace
add_auth profile_key profiles_auth = set_emplace profile_key profiles_auth

unfoldable pub remove_auth : String → List String → List String
unfolding set_erase
remove_auth profile_key profiles_auth = set_erase profile_key profiles_auth

abbrev pub select_profile : String
select_profile = "select login, password from profile where login = ? limit 1;"

module _ {L : Libraries} (ctx : Context) (task : Task L.json) where
  unfoldable pub signup : Action (Message L.json) (Profile L) Unit
  signup = do
    login ← lift (param_string L.json task.request.params "login")
    password ← lift (param_string L.json task.request.params "password")
    response ←
        if not (login == "") && not (password == "")
        then guarded task (do
          execute "insert into profile (login,password) values (?,?);" (login ∷ password ∷ [])
          pure (success task (L.of_bool true)))
        else pure (failure task "login or password empty")
    reply ctx task response

  unfoldable pub login : Action (Message L.json) (Profile L) Unit
  unfolding last_row
  login = do
    login_param ← lift (param_string L.json task.request.params "login")
    password_param ← lift (param_string L.json task.request.params "password")
    response ←
        if not (login_param == "") && not (password_param == "")
        then guarded task (do
          found ← query select_profile (login_param ∷ [])
          let (name, password) = last_row found
          if password_param == password
              then pure (success task (L.of_string (join_key name password)))
              else pure (failure task "login or password is incorrect"))
        else pure (failure task "login or password empty")
    reply ctx task response

  -- `task.storage.emplace("profile.login", profile[0])`, and the task goes to the router
  abbrev pub to_router : String → Action (Message L.json) (Profile L) Unit
  to_router name =
      send ctx "router" "service"
        (task_body (record task { storage = emplace "profile.login" name task.storage }))

  -- the branch of `auth` for a key that is not cached
  unfoldable pub check_password : String → List String → Action (Message L.json) (Profile L) Unit
  unfolding add_auth last_row emplace
  check_password profile_key profile =
      try_catch
        (do
          name ← lift (or_undefined (get_elem? profile 0))
          found ← query select_profile (name ∷ [])
          given ← lift (or_undefined (get_elem? profile 1))
          if given == (last_row found).1
              then (do set_members (add_auth profile_key); to_router name)
              else reply ctx task (failure task "authentication bad"))
        (λ what. reply ctx task (failure task what))

  unfoldable pub auth : Action (Message L.json) (Profile L) Unit
  unfolding is_auth check_password emplace
  auth = do
    profile_key ← lift (string_at L.json task.request.metadata "profile-key")
    let profile = L.split profile_key
    profiles_auth ← members
    if is_auth profile_key profiles_auth
        then (do name ← lift (or_undefined (get_elem? profile 0)); to_router name)
        else check_password profile_key profile

  -- the handlers that the constructor attaches, by the command that they take
  abbrev pub profile_handlers : List (String × Action (Message L.json) (Profile L) Unit)
  profile_handlers = ("signup", signup) ∷ ("login", login) ∷ ("auth", auth) ∷ []
