-- ===== src/Manager/Users/Login.antt =====
-- A key that `login` gives out is let through by `auth`.
use Prim.Native.String
use stream_cloud.Prelude.{
  some, String, true, ◌≡◌, refl, ◌≢◌, ◌==◌, ◌||◌, eq_iff, eq_refl, Option, List, [], ◌∷◌, arith,
  emplace, Bool-cases, inl, inr, Assoc,
}
use stream_cloud.Api.Action.{ok, ◌>>=◌, try_catch}
use stream_cloud.Api.Libraries.{Libraries, JsonLaws}
use stream_cloud.Api.Rpc.{string_at, param_string}
use stream_cloud.Api.Message.{
  Task, Message, Context, send, reply, guarded, storage_at, success, reply_message,
}
use stream_cloud.Api.Database.{query, set_members}
use stream_cloud.Manager.Users.{
  Users, is_auth, last_row, select_user, join_key, login_result, to_router, check_password, login,
  auth,
}
use stream_cloud.Manager.Users.Access.{to_service, granted_admin, auth-cached, auth-other}

module _ {L : Libraries} (ctx : Context) (task1 task2 : Task L.json) (s : Users L) where
  -- The key of a user, the rows that the database has for the login, and what the tasks ask for.
  pub record IsLogin (name password : String) (rows : List (List (Option String))) : Type 0 where
    pub given_login : param_string L.json task1.request.params "login" ≡ ok name
    pub given_password : param_string L.json task1.request.params "password" ≡ ok password
    pub some_login : name ≢ ""
    pub some_password : password ≢ ""
    pub found : L.rows s.db select_user (name ∷ []) ≡ ok rows
    pub same : (last_row rows).1 ≡ password
    pub given_key : string_at L.json task2.request.metadata "user-key" ≡ ok (join_key name password)
    pub parts : L.split (join_key name password) ≡ name ∷ password ∷ []

  login_sent :
      (name password : String) (rows : List (List (Option String)))
      → IsLogin name password rows
      → ctx.contacts "ws" ≡ true
      → ((login ctx task1 s).sent
          ≡ reply_message task1 (
              success task1 (
                login_result L
                  (join_key name password)
                  name
                  ((storage_at "profile.key" task1.storage).0 == join_key name password)))
            ∷ [])
        × ((login ctx task1 s).state ≡ s)
  unfolding login ◌>>=◌ guarded try_catch query reply send
  login_sent name password rows h known = (
    ground (arith, eq_iff name "", eq_iff password "", eq_refl password),
    ground (arith, eq_iff name "", eq_iff password ""),
  )

  to_router_known :
      (storage : Assoc String) (name : String)
      → ctx.contacts "router" ≡ true
      → (to_router ctx task2 storage name s).sent
        ≡ to_service ctx task2 s (emplace "user.login" name storage) ∷ []
  unfolding send
  to_router_known storage name known = ground arith

  abbrev pub passed : String → String → Message L.json
  passed name password =
      to_service ctx task2 s
        (emplace "user.login" name (granted_admin ctx task2 s (join_key name password)))

  check_password_sent :
      (name password : String) (rows : List (List (Option String)))
      → IsLogin name password rows
      → ctx.contacts "router" ≡ true
      → (check_password ctx task2
          (granted_admin ctx task2 s (join_key name password))
          (join_key name password)
          (name ∷ password ∷ [])
          s).sent
        ≡ passed name password ∷ []
  unfolding check_password ◌>>=◌ try_catch query set_members send
  check_password_sent name password rows h known = ground (arith, eq_refl password, h.found, h.same)

  auth_sent :
      (name password : String) (rows : List (List (Option String)))
      → IsLogin name password rows
      → ctx.contacts "router" ≡ true
      → (auth ctx task2 s).sent ≡ passed name password ∷ []
  auth_sent name password rows h known =
      elim (Bool-cases (
        is_auth (join_key name password) s.members
        || (storage_at "profile.key" task2.storage).0 == join_key name password)) [
          | inl e ↦
              rw
                (auth-cached ctx task2 s (join_key name password) name h.given_key (rw h.parts refl)
                  e)
                (to_router_known (granted_admin ctx task2 s (join_key name password)) name known)
          | inr e ↦
              rw (auth-other ctx task2 s (join_key name password) h.given_key e, h.parts)
                (check_password_sent name password rows h known)
        ]

  -- If the password is the one that the database has for the login, neither is empty, and the key that
  -- is made of the two, the login, a dot and the password, splits into exactly the two again, then
  -- `login` answers the task with a map that has that key at "key"; and `auth`, in the state that
  -- `login` has left, passes a task with that key on to the router, under that login. The JSON maps
  -- have their documented laws, and the actors know "ws" and "router".
  pub auth-login :
      (laws : JsonLaws L.json) (name password : String) (rows : List (List (Option String)))
      → IsLogin name password rows
      → ctx.contacts "ws" ≡ true
      → ctx.contacts "router" ≡ true
      → (m : L.Map) × ((login ctx task1 s).sent
          ≡ reply_message task1 (success task1 (L.of_map m)) ∷ [])
        × (L.find m "key" ≡ some (L.of_string (String.◌++◌ (String.◌++◌ name ".") password)))
        × (L.find m "login" ≡ some (L.of_string name))
        × ((auth ctx task2 (login ctx task1 s).state).sent ≡ passed name password ∷ [])
  auth-login laws name password rows h ws router =
      let r = login_sent name password rows h ws in
      (
        _,
        r.0,
        rw (laws.find-put, laws.find-put, laws.find-put) refl,
        rw (laws.find-put, laws.find-put) refl,
        rw r.1 (auth_sent name password rows h router),
      )
