-- ===== src/Manager/Users/Sessions.antt =====
-- The cache of keys: what a deletion revokes, and whom a login of no user lets in.
use stream_cloud.Prelude.{
  ℕ, ◌+◌, ◌-◌, String, true, false, ◌≡◌, ◌≢◌, ◌==◌, ◌||◌, eq_iff, if◌then◌else◌, List, [], ◌∷◌,
  arith, Assoc, emplace,
}
use stream_cloud.Api.Action.{ok, ◌>>=◌, try_catch}
use stream_cloud.Api.Libraries.{Libraries}
use stream_cloud.Api.Rpc.{string_at, param_string}
use stream_cloud.Api.Message.{Task, Context, send, reply, guarded, storage_at}
use stream_cloud.Api.Database.{execute, query, set_members}
use stream_cloud.Manager.Users.{
  Users, is_auth, add_auth, remove_auth_login, last_row, select_user, check_password, delete, auth,
}
use stream_cloud.Manager.Users.Access.{to_service, granted_admin, auth-other}

-- The number of cached keys of a login.
abbrev pub count_login : String → Assoc String → ℕ
count_login login [] = 0
count_login login ((k, v) ∷ rest) = (if v == login then 1 else 0) + count_login login rest

count_login-remove_auth_login :
    (login j : String) (m : Assoc String)
    → count_login j (remove_auth_login login m)
      ≡ (if login == j then count_login j m - 1 else count_login j m)
unfolding remove_auth_login
count_login-remove_auth_login login j [] = ground arith
count_login-remove_auth_login login j ((k, v) ∷ rest) =
    ground (
      arith,
      count_login-remove_auth_login login j rest,
      eq_iff v login,
      eq_iff v j,
      eq_iff login j,
    )

module _ {L : Libraries} (ctx : Context) (task : Task L.json) (s : Users L) where
  -- When a user is deleted and the database does not refuse, one cached key of the login goes, if
  -- there is one, and every other login keeps all of its keys.
  pub delete-count_login :
      (login j : String) {db : L.Db}
      → param_string L.json task.request.params "login" ≡ ok login
      → login ≢ ""
      → L.run s.db "delete from users where login = ?;" (login ∷ []) ≡ ok db
      → count_login j (delete ctx task s).state.members
        ≡ (if login == j then count_login j s.members - 1 else count_login j s.members)
  unfolding delete ◌>>=◌ guarded try_catch execute set_members reply
  delete-count_login login j given nonempty run =
      ground (arith, eq_iff login "", count_login-remove_auth_login login j s.members)

  check_password_unknown :
      (storage : Assoc String) (user_key name : String) (rest : List String)
      → L.split user_key ≡ name ∷ "" ∷ rest
      → L.rows s.db select_user (name ∷ []) ≡ ok []
      → ctx.contacts "router" ≡ true
      → ((check_password ctx task storage user_key (L.split user_key) s).sent
          ≡ to_service ctx task s (emplace "user.login" name storage) ∷ [])
        × ((check_password ctx task storage user_key (L.split user_key) s).state.members
            ≡ add_auth user_key "" s.members)
  unfolding check_password last_row ◌>>=◌ try_catch query set_members send
  check_password_unknown storage user_key name rest parts rows known =
      rw parts (ground arith, ground arith)

  -- A key with an empty second part, whose first part is the login of no user, is let through: the
  -- task goes on to the router under that login, and the key is cached with an empty login.
  pub auth_unknown_user :
      (user_key name : String) (rest : List String)
      → string_at L.json task.request.metadata "user-key" ≡ ok user_key
      → L.split user_key ≡ name ∷ "" ∷ rest
      → L.rows s.db select_user (name ∷ []) ≡ ok []
      → (is_auth user_key s.members || (storage_at "profile.key" task.storage).0 == user_key)
        ≡ false
      → ctx.contacts "router" ≡ true
      → ((auth ctx task s).sent
          ≡ to_service ctx task s (emplace "user.login" name (granted_admin ctx task s user_key))
            ∷ [])
        × ((auth ctx task s).state.members ≡ add_auth user_key "" s.members)
  auth_unknown_user user_key name rest key parts rows other known =
      rw (auth-other ctx task s user_key key other) (
        check_password_unknown (granted_admin ctx task s user_key) user_key name rest parts rows
          known)
