-- ===== src/Examples/Users.antt =====
-- users.cpp at concrete inputs.
use stream_cloud.Prelude.{◌≡◌, ◌≢◌, refl, some, [], ◌∷◌, List, String, Option, All, emplace}
use stream_cloud.Api.Message.{Task, success, reply_message}
use stream_cloud.Api.Answers.{Answers}
use stream_cloud.Manager.Users.{
  Users, user_handlers, select_user, is_auth, add_auth, last_row, auth, login, delete,
}
use stream_cloud.Manager.Users.Login.{IsLogin, passed, auth-login}
use stream_cloud.Manager.Users.Answers.{hop_of, user_handlers-Answers}
use stream_cloud.Manager.Users.Access.{IsGranted, to_service, granted_admin, auth-IsGranted}
use stream_cloud.Manager.Users.Sessions.{count_login, delete-count_login, auth_unknown_user}
use stream_cloud.Toy.{running, libraries, json, everyone, request, task}
use stream_cloud.Toy.Laws.{json_laws}
use stream_cloud.Toy.JsonTree.{text, null, obj, field, end}

abbrev with_rows : List (List (Option String)) → Users libraries
with_rows rows = record {
  db = record { answers = (select_user, rows) ∷ []; numbers = [] };
  members = ("bob.pw", "bob") ∷ ("eve.pw", "eve") ∷ ("bob.pw.x", "bob") ∷ [];
}

abbrev pub state : Users libraries
state = record (with_rows ((some "bob" ∷ some "pw" ∷ []) ∷ [])) { members = [] }

abbrev bob : Task json
bob =
    task (request "groups.add" null (field "user-key" (text "bob.pw") end))
      (("profile.key", "root.root") ∷ [])

user_handlers-Answers_example :
    All (λ h. Answers {S = Users libraries} (hop_of h.0) bob h.1) (user_handlers everyone bob)
user_handlers-Answers_example = user_handlers-Answers everyone bob

auth_run :
    (auth everyone bob state).sent
    ≡ to_service everyone bob state
        (emplace "user.login" "bob" (granted_admin everyone bob state "bob.pw"))
      ∷ []
unfolding auth running
auth_run = refl

auth-IsGranted_example : IsGranted everyone bob state "bob.pw" (
    to_service everyone bob state
      (emplace "user.login" "bob" (granted_admin everyone bob state "bob.pw")))
unfolding running
auth-IsGranted_example = auth-IsGranted everyone bob state "bob.pw" _ refl auth_run refl

abbrev removal : Task json
removal = task (request "users.delete" (obj (field "login" (text "bob") end)) end) []

bob_ne_empty : ◌≢◌ {A = String} "bob" ""
bob_ne_empty e = cc

delete-count_login_example :
    count_login "bob" (delete everyone removal (with_rows [])).state.members ≡ 1
unfolding running
delete-count_login_example =
    delete-count_login everyone removal (with_rows []) "bob" "bob" refl bob_ne_empty refl

abbrev stranger : Task json
stranger =
    task (request "devices.list" null (field "user-key" (text "bob.") end))
      (("profile.key", "root.root") ∷ [])

auth_unknown_user_example :
    ((auth everyone stranger (with_rows [])).sent
      ≡ to_service everyone stranger
          (with_rows [])
          (emplace "user.login" "bob" (granted_admin everyone stranger (with_rows []) "bob."))
        ∷ [])
    × ((auth everyone stranger (with_rows [])).state.members
        ≡ add_auth "bob." "" (with_rows []).members)
unfolding running is_auth
auth_unknown_user_example =
    auth_unknown_user everyone stranger (with_rows []) "bob." "bob" [] refl refl refl refl refl

abbrev login_task : Task json
login_task =
    task
      (request "users.login" (obj (field "login" (text "bob") (field "password" (text "pw") end)))
        end)
      (("profile.key", "root.root") ∷ [])

pw_ne_empty : ◌≢◌ {A = String} "pw" ""
pw_ne_empty e = cc

bob-IsLogin : IsLogin everyone login_task bob state "bob" "pw" ((some "bob" ∷ some "pw" ∷ []) ∷ [])
unfolding running last_row
bob-IsLogin = record {
  given_login = refl;
  given_password = refl;
  some_login = bob_ne_empty;
  some_password = pw_ne_empty;
  found = refl;
  same = refl;
  given_key = refl;
  parts = refl;
}

auth-login_example :
    (m : libraries.Map) × ((login everyone login_task state).sent
      ≡ reply_message login_task (success login_task (libraries.of_map m)) ∷ [])
    × (libraries.find m "key" ≡ some (libraries.of_string "bob.pw"))
    × (libraries.find m "login" ≡ some (libraries.of_string "bob"))
    × ((auth everyone bob (login everyone login_task state).state).sent
        ≡ passed everyone login_task bob state "bob" "pw" ∷ [])
unfolding running
auth-login_example =
    auth-login everyone login_task bob state json_laws "bob" "pw" _ bob-IsLogin refl refl
