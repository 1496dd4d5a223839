-- ===== src/Manager/Users/Answers.antt =====
-- Every handler of users.cpp that answers a task settles it with one message.
use stream_cloud.Prelude.{String, none, some, if◌then◌else◌, ◌==◌, List, Assoc, All}
use stream_cloud.Api.Libraries.{Libraries}
use stream_cloud.Api.Message.{Task, Context}
use stream_cloud.Api.Database.{quiet_database}
use stream_cloud.Api.Answers.{Hop, Answers, answer_rules}
use stream_cloud.Manager.Users.{
  Users, user_handlers, add, delete, list, login, check_password, auth,
}

-- Where a handler hands its task on to, by the command that it takes.
abbrev pub hop_of : String → Hop
hop_of command = if command == "auth" then some ("router", "service") else none

module _ {L : Libraries} (ctx : Context) (task : Task L.json) where
  Answers-add : Answers {S = Users L} none task (add ctx task)
  unfolding add
  Answers-add = search (answer_rules, quiet_database) depth 14

  Answers-delete : Answers {S = Users L} none task (delete ctx task)
  unfolding delete
  Answers-delete = search (answer_rules, quiet_database) depth 14

  Answers-list : Answers {S = Users L} none task (list ctx task)
  unfolding list
  Answers-list = search (answer_rules, quiet_database) depth 14

  Answers-login : Answers {S = Users L} none task (login ctx task)
  unfolding login
  Answers-login = search (answer_rules, quiet_database) depth 14

  Answers-check_password :
      (storage : Assoc String) (user_key : String) (user : List String)
      → Answers {S = Users L}
          (some ("router", "service"))
          task
          (check_password ctx task storage user_key user)
  unfolding check_password
  Answers-check_password storage user_key user = search (answer_rules, quiet_database) depth 14

  Answers-auth : Answers {S = Users L} (some ("router", "service")) task (auth ctx task)
  unfolding auth
  Answers-auth = search (answer_rules, quiet_database, Answers-check_password) depth 14

  -- Whatever the task and the state, a handler that ends normally has sent exactly one message: a
  -- response with the task's id to the connection that the task came from, or, if `hop_of` has a
  -- contact and a command for the handler, a task with the same id and connection to these. A
  -- handler that throws, or whose behaviour is undefined, has sent nothing until then.
  pub user_handlers-Answers :
      All (λ h. Answers {S = Users L} (hop_of h.0) task h.1) (user_handlers ctx task)
  user_handlers-Answers =
      (Answers-add, (Answers-delete, (Answers-list, (Answers-login, (Answers-auth, tt)))))
