-- ===== src/Platform/Profile/Answers.antt =====
-- Every handler of profile.cpp settles its task with one message.
use stream_cloud.Prelude.{String, none, some, if◌then◌else◌, ◌==◌, List, All}
use stream_cloud.Api.Libraries.{Libraries}
use stream_cloud.Api.Message.{Task, Context}
use stream_cloud.Api.Database.{quiet_database}
use stream_cloud.Api.Answers.{Hop, Answers, answer_rules}
use stream_cloud.Platform.Profile.{Profile, profile_handlers, signup, login, check_password, auth}

-- Where a handler hands its task on to, by the command that it takes.
abbrev pub hop_of : String → Hop
hop_of command = if command == "auth" then some ("router", "service") else none

module _ {L : Libraries} (ctx : Context) (task : Task L.json) where
  Answers-signup : Answers {S = Profile L} none task (signup ctx task)
  unfolding signup
  Answers-signup = search (answer_rules, quiet_database) depth 14

  Answers-login : Answers {S = Profile L} none task (login ctx task)
  unfolding login
  Answers-login = search (answer_rules, quiet_database) depth 14

  Answers-check_password :
      (profile_key : String) (profile : List String)
      → Answers {S = Profile L}
          (some ("router", "service"))
          task
          (check_password ctx task profile_key profile)
  unfolding check_password
  Answers-check_password profile_key profile = search (answer_rules, quiet_database) depth 14

  Answers-auth : Answers {S = Profile L} (some ("router", "service")) task (auth ctx task)
  unfolding auth
  Answers-auth = search (answer_rules, quiet_database, Answers-check_password) depth 14

  -- Whatever the task and the state, a handler that ends normally has sent exactly one message: a
  -- response with the task's id to the connection that the task came from, or, if `hop_of` has a
  -- contact and a command for the handler, a task with the same id and connection to these. A
  -- handler that throws, or whose behaviour is undefined, has sent nothing until then.
  pub profile_handlers-Answers :
      All (λ h. Answers {S = Profile L} (hop_of h.0) task h.1) (profile_handlers ctx task)
  profile_handlers-Answers = (Answers-signup, (Answers-login, (Answers-auth, tt)))
