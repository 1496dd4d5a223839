-- ===== src/Manager/Subscriptions/Answers.antt =====
-- Every handler of subscriptions.cpp that answers a task settles it with one message.
use stream_cloud.Prelude.{String, none, some, if◌then◌else◌, ◌==◌, All}
use stream_cloud.Api.Libraries.{Libraries}
use stream_cloud.Api.Message.{Task, Context}
use stream_cloud.Api.Database.{quiet_database}
use stream_cloud.Api.Answers.{Hop, Answers, answer_rules}
use stream_cloud.Manager.Subscriptions.{
  Subscriptions, subscription_handlers, add, delete, list, devices, groups, on, off,
}

-- Where a handler hands its task on to, by the command that it takes.
abbrev pub hop_of : String → Hop
hop_of command =
    if command == "devices"
    then some ("connections", "groups")
    else if command == "groups"
    then some ("devices", "request")
    else none

module _ {L : Libraries} (ctx : Context) (task : Task L.json) where
  Answers-add : Answers {S = Subscriptions L} none task (add ctx task)
  unfolding add
  Answers-add = search (answer_rules, quiet_database) depth 14

  Answers-delete : Answers {S = Subscriptions L} none task (delete ctx task)
  unfolding delete
  Answers-delete = search (answer_rules, quiet_database) depth 14

  Answers-list : Answers {S = Subscriptions L} none task (list ctx task)
  unfolding list
  Answers-list = search (answer_rules, quiet_database) depth 14

  Answers-devices :
      Answers {S = Subscriptions L} (some ("connections", "groups")) task (devices ctx task)
  unfolding devices
  Answers-devices = search (answer_rules, quiet_database) depth 14

  Answers-groups :
      Answers {S = Subscriptions L} (some ("devices", "request")) task (groups ctx task)
  unfolding groups
  Answers-groups = search (answer_rules, quiet_database) depth 14

  Answers-on : Answers {S = Subscriptions L} none task (on ctx task)
  unfolding on
  Answers-on = search (answer_rules, quiet_database) depth 14

  Answers-off : Answers {S = Subscriptions L} none task (off ctx task)
  unfolding off
  Answers-off = search (answer_rules, quiet_database) depth 14

  -- Whatever the task and the state, a handler that ends normally has sent exactly one message: a
  -- response with the task's id to the connection that the task came from, or, if `hop_of` has a
  -- contact and a command for the handler, a task with the same id and connection to these. A
  -- handler that throws, or whose behaviour is undefined, has sent nothing until then.
  pub subscription_handlers-Answers :
      All
        (λ h. Answers {S = Subscriptions L} (hop_of h.0) task h.1)
        (subscription_handlers ctx task)
  subscription_handlers-Answers = (
    Answers-add,
    (
      Answers-delete,
      (Answers-list, (Answers-devices, (Answers-groups, (Answers-on, (Answers-off, tt))))),
    ),
  )
