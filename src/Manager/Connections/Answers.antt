-- ===== src/Manager/Connections/Answers.antt =====
-- Every handler of connections.cpp that answers a task settles it with one message.
use stream_cloud.Prelude.{String, none, some, if◌then◌else◌, ◌==◌, All}
use stream_cloud.Api.Libraries.{Libraries}
use stream_cloud.Api.Message.{Task, Context}
use stream_cloud.Api.Database.{quiet_database}
use stream_cloud.Api.Answers.{Hop, Answers, answer_rules}
use stream_cloud.Manager.Connections.{
  Connections, connection_handlers, add, delete, list, groups, devices, subscribe, unsubscribe,
}

-- Where a handler hands its task on to, by the command that it takes.
abbrev pub hop_of : String → Hop
hop_of command =
    if command == "devices"
    then some ("subscriptions", "groups")
    else if command == "subscribe"
    then some ("subscriptions", "on")
    else if command == "unsubscribe"
    then some ("subscriptions", "off")
    else none

module _ {L : Libraries} (ctx : Context) (task : Task L.json) where
  Answers-add : Answers {S = Connections L} none task (add ctx task)
  unfolding add
  Answers-add = search (answer_rules, quiet_database) depth 14

  Answers-delete : Answers {S = Connections L} none task (delete ctx task)
  unfolding delete
  Answers-delete = search (answer_rules, quiet_database) depth 14

  Answers-list : Answers {S = Connections L} none task (list ctx task)
  unfolding list
  Answers-list = search (answer_rules, quiet_database) depth 14

  Answers-groups : Answers {S = Connections L} none task (groups ctx task)
  unfolding groups
  Answers-groups = search (answer_rules, quiet_database) depth 14

  Answers-devices :
      Answers {S = Connections L} (some ("subscriptions", "groups")) task (devices ctx task)
  unfolding devices
  Answers-devices = search (answer_rules, quiet_database) depth 14

  Answers-subscribe :
      Answers {S = Connections L} (some ("subscriptions", "on")) task (subscribe ctx task)
  unfolding subscribe
  Answers-subscribe = search (answer_rules, quiet_database) depth 14

  Answers-unsubscribe :
      Answers {S = Connections L} (some ("subscriptions", "off")) task (unsubscribe ctx task)
  unfolding unsubscribe
  Answers-unsubscribe = search (answer_rules, quiet_database) depth 14

  -- Whatever the task and the state, a handler that ends normally has sent exactly one message: a
  -- response with the task's id to the connection that the task came from, or, if `hop_of` has a
  -- contact and a command for the handler, a task with the same id and connection to these. A
  -- handler that throws, or whose behaviour is undefined, has sent nothing until then.
  pub connection_handlers-Answers :
      All (λ h. Answers {S = Connections L} (hop_of h.0) task h.1) (connection_handlers ctx task)
  connection_handlers-Answers = (
    Answers-add,
    (
      Answers-delete,
      (
        Answers-list,
        (Answers-groups, (Answers-devices, (Answers-subscribe, (Answers-unsubscribe, tt)))),
      ),
    ),
  )
