-- ===== src/Manager/Devices/Answers.antt =====
-- Every handler of devices.cpp that answers a task settles it with one message.
use stream_cloud.Prelude.{String, none, some, if◌then◌else◌, ◌==◌, All}
use stream_cloud.Api.Libraries.{Libraries}
use stream_cloud.Api.Message.{Task, Context}
use stream_cloud.Api.Database.{quiet_database}
use stream_cloud.Api.Answers.{Hop, Answers, answer_rules}
use stream_cloud.Manager.Devices.{
  Devices, answering, add, delete, list, detail, control, connect, subscribe, unsubscribe,
}

-- Where a handler hands its task on to, by the command that it takes.
abbrev pub hop_of : String → Hop
hop_of command =
    if command == "control"
    then some ("connections", "devices")
    else if command == "subscribe"
    then some ("connections", "subscribe")
    else if command == "unsubscribe"
    then some ("connections", "unsubscribe")
    else none

module _ {L : Libraries} (ctx : Context) (task : Task L.json) where
  Answers-add : Answers {S = Devices L} none task (add ctx task)
  unfolding add
  Answers-add = search (answer_rules, quiet_database) depth 14

  Answers-delete : Answers {S = Devices L} none task (delete ctx task)
  unfolding delete
  Answers-delete = search (answer_rules, quiet_database) depth 14

  Answers-list : Answers {S = Devices L} none task (list ctx task)
  unfolding list
  Answers-list = search (answer_rules, quiet_database) depth 14

  Answers-detail : Answers {S = Devices L} none task (detail ctx task)
  unfolding detail
  Answers-detail = search (answer_rules, quiet_database) depth 14

  Answers-control :
      Answers {S = Devices L} (some ("connections", "devices")) task (control ctx task)
  unfolding control
  Answers-control = search (answer_rules, quiet_database) depth 14

  Answers-connect : Answers {S = Devices L} none task (connect ctx task)
  unfolding connect
  Answers-connect = search (answer_rules, quiet_database) depth 14

  Answers-subscribe :
      Answers {S = Devices L} (some ("connections", "subscribe")) task (subscribe ctx task)
  unfolding subscribe
  Answers-subscribe = search (answer_rules, quiet_database) depth 14

  Answers-unsubscribe :
      Answers {S = Devices L} (some ("connections", "unsubscribe")) task (unsubscribe ctx task)
  unfolding unsubscribe
  Answers-unsubscribe = search (answer_rules, quiet_database) depth 14

  -- Whatever the task and the state, a handler that ends normally has sent exactly one message: a
  -- response with the task's id to the connection that the task came from, or, if `hop_of` has a
  -- contact and a command for the handler, a task with the same id and connection to these. A
  -- handler that throws, or whose behaviour is undefined, has sent nothing until then.
  pub answering-Answers :
      All (λ h. Answers {S = Devices L} (hop_of h.0) task h.1) (answering ctx task)
  answering-Answers = (
    Answers-add,
    (
      Answers-delete,
      (
        Answers-list,
        (
          Answers-detail,
          (Answers-control, (Answers-connect, (Answers-subscribe, (Answers-unsubscribe, tt)))),
        ),
      ),
    ),
  )
