-- ===== src/Manager/Groups/Answers.antt =====
-- Every handler of groups.cpp that answers a task settles it with one message.
use stream_cloud.Prelude.{String, none, All}
use stream_cloud.Api.Libraries.{Libraries}
use stream_cloud.Api.Message.{Task, Context}
use stream_cloud.Api.Database.{quiet_database}
use stream_cloud.Api.Answers.{Hop, Answers, answer_rules}
use stream_cloud.Manager.Groups.{Groups, group_handlers, add, delete, list}

-- Where a handler hands its task on to, by the command that it takes.
abbrev pub hop_of : String → Hop
hop_of command = none

module _ {L : Libraries} (ctx : Context) (task : Task L.json) where
  Answers-add : Answers {S = Groups L} none task (add ctx task)
  unfolding add
  Answers-add = search (answer_rules, quiet_database) depth 14

  Answers-delete : Answers {S = Groups L} none task (delete ctx task)
  unfolding delete
  Answers-delete = search (answer_rules, quiet_database) depth 14

  Answers-list : Answers {S = Groups L} none task (list ctx task)
  unfolding list
  Answers-list = search (answer_rules, quiet_database) depth 14

  -- Whatever the task and the state, a handler that ends normally has sent exactly one message: a
  -- response with the task's id to the connection that the task came from, or, if `hop_of` has a
  -- contact and a command for the handler, a task with the same id and connection to these. A
  -- handler that throws, or whose behaviour is undefined, has sent nothing until then.
  pub group_handlers-Answers :
      All (λ h. Answers {S = Groups L} (hop_of h.0) task h.1) (group_handlers ctx task)
  group_handlers-Answers = (Answers-add, (Answers-delete, (Answers-list, tt)))
