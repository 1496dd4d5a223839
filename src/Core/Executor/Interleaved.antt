-- ===== src/Core/Executor/Interleaved.antt =====
-- The two steps of `async_actor::send`, between which other senders and the worker take theirs.
use mathlib.Core.Path.{subst}
use stream_cloud.Prelude.{
  ℕ, nat_eq, ◌≡◌, refl, sym, Bool-cases, inl, inr, some, List, [], ◌∷◌, ◌++◌, arith,
}
use stream_cloud.Core.Executor.{System, put_message, enqueue, work}
use stream_cloud.Core.Executor.Office.{Office, office, set_messages, office-put_message}
use stream_cloud.Core.Executor.Wakeup.{IsAwake, has_job-append}
use stream_cloud.Core.Executor.Idle.{no_mail, work-IsAwake}

-- The systems that come about from empty mailboxes when any number of senders and one worker take
-- their steps in any order, with the actors whose message a sender has put into the mailbox and
-- whose job it has still to submit.
pub data Interleaved {A S : Type 0} (execute : ℕ → A → S → S × List (ℕ × A)) (max_throughput : ℕ)
    (s : S) : List ℕ → System A S → Type 0 where
  begun :
      Interleaved execute max_throughput s []
        (record { mailboxes = λ a. no_mail; queue = []; state = s })
  stored :
      (a : ℕ) (m : A) (owed : List ℕ) (sys : System A S)
      → Interleaved execute max_throughput s owed sys
      → Interleaved execute max_throughput s (a ∷ owed) (put_message a m sys)
  submitted :
      (before : List ℕ) (a : ℕ) (after : List ℕ) (sys : System A S)
      → Interleaved execute max_throughput s (before ++ (a ∷ after)) sys
      → Interleaved execute max_throughput s (before ++ after) (enqueue a sys)
  worked :
      (owed : List ℕ) (sys next : System A S)
      → Interleaved execute max_throughput s owed sys
      → work execute max_throughput sys ≡ some next
      → Interleaved execute max_throughput s owed next

module _ {A S : Type 0} where
  set_messages-IsAwake :
      (a : ℕ) (l : List A) (owed : List ℕ) (x : Office A S)
      → IsAwake owed x
      → IsAwake (a ∷ owed) (set_messages a l x)
  set_messages-IsAwake a l owed x h = record {
    at = λ b. elim (Bool-cases (nat_eq a b)) [
      | inl e ↦ inr (ground arith)
      | inr e ↦ elim (h.at b) [ inl n ↦ inl (rw e n) | inr j ↦ inr (ground arith) ]
    ];
  }

  enqueue-IsAwake :
      (before : List ℕ) (a : ℕ) (after : List ℕ) (x : Office A S)
      → IsAwake (before ++ (a ∷ after)) x
      → IsAwake (before ++ after) (record x { queue = x.queue ++ (a ∷ []) })
  enqueue-IsAwake before a after x h = record {
    at = λ b. elim (h.at b) [
      | inl n ↦ inl n
      | inr j ↦ inr (
          ground (
            arith,
            has_job-append b x.queue (a ∷ []),
            has_job-append b before (a ∷ after),
            has_job-append b before after,
          ))
    ];
  }

module _ {A S : Type 0} (execute : ℕ → A → S → S × List (ℕ × A)) (t : ℕ) (s : S) where
  -- In every system that comes about from empty mailboxes when senders put messages in and submit
  -- jobs, as two steps, and one worker does its rounds, in any order, an actor that has a message has a
  -- job in the queue of the coordinator, or a sender has put a message into its mailbox and has
  -- still to submit the job. A round of the worker, in which the handlers send, is one step.
  pub Interleaved-IsAwake :
      (owed : List ℕ) (sys : System A S)
      → Interleaved execute t s owed sys
      → IsAwake owed (office sys)
  unfolding enqueue
  Interleaved-IsAwake owed sys begun = record { at = λ a. inl refl }
  Interleaved-IsAwake owed sys (stored a m owed' sys' r) =
      subst (IsAwake (a ∷ owed')) (sym (office-put_message a m sys'))
        (set_messages-IsAwake a _ owed' (office sys') (Interleaved-IsAwake owed' sys' r))
  Interleaved-IsAwake owed sys (submitted before a after sys' r) =
      enqueue-IsAwake before a after (office sys')
        (Interleaved-IsAwake (before ++ (a ∷ after)) sys' r)
  Interleaved-IsAwake owed sys (worked owed' sys' next r w) =
      work-IsAwake execute t sys' next (Interleaved-IsAwake owed' sys' r) w
