-- ===== src/Core/Executor.antt =====
-- modules/stream-core/src/actor/async_actor.cpp, executor/worker.hpp and
-- executor/policy/work_sharing.hpp: the actors, their mailboxes, and the shared queue of jobs.
pub mod Finish
pub mod Idle
pub mod Interleaved
pub mod Launch
pub mod Office
pub mod Order
pub mod Wakeup
use stream_cloud.Prelude.{
  ℕ, zero, suc, Bool, true, false, nat_eq, if◌then◌else◌, Option, none, some, List, [], ◌∷◌, ◌++◌,
}
use stream_cloud.Core.MailQueue.{MailQueue, put, get, push_to_cache, pop_to_cache}

pub data ExecutableResult : Type 0 where
  resume awaiting done shutdown : ExecutableResult

-- The mailboxes of the actors, the queue of the coordinator, whose jobs are actors, and what the
-- handlers of the actors keep.
pub record System (A S : Type 0) : Type 0 where
  pub mailboxes : ℕ → MailQueue A
  pub queue : List ℕ
  pub state : S

-- The number of messages that a mailbox holds outside its cache.
abbrev pub length {ℓ} : {A : Type ℓ} → List A → ℕ
length [] = 0
length (_ ∷ xs) = suc (length xs)

module _ {A S : Type 0} where
  unfoldable pub at_mailbox : ℕ → MailQueue A → System A S → System A S
  at_mailbox a q sys = record sys { mailboxes = λ b. if nat_eq a b then q else sys.mailboxes b }

  -- `work_sharing::enqueue`
  unfoldable pub enqueue : ℕ → System A S → System A S
  enqueue job sys = record sys { queue = sys.queue ++ (job ∷ []) }

  -- `mailbox().put(mep)`
  unfoldable pub put_message : ℕ → A → System A S → System A S
  unfolding at_mailbox
  put_message a m sys = at_mailbox a (put m (sys.mailboxes a)) sys

  -- `async_actor::send(mep, nullptr)`, for an actor with an environment: the two steps, each of which
  -- takes a lock of its own, one after the other. Interleaved has them apart.
  unfoldable pub send : ℕ → A → System A S → System A S
  unfolding put_message enqueue
  send a m sys = enqueue a (put_message a m sys)

  unfoldable pub send_all : List (ℕ × A) → System A S → System A S
  send_all [] sys = sys
  send_all ((a, m) ∷ rest) sys = send_all rest (send a m sys)

-- `while (msg_ptr) { push_to_cache(msg_ptr); msg_ptr = next_message(); }`, with fuel
unfoldable pub cache_all : {A : Type 0} → ℕ → MailQueue A → MailQueue A
cache_all zero q = q
cache_all (suc fuel) q =
    let (m, q1) = get q in
    elim m [ none ↦ q1 | some x ↦ cache_all fuel (push_to_cache (some x) q1).1 ]

-- The rest of `run` after the loop: all messages go to the cache, and `has_next_message` asks for
-- another one.
unfoldable pub finish : {A : Type 0} → MailQueue A → ExecutableResult × MailQueue A
finish q =
    let q1 = cache_all (suc (length (q.local_queue ++ q.mail_queue))) q in
    let (m, q2) = get q1 in
    let (found, q3) = push_to_cache m q2 in (if found then awaiting else resume, q3)

-- `execute` is what the reactions of an actor do with a message: the new state, and what it sends.
module _ {A S : Type 0} (execute : ℕ → A → S → S × List (ℕ × A)) where
  unfoldable pub handle : ℕ → A → System A S → System A S
  handle a m sys = let (s, out) = execute a m sys.state in send_all out (record sys { state = s })

  -- the loop over `handled_msgs`, for the messages that are left of the throughput: whether it has
  -- returned `awaiting`
  unfoldable pub handle_messages : ℕ → ℕ → System A S → Bool × System A S
  handle_messages zero a sys = (false, sys)
  handle_messages (suc left) a sys =
      let (m, q) = pop_to_cache (sys.mailboxes a) in
      let sys1 = at_mailbox a q sys in
      elim m [
        | some x ↦ handle_messages left a (handle a x sys1)
        | none ↦
            let (m', q') = get (sys1.mailboxes a) in
            let sys2 = at_mailbox a q' sys1 in
            elim m' [ some x ↦ handle_messages left a (handle a x sys2) | none ↦ (true, sys2) ]
      ]

  -- `async_actor::run`
  unfoldable pub run : ℕ → ℕ → System A S → ExecutableResult × System A S
  run max_throughput a sys =
      let (ended, sys1) = handle_messages max_throughput a sys in
      if ended
      then (awaiting, sys1)
      else (let (result, q) = finish (sys1.mailboxes a) in (result, at_mailbox a q sys1))

  -- One round of `worker::run`: the job that was dequeued is run, and enqueued again if it says so.
  -- `none` while the worker waits for a job.
  unfoldable pub work : ℕ → System A S → Option (System A S)
  work max_throughput sys = elim sys.queue [
    | [] ↦ none
    | a ∷ rest ↦
        let (result, sys1) = run max_throughput a (record sys { queue = rest }) in
        elim result [ resume ↦ some (enqueue a sys1) | _ ↦ some sys1 ]
  ]

  -- `async_actor::launch` without `hide`: `while (run(…) != awaiting) {}`, with fuel; `none` when the
  -- fuel is used up
  unfoldable pub launch : ℕ → ℕ → ℕ → System A S → Option (System A S)
  unfolding run
  launch zero max_throughput a sys = none
  launch (suc fuel) max_throughput a sys =
      let (result, sys1) = run max_throughput a sys in
      let rest = launch fuel max_throughput a sys1 in
      elim result [ awaiting ↦ some sys1 | _ ↦ rest ]
