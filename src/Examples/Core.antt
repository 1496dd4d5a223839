-- ===== src/Examples/Core.antt =====
-- The mail queue and the executor at concrete inputs: messages are numbers, actor 0 passes each on
-- to actor 1, and the state is the list of the messages that actor 1 has handled.
use stream_cloud.Prelude.{
  ℕ, ◌≡◌, refl, nat_eq, if◌then◌else◌, or_else, none, some, arith, List, [], ◌∷◌, ◌++◌,
}
use stream_cloud.Core.MailQueue.{put, get, sync, push_to_cache, pop_to_cache}
use stream_cloud.Core.MailQueue.Order.{
  Operation, putting, getting, perform, pending, contents, perform_fifo,
}
use stream_cloud.Core.Executor.{
  ExecutableResult, System, at_mailbox, enqueue, send, put_message, send_all, cache_all, handle,
  handle_messages, finish, run, work,
}
use stream_cloud.Core.Executor.Office.{Office, office}
use stream_cloud.Core.Executor.Order.{serve, result_of, run-serve}
use stream_cloud.Core.Executor.Wakeup.{IsAwake}
use stream_cloud.Core.Executor.Launch.{IsFinished, launch_terminates}
use stream_cloud.Core.Executor.Interleaved.{
  Interleaved, begun, stored, submitted, Interleaved-IsAwake,
}
use stream_cloud.Core.Executor.Idle.{no_mail, Reachable, started, sent, worked, waiting-contents}

-- Opens what a run of the executor calls.
unfoldable executing : Unit {0}
unfolding work run handle_messages handle send_all send at_mailbox enqueue put get sync pop_to_cache
    push_to_cache finish cache_all
executing = tt

abbrev pass_on : ℕ → ℕ → List ℕ → List ℕ × List (ℕ × ℕ)
pass_on a m handled = if nat_eq a 0 then (handled, (1, m) ∷ []) else (handled ++ (m ∷ []), [])

abbrev start : System ℕ (List ℕ)
start = record { mailboxes = λ a. no_mail; queue = []; state = [] }

-- two messages for actor 0
abbrev two : System ℕ (List ℕ)
two = send 0 8 (send 0 7 start)

two-Reachable : Reachable pass_on 5 [] two
two-Reachable = sent 0 8 _ (sent 0 7 _ started)

abbrev steps : List (Operation ℕ)
steps = putting 7 ∷ getting ∷ putting 8 ∷ putting 9 ∷ getting ∷ []

perform_fifo_example :
    (perform steps no_mail).0 ++ pending (perform steps no_mail).1 ≡ 7 ∷ 8 ∷ 9 ∷ []
perform_fifo_example = perform_fifo steps no_mail

run-serve_example :
    ◌≡◌ {A = ExecutableResult × Office ℕ (List ℕ)}
      ((run pass_on 1 0 two).0, office (run pass_on 1 0 two).1)
      (result_of pass_on (serve pass_on 1 0 (office two)).0, (serve pass_on 1 0 (office two)).1)
run-serve_example = run-serve pass_on 1 0 two

-- with a throughput of one, the run has handled the first message and left the second
run_state :
    (run pass_on 1 0 two).1.mailboxes 0
    ≡ record { mail_queue = []; local_queue = []; cache = 8 ∷ [] }
unfolding executing
run_state = refl

-- two senders have put their messages in, and one of them has submitted the job
abbrev owing : System ℕ (List ℕ)
owing = enqueue 1 (put_message 1 8 (put_message 0 7 start))

owing-Interleaved : Interleaved pass_on 5 [] (0 ∷ []) owing
owing-Interleaved = submitted [] 1 (0 ∷ []) _ (stored 1 8 (0 ∷ []) _ (stored 0 7 [] _ begun))

Interleaved-IsAwake_example : IsAwake (0 ∷ []) (office owing)
Interleaved-IsAwake_example = Interleaved-IsAwake pass_on 5 [] (0 ∷ []) owing owing-Interleaved

-- a round of a worker
abbrev round : System ℕ (List ℕ) → System ℕ (List ℕ)
round sys = or_else sys (work pass_on 5 sys)

-- one message for actor 1, and the system after a round
abbrev one : System ℕ (List ℕ)
one = send 1 7 start

work-one : work pass_on 5 one ≡ some (round one)
unfolding executing
work-one = refl

idle_run : (round one).state ≡ 7 ∷ []
unfolding executing
idle_run = refl

idle_waits : work pass_on 5 (round one) ≡ none
unfolding executing
idle_waits = refl

-- a handler that sends nothing
abbrev keep : ℕ → ℕ → List ℕ → List ℕ × List (ℕ × ℕ)
keep a m handled = (handled ++ (m ∷ []), [])

launch_terminates_example : IsFinished keep 0 two 3 1
unfolding executing
launch_terminates_example = launch_terminates keep 0 3 1 two (λ m s. tt) (omega arith) (omega arith)

waiting-contents_example : contents ((round one).mailboxes 1) ≡ []
waiting-contents_example =
    waiting-contents pass_on 5 [] (round one) 1
      (worked one (round one) (sent 1 7 start started) work-one) idle_waits
