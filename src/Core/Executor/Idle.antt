-- ===== src/Core/Executor/Idle.antt =====
-- The steps of senders and of a worker, in any order: a worker waits only when all is done.
use mathlib.Core.Path.{subst}
use stream_cloud.Prelude.{
  ℕ, true, false, ◌≡◌, ◌⊎◌, refl, sym, ap, ◌∙◌, Bool, none, some, inl, inr, List, [], ◌∷◌, is_nil,
  arith,
}
use stream_cloud.Core.MailQueue.{MailQueue}
use stream_cloud.Core.MailQueue.Order.{contents}
use stream_cloud.Core.Executor.{
  ExecutableResult, resume, awaiting, System, enqueue, send, run, work,
}
use stream_cloud.Core.Executor.Office.{office, office-send}
use stream_cloud.Core.Executor.Order.{serve, run-serve, result_of}
use stream_cloud.Core.Executor.Wakeup.{
  IsAwake, List-cases, deliver-IsAwake, dequeue-IsAwake, awaiting-IsAwake, resume-IsAwake,
  run-IsAwake, run_awaiting,
}

abbrev pub no_mail : {A : Type 0} → MailQueue A
no_mail = record { mail_queue = []; local_queue = []; cache = [] }

-- The systems that come about from empty mailboxes when senders put messages in and a worker does
-- its rounds, in any order.
pub data Reachable {A S : Type 0} (execute : ℕ → A → S → S × List (ℕ × A)) (max_throughput : ℕ)
    (s : S) : System A S → Type 0 where
  started :
      Reachable execute max_throughput s
        (record { mailboxes = λ a. no_mail; queue = []; state = s })
  sent :
      (a : ℕ) (m : A) (sys : System A S)
      → Reachable execute max_throughput s sys
      → Reachable execute max_throughput s (send a m sys)
  worked :
      (sys next : System A S)
      → Reachable execute max_throughput s sys
      → work execute max_throughput sys ≡ some next
      → Reachable execute max_throughput s next

module _ {A S : Type 0} (execute : ℕ → A → S → S × List (ℕ × A)) (t : ℕ) where
  -- the run of the job that the worker has dequeued
  abbrev ran : ℕ → List ℕ → System A S → ExecutableResult × System A S
  ran a rest sys = run execute t a (record sys { queue = rest })

  work_waits : (sys : System A S) → sys.queue ≡ [] → work execute t sys ≡ none
  unfolding work
  work_waits sys e = rw (work, e) refl

  work_resume :
      (a : ℕ) (rest : List ℕ) (sys : System A S)
      → sys.queue ≡ a ∷ rest
      → (ran a rest sys).0 ≡ resume
      → work execute t sys ≡ some (enqueue a (ran a rest sys).1)
  unfolding work
  work_resume a rest sys e r = rw (work, e, r) refl

  work_awaiting :
      (a : ℕ) (rest : List ℕ) (sys : System A S)
      → sys.queue ≡ a ∷ rest
      → (ran a rest sys).0 ≡ awaiting
      → work execute t sys ≡ some (ran a rest sys).1
  unfolding work
  work_awaiting a rest sys e r = rw (work, e, r) refl

  result_cases : (b : Bool) → (result_of execute b ≡ awaiting) ⊎ (result_of execute b ≡ resume)
  result_cases true = inl refl
  result_cases false = inr refl

  run_cases :
      (a : ℕ) (sys : System A S)
      → ((run execute t a sys).0 ≡ awaiting) ⊎ ((run execute t a sys).0 ≡ resume)
  run_cases a sys =
      subst (λ r. (r ≡ awaiting) ⊎ (r ≡ resume)) (sym (ap (λ r. r.0) (run-serve execute t a sys)))
        (result_cases (serve execute t a (office sys)).0)

  some_injective : {x y : System A S} → some x ≡ some y → x ≡ y
  some_injective e = cc

  pub work-IsAwake :
      {owed : List ℕ} (sys next : System A S)
      → IsAwake owed (office sys)
      → work execute t sys ≡ some next
      → IsAwake owed (office next)
  unfolding enqueue
  work-IsAwake {owed = owed} sys next h w = elim (List-cases sys.queue) [
    | inl e ↦ absurd (cc (work_waits sys e))
    | inr (a, rest, e) ↦
        let busy =
          run-IsAwake execute t a (record sys { queue = rest })
            (dequeue-IsAwake execute a rest (office sys) e h) in
        elim (run_cases a (record sys { queue = rest })) [
          | inl r ↦
              subst (λ x. IsAwake owed (office x))
                (some_injective (sym (work_awaiting a rest sys e r) ∙ w))
                (awaiting-IsAwake execute a _ (run_awaiting execute t a _ r) busy)
          | inr r ↦
              subst (λ x. IsAwake owed (office x))
                (some_injective (sym (work_resume a rest sys e r) ∙ w))
                (resume-IsAwake execute a _ busy)
        ]
  ]

  -- An actor that has a message has a job, once the senders have completed their steps.
  Reachable-IsAwake :
      (s : S) (sys : System A S) → Reachable execute t s sys → IsAwake [] (office sys)
  Reachable-IsAwake s sys started = record { at = λ a. inl refl }
  Reachable-IsAwake s sys (sent a m sys' r) =
      subst (IsAwake []) (sym (office-send a m sys'))
        (deliver-IsAwake [] a m (office sys') (Reachable-IsAwake s sys' r))
  Reachable-IsAwake s sys (worked sys' next r w) =
      work-IsAwake sys' next (Reachable-IsAwake s sys' r) w

  work_goes_on :
      (a : ℕ) (rest : List ℕ) (sys : System A S)
      → sys.queue ≡ a ∷ rest
      → (next : System A S) × (work execute t sys ≡ some next)
  work_goes_on a rest sys e = elim (run_cases a (record sys { queue = rest })) [
    | inl r ↦ (_, work_awaiting a rest sys e r)
    | inr r ↦ (_, work_resume a rest sys e r)
  ]

  nil_of_is_nil : (l : List A) → is_nil l ≡ true → l ≡ []
  nil_of_is_nil [] h = refl
  nil_of_is_nil (x ∷ l) h = cc

  -- In a system that is reached from empty mailboxes by steps of senders and rounds of one
  -- worker, the worker waits for a job only when every mailbox is empty.
  pub waiting-contents :
      (s : S) (sys : System A S) (a : ℕ)
      → Reachable execute t s sys
      → work execute t sys ≡ none
      → contents (sys.mailboxes a) ≡ []
  waiting-contents s sys a r w = elim (List-cases sys.queue) [
    | inl e ↦ elim ((Reachable-IsAwake s sys r).at a) [
      | inl n ↦ nil_of_is_nil _ n
      | inr j ↦ absurd (ground arith)
    ]
    | inr (b, rest, e) ↦ absurd (cc (work_goes_on b rest sys e).1)
  ]
