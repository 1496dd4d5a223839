-- ===== src/Core/Executor/Wakeup.antt =====
-- No actor is forgotten: an actor with a message has a job in the coordinator's queue.
use mathlib.Core.Path.{subst}
use stream_cloud.Prelude.{
  ℕ, zero, suc, Bool, true, false, ◌||◌, nat_eq, ◌≡◌, ◌⊎◌, refl, sym, ap, ◌∙◌, Bool-cases, inl, inr,
  List, [], ◌∷◌, ◌++◌, arith, is_nil,
}
use stream_cloud.Core.Executor.{awaiting, System, run}
use stream_cloud.Core.Executor.Office.{
  Office, office, set_messages, deliver, deliver_all, eq_of_nat_eq,
}
use stream_cloud.Core.Executor.Order.{
  handle_front, serve, serve_some, serve_none, run-serve, result_of,
}

pub List-cases : {A : Type 0} (l : List A) → (l ≡ []) ⊎ ((x : A) × (xs : List A) × (l ≡ x ∷ xs))
List-cases [] = inl refl
List-cases (x ∷ xs) = inr (x, xs, refl)

-- Whether an actor is in a queue of jobs.
abbrev pub has_job : ℕ → List ℕ → Bool
has_job a [] = false
has_job a (b ∷ bs) = nat_eq b a || has_job a bs

pub has_job-append : (a : ℕ) (k l : List ℕ) → has_job a (k ++ l) ≡ (has_job a k || has_job a l)
has_job-append a [] l = refl
has_job-append a (b ∷ k) l = ground (arith, has_job-append a k l)

module _ {A S : Type 0} where
  -- Each actor but those in `busy` has a job, or no message.
  pub record IsAwake (busy : List ℕ) (x : Office A S) : Type 0 where
    pub at :
        (a : ℕ) → (is_nil (x.messages a) ≡ true) ⊎ ((has_job a x.queue || has_job a busy) ≡ true)

  pub deliver-IsAwake :
      (busy : List ℕ) (b : ℕ) (m : A) (x : Office A S)
      → IsAwake busy x
      → IsAwake busy (deliver b m x)
  deliver-IsAwake busy b m x h = record {
    at = λ a. elim (Bool-cases (nat_eq b a)) [
      | inl e ↦ inr (ground (arith, has_job-append a x.queue (b ∷ [])))
      | inr e ↦ elim (h.at a) [
        | inl n ↦ inl (rw e n)
        | inr j ↦ inr (ground (arith, has_job-append a x.queue (b ∷ [])))
      ]
    ];
  }

  deliver_all-IsAwake :
      (busy : List ℕ) (out : List (ℕ × A)) (x : Office A S)
      → IsAwake busy x
      → IsAwake busy (deliver_all out x)
  deliver_all-IsAwake busy [] x h = h
  deliver_all-IsAwake busy ((b, m) ∷ rest) x h =
      deliver_all-IsAwake busy rest (deliver b m x) (deliver-IsAwake busy b m x h)

  -- Taking a message from an actor that is busy.
  set_messages-IsAwake :
      {busy : List ℕ} (b : ℕ) (l : List A) (x : Office A S)
      → IsAwake (b ∷ busy) x
      → IsAwake (b ∷ busy) (set_messages b l x)
  set_messages-IsAwake b l x h = record {
    at = λ a. elim (Bool-cases (nat_eq b a)) [
      | inl e ↦ inr (ground arith)
      | inr e ↦ elim (h.at a) [ inl n ↦ inl (rw e n) | inr j ↦ inr j ]
    ];
  }

module _ {A S : Type 0} (execute : ℕ → A → S → S × List (ℕ × A)) where
  serve-IsAwake :
      {busy : List ℕ} (left a : ℕ) (x : Office A S)
      → IsAwake (a ∷ busy) x
      → IsAwake (a ∷ busy) (serve execute left a x).1
  serve-IsAwake zero a x h = h
  serve-IsAwake {busy = busy} (suc left) a x h = elim (List-cases (x.messages a)) [
    | inl e ↦ rw (serve_none execute left a x e) h
    | inr (y, rest, e) ↦ rw (serve_some execute left a y rest x e) (
        serve-IsAwake left a (handle_front execute a y (set_messages a rest x)) (
          deliver_all-IsAwake (a ∷ busy) (execute a y x.state).1
            (record (set_messages a rest x) { state = (execute a y x.state).0 })
            (record { at = (set_messages-IsAwake a rest x h).at })))
  ]

  serve_drained :
      (left a : ℕ) (x : Office A S)
      → (serve execute left a x).0 ≡ true
      → is_nil ((serve execute left a x).1.messages a) ≡ true
  serve_drained zero a x h = cc
  serve_drained (suc left) a x h = elim (List-cases (x.messages a)) [
    | inl e ↦ rw (serve_none execute left a x e, e) refl
    | inr (y, rest, e) ↦ rw (serve_some execute left a y rest x e) (
        serve_drained left a (handle_front execute a y (set_messages a rest x))
          (rw (serve_some execute left a y rest x e) at h))
  ]

  -- Taking the first job makes its actor busy.
  pub dequeue-IsAwake :
      {busy : List ℕ} (a : ℕ) (rest : List ℕ) (x : Office A S)
      → x.queue ≡ a ∷ rest
      → IsAwake busy x
      → IsAwake (a ∷ busy) (record x { queue = rest })
  dequeue-IsAwake a rest x e h = record {
    at = λ b. elim (h.at b) [ inl n ↦ inl n | inr j ↦ inr (ground arith) ];
  }

  -- An actor that has no message left, or whose job is enqueued again, is no longer busy.
  pub awaiting-IsAwake :
      {busy : List ℕ} (a : ℕ) (x : Office A S)
      → is_nil (x.messages a) ≡ true
      → IsAwake (a ∷ busy) x
      → IsAwake busy x
  awaiting-IsAwake a x n h = record {
    at = λ b. elim (Bool-cases (nat_eq a b)) [
      | inl e ↦ inl (rw (← eq_of_nat_eq a b e) n)
      | inr e ↦ elim (h.at b) [ inl m ↦ inl m | inr j ↦ inr (ground arith) ]
    ];
  }

  pub resume-IsAwake :
      {busy : List ℕ} (a : ℕ) (x : Office A S)
      → IsAwake (a ∷ busy) x
      → IsAwake busy (record x { queue = x.queue ++ (a ∷ []) })
  resume-IsAwake a x h = record {
    at = λ b. elim (h.at b) [
      | inl m ↦ inl m
      | inr j ↦ inr (ground (arith, has_job-append b x.queue (a ∷ [])))
    ];
  }

  pub run-IsAwake :
      {busy : List ℕ} (t a : ℕ) (sys : System A S)
      → IsAwake (a ∷ busy) (office sys)
      → IsAwake (a ∷ busy) (office (run execute t a sys).1)
  run-IsAwake {busy = busy} t a sys h =
      subst (IsAwake (a ∷ busy)) (sym (ap (λ r. r.1) (run-serve execute t a sys)))
        (serve-IsAwake t a (office sys) h)

  pub run_awaiting :
      (t a : ℕ) (sys : System A S)
      → (run execute t a sys).0 ≡ awaiting
      → is_nil ((office (run execute t a sys).1).messages a) ≡ true
  run_awaiting t a sys e =
      ap (λ r. is_nil (r.1.messages a)) (run-serve execute t a sys)
      ∙ serve_drained t a (office sys)
          (ended _ (sym (ap (λ r. r.0) (run-serve execute t a sys)) ∙ e))
    where
      ended : (b : Bool) → result_of execute b ≡ awaiting → b ≡ true
      ended true h = refl
      ended false h = cc
