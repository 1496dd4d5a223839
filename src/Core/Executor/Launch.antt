-- ===== src/Core/Executor/Launch.antt =====
-- `launch` ends, and has handled every message.
use stream_cloud.Prelude.{
  ℕ, zero, suc, ◌+◌, ◌<◌, Bool, true, false, nat_eq, ◌≡◌, ◌⊎◌, refl, ap, ◌∙◌, All, some, inl, inr,
  List, [], ◌∷◌, arith,
}
use stream_cloud.Core.MailQueue.Order.{contents}
use stream_cloud.Core.Executor.{awaiting, resume, System, length, run, launch}
use stream_cloud.Core.Executor.Office.{
  Office, office, nat_eq_refl, set_messages, deliver_all, deliver,
}
use stream_cloud.Core.Executor.Order.{
  handle_front, serve, serve_some, serve_none, run-serve, result_of,
}

-- None of the messages is for the actor.
abbrev pub AreElsewhere : {A : Type 0} → ℕ → List (ℕ × A) → Type 0
AreElsewhere a out = All (λ p. nat_eq p.0 a ≡ false) out

module _ {A S : Type 0} where
  deliver_all-messages :
      (a : ℕ) (out : List (ℕ × A)) (x : Office A S)
      → AreElsewhere a out
      → (deliver_all out x).messages a ≡ x.messages a
  deliver_all-messages a [] x h = refl
  deliver_all-messages a ((b, m) ∷ out) x (e, h) =
      deliver_all-messages a out (deliver b m x) h ∙ rw e refl

  deliver_all-state : (out : List (ℕ × A)) (x : Office A S) → (deliver_all out x).state ≡ x.state
  deliver_all-state [] x = refl
  deliver_all-state ((b, m) ∷ out) x = deliver_all-state out (deliver b m x)

module _ {A S : Type 0} (execute : ℕ → A → S → S × List (ℕ × A)) (a : ℕ) where
  -- The state after the messages were handled in their order.
  abbrev pub handle_all : List A → S → S
  handle_all [] s = s
  handle_all (m ∷ rest) s = handle_all rest (execute a m s).0

  -- The handlers of the actor send nothing to the actor itself.
  abbrev pub SendsElsewhere : Type 0
  SendsElsewhere = (m : A) (s : S) → AreElsewhere a (execute a m s).1

  -- What is left after a run over the messages `l`.
  abbrev Left : ℕ → List A → Office A S → Bool × Office A S → Type 0
  Left t l x r =
      ((r.0 ≡ true) × (r.1.messages a ≡ []) × (r.1.state ≡ handle_all l x.state))
      ⊎ ((r.0 ≡ false)
          × (length (r.1.messages a) + t ≡ length l)
          × (handle_all (r.1.messages a) r.1.state ≡ handle_all l x.state))

  front_messages :
      (m : A) (l : List A) (x : Office A S)
      → SendsElsewhere
      → (handle_front execute a m (set_messages a l x)).messages a ≡ l
  front_messages m l x h =
      deliver_all-messages a (execute a m x.state).1
        (record (set_messages a l x) { state = (execute a m x.state).0 }) (h m x.state)
      ∙ rw (nat_eq_refl a) refl

  serve-Left :
      (t : ℕ) (l : List A) (x : Office A S)
      → SendsElsewhere
      → x.messages a ≡ l
      → Left t l x (serve execute t a x)
  serve-Left zero l x h e = inr (refl, rw e (omega arith), rw e refl)
  serve-Left (suc t) [] x h e = rw (serve_none execute t a x e) (inl (refl, e, refl))
  serve-Left (suc t) (m ∷ l) x h e =
      let y = handle_front execute a m (set_messages a l x) in
      let same : y.state ≡ (execute a m x.state).0 =
        deliver_all-state (execute a m x.state).1
          (record (set_messages a l x) { state = (execute a m x.state).0 }) in
      rw (serve_some execute t a m l x e) (elim (serve-Left t l y h (front_messages m l x h)) [
        | inl (b, n, s) ↦ inl (b, n, s ∙ ap (handle_all l) same)
        | inr (b, n, s) ↦ inr (b, omega arith, s ∙ ap (handle_all l) same)
      ])

  is_awaiting_run :
      (t : ℕ) (sys : System A S)
      → ((run execute t a sys).0 ≡ result_of execute (serve execute t a (office sys)).0)
        × (office (run execute t a sys).1 ≡ (serve execute t a (office sys)).1)
  is_awaiting_run t sys =
      (ap (λ r. r.0) (run-serve execute t a sys), ap (λ r. r.1) (run-serve execute t a sys))

  launch_awaiting :
      (fuel t : ℕ) (sys : System A S)
      → (run execute t a sys).0 ≡ awaiting
      → launch execute (suc fuel) t a sys ≡ some (run execute t a sys).1
  unfolding launch
  launch_awaiting fuel t sys e = rw (launch, e) refl

  launch_resume :
      (fuel t : ℕ) (sys : System A S)
      → (run execute t a sys).0 ≡ resume
      → launch execute (suc fuel) t a sys ≡ launch execute fuel t a (run execute t a sys).1
  unfolding launch
  launch_resume fuel t sys e = rw (launch, e) refl

  -- What holds of the system with which `launch` ends.
  pub record IsFinished (sys : System A S) (fuel t : ℕ) : Type 0 where
    pub end : System A S
    pub ends : launch execute fuel t a sys ≡ some end
    pub empty : contents (end.mailboxes a) ≡ []
    pub state : end.state ≡ handle_all (contents (sys.mailboxes a)) sys.state

  -- If the handlers of an actor send it no messages, then `launch` ends after no more runs than the
  -- actor has messages, and one, whatever the throughput, if that is not zero; the mailbox is empty,
  -- and the state is what the handlers make of it from the messages in their order.
  pub launch_terminates :
      (fuel t : ℕ) (sys : System A S)
      → SendsElsewhere
      → length (contents (sys.mailboxes a)) < fuel
      → 0 < t
      → IsFinished sys fuel t
  launch_terminates zero t sys h k p = absurd (omega arith)
  launch_terminates (suc fuel) t sys h k p =
      let (result, same) = is_awaiting_run t sys in
      let next = (run execute t a sys).1 in
      elim (serve-Left t (contents (sys.mailboxes a)) (office sys) h refl) [
        | inl (b, n, s) ↦ record {
          end = next;
          ends = launch_awaiting fuel t sys (result ∙ ap (result_of execute) b);
          empty = ap (λ x. x.messages a) same ∙ n;
          state = ap (λ x. x.state) same ∙ s;
        }
        | inr (b, n, s) ↦
            let shorter : length (contents (next.mailboxes a)) + t
                ≡ length (contents (sys.mailboxes a)) =
              ap (λ x. length (x.messages a) + t) same ∙ n in
            let r = launch_terminates fuel t next h (omega arith) p in
            record {
              end = r.end;
              ends = launch_resume fuel t sys (result ∙ ap (result_of execute) b) ∙ r.ends;
              empty = r.empty;
              state = r.state ∙ ap (λ x. handle_all (x.messages a) x.state) same ∙ s;
            }
      ]
