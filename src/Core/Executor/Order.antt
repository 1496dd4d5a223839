-- ===== src/Core/Executor/Order.antt =====
-- What a run does to the messages: each actor has one queue, and takes it from its front.
use stream_cloud.Prelude.{
  ℕ, zero, suc, Bool, true, false, if◌then◌else◌, ◌≡◌, refl, sym, ap, ◌∙◌, none, some, Bool-cases,
  inl, inr, List, [], ◌∷◌,
}
use stream_cloud.Core.MailQueue.{MailQueue, pop_front, get, pop_to_cache}
use stream_cloud.Core.MailQueue.Order.{contents, next_cases}
use stream_cloud.Core.Executor.Finish.{finish_lem}
use stream_cloud.Core.Executor.{
  ExecutableResult, resume, awaiting, System, at_mailbox, handle, handle_messages, finish, run,
}
use stream_cloud.Core.Executor.Office.{
  Office, nat_eq_refl, set_messages, deliver_all, office, office-at_mailbox, set_messages-same,
  set_messages-set_messages, office-send_all,
}

-- `run` on one queue: the messages at its front are handled, and the result is `awaiting` when it
-- runs empty before the throughput is used up.
module _ {A S : Type 0} (execute : ℕ → A → S → S × List (ℕ × A)) where
  abbrev pub handle_front : ℕ → A → Office A S → Office A S
  handle_front a m x =
      let (s, out) = execute a m x.state in deliver_all out (record x { state = s })

  abbrev pub serve : ℕ → ℕ → Office A S → Bool × Office A S
  serve zero a x = (false, x)
  serve (suc left) a x =
      let (m, rest) = pop_front (x.messages a) in
      elim m [ none ↦ (true, x) | some y ↦ serve left a (handle_front a y (set_messages a rest x)) ]

  abbrev pub both : Bool × System A S → Bool × Office A S
  both r = (r.0, office r.1)

  office-handle :
      (a : ℕ) (m : A) (sys : System A S)
      → office (handle execute a m sys) ≡ handle_front a m (office sys)
  unfolding handle
  office-handle a m sys =
      let (s, out) = execute a m sys.state in office-send_all out (record sys { state = s })

  handle_cached :
      (left a : ℕ) (y : A) (sys : System A S)
      → (pop_to_cache (sys.mailboxes a)).0 ≡ some y
      → handle_messages execute (suc left) a sys
        ≡ handle_messages execute left a
            (handle execute a y (at_mailbox a (pop_to_cache (sys.mailboxes a)).1 sys))
  unfolding handle_messages
  handle_cached left a y sys e = rw (handle_messages, e) refl

  -- the system after the cache was asked, and after `get`
  abbrev after_pop : ℕ → System A S → System A S
  after_pop a sys = at_mailbox a (pop_to_cache (sys.mailboxes a)).1 sys

  abbrev after_get : ℕ → System A S → System A S
  after_get a sys = at_mailbox a (get ((after_pop a sys).mailboxes a)).1 (after_pop a sys)

  handle_next :
      (left a : ℕ) (y : A) (sys : System A S)
      → (pop_to_cache (sys.mailboxes a)).0 ≡ none
      → (get ((after_pop a sys).mailboxes a)).0 ≡ some y
      → handle_messages execute (suc left) a sys
        ≡ handle_messages execute left a (handle execute a y (after_get a sys))
  unfolding handle_messages
  handle_next left a y sys e e' = rw (handle_messages, e, e') refl

  handle_nothing :
      (left a : ℕ) (sys : System A S)
      → (pop_to_cache (sys.mailboxes a)).0 ≡ none
      → (get ((after_pop a sys).mailboxes a)).0 ≡ none
      → handle_messages execute (suc left) a sys ≡ (true, after_get a sys)
  unfolding handle_messages
  handle_nothing left a sys e e' = rw (handle_messages, e, e') refl

  mailbox_at : (a : ℕ) (q : MailQueue A) (sys : System A S) → (at_mailbox a q sys).mailboxes a ≡ q
  unfolding at_mailbox
  mailbox_at a q sys = rw (nat_eq_refl a) refl

  office-after_get :
      (a : ℕ) (sys : System A S)
      → office (after_get a sys)
        ≡ set_messages a (contents (get (pop_to_cache (sys.mailboxes a)).1).1) (office sys)
  office-after_get a sys =
      office-at_mailbox a (get ((after_pop a sys).mailboxes a)).1 (after_pop a sys)
      ∙ ap (λ q. set_messages a (contents (get q).1) (office (after_pop a sys)))
          (mailbox_at a (pop_to_cache (sys.mailboxes a)).1 sys)
      ∙ ap (set_messages a (contents (get (pop_to_cache (sys.mailboxes a)).1).1))
          (office-at_mailbox a (pop_to_cache (sys.mailboxes a)).1 sys)
      ∙ set_messages-set_messages a _ _ (office sys)

  pub serve_some :
      (left a : ℕ) (y : A) (rest : List A) (x : Office A S)
      → x.messages a ≡ y ∷ rest
      → serve (suc left) a x ≡ serve left a (handle_front a y (set_messages a rest x))
  serve_some left a y rest x e =
      rw (serve, e) (ap (λ l. serve left a (handle_front a y (set_messages a (pop_front l).1 x))) e)

  pub serve_none :
      (left a : ℕ) (x : Office A S) → x.messages a ≡ [] → serve (suc left) a x ≡ (true, x)
  serve_none left a x e = rw (serve, e) refl

  -- The loop over a mailbox handles the messages at the front of its queue.
  pub handle_messages-serve :
      (left a : ℕ) (sys : System A S)
      → both (handle_messages execute left a sys) ≡ serve left a (office sys)
  unfolding handle_messages
  handle_messages-serve zero a sys = refl
  handle_messages-serve (suc left) a sys = elim (next_cases (sys.mailboxes a)) [
    | inl (y, e, c) ↦
        ap both (handle_cached left a y sys e)
        ∙ handle_messages-serve left a (handle execute a y (after_pop a sys))
        ∙ ap (serve left a) (
            office-handle a y (after_pop a sys)
            ∙ ap (handle_front a y) (office-at_mailbox a (pop_to_cache (sys.mailboxes a)).1 sys))
        ∙ sym (serve_some left a y _ (office sys) c)
    | inr (inl (e, y, e', c)) ↦
        ap both (
          handle_next left a y sys e
            (ap (λ q. (get q).0) (mailbox_at a (pop_to_cache (sys.mailboxes a)).1 sys) ∙ e'))
        ∙ handle_messages-serve left a (handle execute a y (after_get a sys))
        ∙ ap (serve left a)
            (office-handle a y (after_get a sys) ∙ ap (handle_front a y) (office-after_get a sys))
        ∙ sym (serve_some left a y _ (office sys) c)
    | inr (inr (e, e', c, c')) ↦
        ap both (
          handle_nothing left a sys e
            (ap (λ q. (get q).0) (mailbox_at a (pop_to_cache (sys.mailboxes a)).1 sys) ∙ e'))
        ∙ ap {A = Office A S} (λ x. (true, x))
            (office-after_get a sys
              ∙ ap (λ l. set_messages a l (office sys)) (c' ∙ sym c)
              ∙ set_messages-same a (office sys))
        ∙ sym (serve_none left a (office sys) c)
  ]

  abbrev pub result_of : Bool → ExecutableResult
  result_of ended = if ended then awaiting else resume

  run_ended :
      (t a : ℕ) (sys : System A S)
      → (handle_messages execute t a sys).0 ≡ true
      → run execute t a sys ≡ (awaiting, (handle_messages execute t a sys).1)
  unfolding run
  run_ended t a sys e = rw (run, e) refl

  run_more :
      (t a : ℕ) (sys : System A S)
      → (handle_messages execute t a sys).0 ≡ false
      → run execute t a sys ≡ (
        (finish ((handle_messages execute t a sys).1.mailboxes a)).0,
        at_mailbox a
            (finish ((handle_messages execute t a sys).1.mailboxes a)).1
            (handle_messages execute t a sys).1,
      )
  unfolding run
  run_more t a sys e = rw (run, e) refl

  office-finish :
      (a : ℕ) (sys : System A S)
      → office (at_mailbox a (finish (sys.mailboxes a)).1 sys) ≡ office sys
  office-finish a sys =
      office-at_mailbox a (finish (sys.mailboxes a)).1 sys
      ∙ ap (λ l. set_messages a l (office sys)) (finish_lem (sys.mailboxes a)).1
      ∙ set_messages-same a (office sys)

  run-loop :
      (t a : ℕ) (sys : System A S)
      → ◌≡◌ {A = ExecutableResult × Office A S}
          ((run execute t a sys).0, office (run execute t a sys).1)
          (
            result_of (handle_messages execute t a sys).0,
            office (handle_messages execute t a sys).1,
          )
  run-loop t a sys = elim (Bool-cases (handle_messages execute t a sys).0) [
    | inl e ↦ rw (run_ended t a sys e, e) refl
    | inr e ↦
        let sys1 = (handle_messages execute t a sys).1 in
        rw (run_more t a sys e, e)
          (λ i. ((finish_lem (sys1.mailboxes a)).0 i, office-finish a sys1 i))
  ]

  -- A run of an actor, which no sender interrupts, handles the messages at the front of its queue,
  -- each as it is handled on one queue, until the throughput is used up or it looks for a message and
  -- finds none; it leaves the others in their order, and says `awaiting` in the second case, and
  -- `resume` in the first, also if no message is left then.
  pub run-serve :
      (max_throughput a : ℕ) (sys : System A S)
      → ◌≡◌ {A = ExecutableResult × Office A S}
          ((run execute max_throughput a sys).0, office (run execute max_throughput a sys).1)
          (
            result_of (serve max_throughput a (office sys)).0,
            (serve max_throughput a (office sys)).1,
          )
  run-serve t a sys =
      run-loop t a sys ∙ ap (λ r. (result_of r.0, r.1)) (handle_messages-serve t a sys)
