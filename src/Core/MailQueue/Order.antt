-- ===== src/Core/MailQueue/Order.antt =====
-- The mail queue is a first-in first-out queue.
use mathlib.Core.List.{append-nil, append_assoc}
use stream_cloud.Prelude.{
  ◌≡◌, refl, sym, ap, ◌∙◌, Option, none, some, ◌⊎◌, inl, inr, List, [], ◌∷◌, ◌++◌, arith,
}
use stream_cloud.Core.MailQueue.{MailQueue, pop_front, put, get, sync, pop_to_cache}

-- What stands in a pointer.
abbrev pub to_list {ℓ} : {A : Type ℓ} → Option A → List A
to_list none = []
to_list (some a) = a ∷ []

to_list-pop_front : {A : Type 0} (l : List A) → to_list (pop_front l).0 ++ (pop_front l).1 ≡ l
to_list-pop_front [] = refl
to_list-pop_front (x ∷ xs) = refl

-- One step of a mailbox: a sender puts a message in, or the owner asks for one.
pub data Operation (A : Type 0) : Type 0 where
  putting : A → Operation A
  getting : Operation A

module _ {A : Type 0} where
  -- The messages that `get` has not given out, the next one first.
  abbrev pub pending : MailQueue A → List A
  pending q = q.local_queue ++ q.mail_queue

  -- All messages of the mailbox, in the order in which an actor takes them.
  abbrev pub contents : MailQueue A → List A
  contents q = q.cache ++ pending q

  abbrev queue_of : List A → List A → List A → MailQueue A
  queue_of mail local cache = record { mail_queue = mail; local_queue = local; cache = cache }

  get_parts :
      (mail local cache : List A)
      → ((get (queue_of mail local cache)).0, pending (get (queue_of mail local cache)).1)
        ≡ pop_front (local ++ mail)
  unfolding get sync
  get_parts [] [] cache = refl
  get_parts (m ∷ mail) [] cache = rw (append-nil mail, append-nil mail) refl
  get_parts mail (m ∷ local) cache = refl

  pub get-pending : (q : MailQueue A) → ((get q).0, pending (get q).1) ≡ pop_front (pending q)
  get-pending q = get_parts q.mail_queue q.local_queue q.cache

  pub get-cache : (q : MailQueue A) → (get q).1.cache ≡ q.cache
  unfolding get sync
  get-cache q = ground arith

  pub put-pending : (m : A) (q : MailQueue A) → pending (put m q) ≡ pending q ++ (m ∷ [])
  unfolding put
  put-pending m q = sym (append_assoc q.local_queue q.mail_queue (m ∷ []))

  pub put-contents : (m : A) (q : MailQueue A) → contents (put m q) ≡ contents q ++ (m ∷ [])
  unfolding put
  put-contents m q =
      ap (λ l. q.cache ++ l) (put-pending m q) ∙ sym (append_assoc q.cache (pending q) (m ∷ []))

  next_parts :
      (mail local cache : List A)
      → let q : MailQueue A = queue_of mail local cache in
        ((y : A) × ((pop_to_cache q).0 ≡ some y) × (contents q ≡ y ∷ contents (pop_to_cache q).1))
        ⊎ (((pop_to_cache q).0 ≡ none)
            × (y : A) × ((get (pop_to_cache q).1).0 ≡ some y)
            × (contents q ≡ y ∷ contents (get (pop_to_cache q).1).1))
        ⊎ (((pop_to_cache q).0 ≡ none)
            × ((get (pop_to_cache q).1).0 ≡ none)
            × (contents q ≡ [])
            × (contents (get (pop_to_cache q).1).1 ≡ []))
  unfolding pop_to_cache get sync
  next_parts mail local (y ∷ cache) = inl (y, refl, refl)
  next_parts mail (y ∷ local) [] = inr (inl (refl, y, refl, refl))
  next_parts (y ∷ mail) [] [] =
      inr (inl (refl, y, refl, sym (ap (λ l. y ∷ l) (append-nil (mail ++ []) ∙ append-nil mail))))
  next_parts [] [] [] = inr (inr (refl, refl, refl, refl))

  -- What an actor finds next: a message of the cache, one that `get` gives, or nothing.
  pub next_cases :
      (q : MailQueue A)
      → ((y : A) × ((pop_to_cache q).0 ≡ some y) × (contents q ≡ y ∷ contents (pop_to_cache q).1))
        ⊎ (((pop_to_cache q).0 ≡ none)
            × (y : A) × ((get (pop_to_cache q).1).0 ≡ some y)
            × (contents q ≡ y ∷ contents (get (pop_to_cache q).1).1))
        ⊎ (((pop_to_cache q).0 ≡ none)
            × ((get (pop_to_cache q).1).0 ≡ none)
            × (contents q ≡ [])
            × (contents (get (pop_to_cache q).1).1 ≡ []))
  next_cases q = next_parts q.mail_queue q.local_queue q.cache

  -- The messages that the owner gets while the steps are taken, and the mailbox after them.
  unfoldable pub perform : List (Operation A) → MailQueue A → List A × MailQueue A
  unfolding put get
  perform [] q = ([], q)
  perform (putting m ∷ rest) q = perform rest (put m q)
  perform (getting ∷ rest) q =
      let (m, q1) = get q in let (ms, q2) = perform rest q1 in (to_list m ++ ms, q2)

  abbrev pub put_by : List (Operation A) → List A
  put_by [] = []
  put_by (putting m ∷ rest) = m ∷ put_by rest
  put_by (getting ∷ rest) = put_by rest

  -- In whatever order the senders' and the owner's steps are taken, the owner gets the messages in
  -- the order in which they were put, each once and none twice; the rest is still in the mailbox.
  pub perform_fifo :
      (steps : List (Operation A)) (q : MailQueue A)
      → (perform steps q).0 ++ pending (perform steps q).1 ≡ pending q ++ put_by steps
  unfolding perform
  perform_fifo [] q = sym (append-nil (pending q))
  perform_fifo (putting m ∷ rest) q =
      perform_fifo rest (put m q)
      ∙ ap (λ l. l ++ put_by rest) (put-pending m q)
      ∙ append_assoc (pending q) (m ∷ []) (put_by rest)
  perform_fifo (getting ∷ rest) q =
      append_assoc (to_list (get q).0) (perform rest (get q).1).0
        (pending (perform rest (get q).1).1)
      ∙ ap (λ l. to_list (get q).0 ++ l) (perform_fifo rest (get q).1)
      ∙ sym (append_assoc (to_list (get q).0) (pending (get q).1) (put_by rest))
      ∙ ap (λ p. to_list p.0 ++ p.1 ++ put_by rest) (get-pending q)
      ∙ ap (λ l. l ++ put_by rest) (to_list-pop_front (pending q))
