-- ===== src/Core/Executor/Finish.antt =====
-- The end of `run`: the mailbox is emptied into its cache.
use mathlib.Core.List.{append-nil, append_assoc}
use stream_cloud.Prelude.{
  ℕ, zero, suc, ◌<◌, ◌≡◌, refl, sym, ap, ◌∙◌, none, some, List, [], ◌∷◌, ◌++◌, arith,
}
use stream_cloud.Core.MailQueue.{MailQueue, pop_front, get, push_to_cache}
use stream_cloud.Core.MailQueue.Order.{pending, contents, get-pending, get-cache}
use stream_cloud.Core.Executor.{resume, length, cache_all, finish}

module _ {A : Type 0} where
  get_of :
      (q : MailQueue A) (l : List A) → pending q ≡ l → ((get q).0, pending (get q).1) ≡ pop_front l
  get_of q l e = get-pending q ∙ ap pop_front e

  cache_all_done :
      (fuel : ℕ) (q : MailQueue A) → (get q).0 ≡ none → cache_all (suc fuel) q ≡ (get q).1
  unfolding cache_all
  cache_all_done fuel q e = rw (cache_all, e) refl

  cache_all_more :
      (fuel : ℕ) (q : MailQueue A) (x : A)
      → (get q).0 ≡ some x
      → cache_all (suc fuel) q ≡ cache_all fuel (push_to_cache (some x) (get q).1).1
  unfolding cache_all
  cache_all_more fuel q x e = rw (cache_all, e) refl

  -- With more fuel than messages, the loop puts them all into the cache, in their order.
  pub cache_all_lem :
      (fuel : ℕ) (q : MailQueue A) (l : List A)
      → pending q ≡ l
      → length l < fuel
      → (pending (cache_all fuel q) ≡ []) × ((cache_all fuel q).cache ≡ q.cache ++ l)
  unfolding push_to_cache
  cache_all_lem zero q l e h = absurd (omega arith)
  cache_all_lem (suc fuel) q [] e h =
      rw (cache_all_done fuel q (ap (λ p. p.0) (get_of q [] e)))
        (ap (λ p. p.1) (get_of q [] e), get-cache q ∙ sym (append-nil q.cache))
  cache_all_lem (suc fuel) q (x ∷ l) e h =
      let r =
        cache_all_lem fuel (push_to_cache (some x) (get q).1).1 l
          (ap (λ p. p.1) (get_of q (x ∷ l) e)) (omega arith) in
      rw (cache_all_more fuel q x (ap (λ p. p.0) (get_of q (x ∷ l) e)))
        (r.0, r.1 ∙ ap (λ c. c ++ (x ∷ []) ++ l) (get-cache q) ∙ append_assoc q.cache (x ∷ []) l)

  finish-none :
      (q : MailQueue A)
      → (get (cache_all (suc (length (pending q))) q)).0 ≡ none
      → finish q ≡ (resume, (get (cache_all (suc (length (pending q))) q)).1)
  unfolding finish push_to_cache
  finish-none q e = rw (finish, e) refl

  -- When no message arrives in between, `has_next_message` finds none after the loop, the result
  -- is `resume`, and every message is still in the mailbox, in its place.
  pub finish_lem :
      (q : MailQueue A) → ((finish q).0 ≡ resume) × (contents (finish q).1 ≡ contents q)
  finish_lem q =
      let q1 : MailQueue A = cache_all (suc (length (pending q))) q in
      let r = cache_all_lem (suc (length (pending q))) q (pending q) refl (omega arith) in
      rw (finish-none q (ap (λ p. p.0) (get_of q1 [] r.0))) (
        refl,
        ap (λ c. c ++ pending (get q1).1) (get-cache q1)
            ∙ ap (λ l. q1.cache ++ l) (ap (λ p. p.1) (get_of q1 [] r.0))
            ∙ append-nil q1.cache
            ∙ r.1,
      )
