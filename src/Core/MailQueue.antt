-- ===== src/Core/MailQueue.antt =====
-- modules/stream-core/src/messaging/blocking_mail_queue.{hpp,cpp}
pub mod Order
use stream_cloud.Prelude.{
  Bool, true, false, if◌then◌else◌, is_nil, Option, none, some, List, [], ◌∷◌, ◌++◌,
}

-- `blocking_mail_queue`: the messages are generic.
pub record MailQueue (A : Type 0) : Type 0 where
  pub mail_queue : List A
  pub local_queue : List A
  pub cache : List A

-- `list.front()` and the list after `pop_front()`, if it is not empty
abbrev pub pop_front {ℓ} : {A : Type ℓ} → List A → Option A × List A
pop_front [] = (none, [])
pop_front (x ∷ xs) = (some x, xs)

module _ {A : Type 0} where
  unfoldable pub put : A → MailQueue A → MailQueue A
  put m q = record q { mail_queue = q.mail_queue ++ (m ∷ []) }

  -- `local_queue.splice(local_queue.begin(), mail_queue)`
  unfoldable pub sync : MailQueue A → MailQueue A
  sync q = record q { mail_queue = []; local_queue = q.mail_queue ++ q.local_queue }

  -- `none` for a null pointer
  unfoldable pub get : MailQueue A → Option A × MailQueue A
  unfolding sync
  get q =
      let q1 = if is_nil q.local_queue then sync q else q in
      let (m, rest) = pop_front q1.local_queue in (m, record q1 { local_queue = rest })

  unfoldable pub push_to_cache : Option A → MailQueue A → Bool × MailQueue A
  push_to_cache none q = (false, q)
  push_to_cache (some m) q = (true, record q { cache = q.cache ++ (m ∷ []) })

  unfoldable pub pop_to_cache : MailQueue A → Option A × MailQueue A
  pop_to_cache q = let (m, rest) = pop_front q.cache in (m, record q { cache = rest })
