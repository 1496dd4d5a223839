-- ===== src/Network/Http/Session.antt =====
-- modules/stream-providers/src/http/http_session.{hpp,cpp}: the queue of the responses of a session.
-- The network library is asked for one read or write, and calls `on_read` or `on_write` after it.
pub mod Bounds
use stream_cloud.Prelude.{
  ℕ, Bool, true, false, leb, nat_eq, if◌then◌else◌, Option, none, some, List, [], ◌∷◌, ◌++◌,
}
use stream_cloud.Api.Action.{Action, pure, lift, gets, modify, emit, undefined, ◌>>=◌, ◌>>◌}
use stream_cloud.Core.Executor.{length}
use stream_cloud.Network.Http.Target.{Bytes}

-- What a session asks for: a file, a write, a read, or the end of the connection.
pub data Effect (T : Type 0) : Type 0 where
  opening : Bytes → Effect T
  writing : T → Effect T
  reading closing : Effect T

-- The errors that the handlers tell apart.
pub data Failure : Type 0 where
  operation_aborted end_of_stream other : Failure

abbrev pub limit : ℕ
limit = 8

-- The state is `items_`.
abbrev pub Step : Type 0 → Type 0
Step T = Action (Effect T) (List T) Unit

module _ {T : Type 0} where
  unfoldable pub is_full : List T → Bool
  is_full items = leb limit (length items)

  -- `(*items_.front())()`
  unfoldable pub start_front : List T → Step T
  start_front [] = lift undefined
  start_front (m ∷ _) = emit (writing m)

  -- `queue::operator()`, which `send` calls
  unfoldable pub send : T → Step T
  unfolding start_front
  send msg = do
    modify (λ items. items ++ (msg ∷ []))
    items ← gets (λ items. items)
    if nat_eq (length items) 1 then start_front items else pure tt

  -- `items_.erase(items_.begin())`
  unfoldable pub erase_front : List T → Action (Effect T) (List T) Unit
  unfolding start_front
  erase_front [] = lift undefined
  erase_front (_ ∷ rest) = do
    modify (λ _. rest)
    elim rest [ [] ↦ pure tt | m ∷ more ↦ start_front (m ∷ more) ]

  -- `queue::on_write`
  unfoldable pub queue_on_write : Action (Effect T) (List T) Bool
  unfolding is_full erase_front
  queue_on_write = do
    was_full ← gets is_full
    items ← gets (λ items. items)
    erase_front items
    pure was_full

  -- `on_read`, where `handle` is what the listener does with the request
  unfoldable pub on_read : Option Failure → Step T → Step T
  unfolding is_full
  on_read (some operation_aborted) handle = pure tt
  on_read (some end_of_stream) handle = emit closing
  on_read (some other) handle = pure tt
  on_read none handle = do handle; full ← gets is_full; if full then pure tt else emit reading

  unfoldable pub on_write : Option Failure → Bool → Step T
  unfolding queue_on_write
  on_write (some _) close = pure tt
  on_write none true = emit closing
  on_write none false = do was_full ← queue_on_write; if was_full then emit reading else pure tt
