-- ===== src/Network/Session.antt =====
-- modules/stream-providers/src/ws/ws_session.cpp and modules/stream-client/src/ws/ws_session.cpp: the
-- queue of the texts that are to be written. The network library is asked to write one text, and
-- calls `on_write` when it has done so, or has failed.
pub mod Order
use stream_cloud.Prelude.{
  Bool, true, false, not, is_nil, if◌then◌else◌, Option, none, some, List, [], ◌∷◌, ◌++◌,
}
use stream_cloud.Core.MailQueue.{pop_front}

module _ {T : Type 0} where
  -- `_que.front()`
  abbrev pub front : List T → Option T
  front que = (pop_front que).0

  -- The task that `write` posts: the text whose write is started, and `_que` after it.
  unfoldable pub write : T → List T → Option T × List T
  write pstr que =
      let write_in_progress = not (is_nil que) in
      let que' = que ++ (pstr ∷ []) in (if not write_in_progress then front que' else none, que')

  -- `on_write`: so too
  unfoldable pub on_write : Bool → List T → Option T × List T
  on_write failed que =
      if failed then (none, que) else (let que' = (pop_front que).1 in (front que', que'))
