-- ===== src/Network/Listener.antt =====
-- modules/stream-providers/src/ws/ws_listener.cpp, and the handlers of ws_server.cpp, which call it.
pub mod Delivery
use stream_cloud.Prelude.{
  String, ℕ, Bool, true, false, ◌≡◌, refl, if◌then◌else◌, none, some, List, [], ◌∷◌, ◌++◌, map,
  arith, Assoc, has_key, lookup, emplace, erase,
}
use stream_cloud.Api.Action.{
  Action, Result, ok, pure, lift, gets, modify, emit, undefined, or_throw, ◌>>=◌, ◌>>◌,
}
use stream_cloud.Api.Libraries.{Json}
use stream_cloud.Api.Message.{Transport, web_socket, transport_id}

-- What the listener does to sessions, which are numbers, and sends to the actors of its pipe.
pub data Effect (J : Json) : Type 0 where
  wrote : ℕ → J.Text → Effect J
  closed ran : ℕ → Effect J
  -- `do_accept()`
  accepting : Effect J
  piped : String → Transport J → Effect J

-- `ws_listener`
pub record Listener : Type 0 where
  pub storage_sessions : Assoc ℕ
  -- `pipe_`, the names of the actors
  pub pipe : List String

-- The text of a web socket; an object of another class is read as one.
abbrev pub body_of : (J : Json) → Transport J → Result J.Text
body_of J (web_socket id body) = ok body
body_of J _ = undefined

-- `what` is the text of the exception of `at`.
module _ (J : Json) (what : String) where
  abbrev pub Step : Type 0
  Step = Action (Effect J) Listener Unit

  -- `storage_sessions.at(id)`
  abbrev pub session_at : String → Action (Effect J) Listener ℕ
  session_at id = do
    found ← gets (λ self. lookup id self.storage_sessions)
    lift (or_throw what found)

  -- `on_accept`, for the id that the clock gives and the session on the new socket
  unfoldable pub on_accept : Bool → String → ℕ → Step
  unfolding emplace lookup
  on_accept failed id session = if failed then emit accepting else (do
    modify (λ self. record self { storage_sessions = emplace id session self.storage_sessions })
    stored ← session_at id
    emit (ran stored)
    emit accepting)

  -- `for (auto const &pipe : pipe_) pipe->send(… "write", transport)`
  unfoldable pub to_pipes : Transport J → List String → Step
  to_pipes ptr [] = pure tt
  to_pipes ptr (pipe ∷ rest) = let next = to_pipes ptr rest in (do emit (piped pipe ptr); next)

  unfoldable pub write : Transport J → Step
  unfolding to_pipes lookup
  write ptr = do
    known ← gets (λ self. has_key (transport_id J ptr) self.storage_sessions)
    if known
        then (do
          session ← session_at (transport_id J ptr)
          body ← lift (body_of J ptr)
          emit (wrote session body))
        else (do pipes ← gets (λ self. self.pipe); to_pipes ptr pipes)

  unfoldable pub remove : Transport J → Step
  unfolding erase
  remove ptr =
      modify (λ self. record self {
        storage_sessions = erase (transport_id J ptr) self.storage_sessions;
      })

  unfoldable pub close : Transport J → Step
  unfolding remove lookup
  close ptr = do
    known ← gets (λ self. has_key (transport_id J ptr) self.storage_sessions)
    if known
        then (do session ← session_at (transport_id J ptr); emit (closed session); remove ptr)
        else pure tt

  -- `for (const auto &session : storage_sessions) session.second->close();`
  unfoldable pub close_each : Assoc ℕ → Step
  close_each [] = pure tt
  close_each ((id, session) ∷ rest) = let next = close_each rest in (do emit (closed session); next)

  unfoldable pub close_all : Step
  unfolding close_each
  close_all = do
    sessions ← gets (λ self. self.storage_sessions)
    close_each sessions
    modify (λ self. record self { storage_sessions = [] })
