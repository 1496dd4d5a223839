-- ===== src/Network/Client.antt =====
-- modules/stream-client/src/ws/ws_client.cpp and ws_session.cpp, without the calls of the network
-- library: what it is asked for, and what the actor of the pipe is sent.
use stream_cloud.Prelude.{String, Bool, if◌then◌else◌, Option, none, some}
use stream_cloud.Api.Action.{Action, pure, lift, emit, modify, gets, ◌>>=◌, ◌>>◌}
use stream_cloud.Api.Libraries.{Json}
use stream_cloud.Api.Message.{Transport, web_socket, error, ErrorCode, ws}
use stream_cloud.Network.Listener.{body_of}

pub data Effect (J : Json) : Type 0 where
  wrote : J.Text → Effect J
  closed : Effect J
  -- `resolver_.async_resolve(host, port)`, `async_connect`, `async_handshake` and `async_read`
  resolving : String → String → Effect J
  connecting shaking reading : Effect J
  -- a message to the actor of the pipe
  piped : String → Transport J → Effect J

-- `ws_client::impl` and its session: an empty closing message is `none`.
pub record Client (J : Json) : Type 0 where
  pub closing_message : Option J.Text
  pub host : String
  pub port : String

module _ (J : Json) (id : String) where
  abbrev pub Step : Type 0
  Step = Action (Effect J) (Client J) Unit

  -- `ws_session::run`
  unfoldable pub run : String → String → Step
  run host port = do
    modify (λ self. record self { host = host; port = port })
    emit (resolving host port)

  unfoldable pub on_resolve : Bool → Step
  on_resolve failed = if failed then pure tt else emit connecting

  unfoldable pub on_connect : Option ErrorCode → Step
  on_connect (some code) = emit (piped "error" (error id ws code))
  on_connect none = emit shaking

  -- `buffer` is the text in the buffer.
  unfoldable pub on_handshake : Bool → J.Text → Step
  on_handshake failed buffer =
      if failed then pure tt else (do emit (piped "handshake" (web_socket id buffer)); emit reading)

  unfoldable pub on_read : Option ErrorCode → J.Text → Step
  on_read (some code) buffer = emit (piped "error" (error id ws code))
  on_read none buffer = do emit (piped "dispatcher" (web_socket id buffer)); emit reading

  -- the handlers of `ws_client`
  unfoldable pub write : Transport J → Step
  write transport = do body ← lift (body_of J transport); emit (wrote body)

  unfoldable pub reconnect : Step
  unfolding run
  reconnect = do host ← gets (λ self. self.host); port ← gets (λ self. self.port); run host port

  unfoldable pub close : Step
  close = emit closed

  -- the text is not empty
  unfoldable pub set_closing_message : J.Text → Step
  set_closing_message text = modify (λ self. record self { closing_message = some text })

  unfoldable pub startup : String → String → Step
  unfolding run
  startup address port = run address port

  unfoldable pub shutdown : Step
  shutdown = do
    text ← gets (λ self. self.closing_message)
    elim text [ none ↦ emit closed | some message ↦ emit (wrote message) ]
