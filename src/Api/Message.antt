-- ===== src/Api/Message.antt =====
-- modules/stream-api/src/{transport_base,websocket,error,task}.*, the parts of a
-- behavior::context that the handlers use, and the answers that they send.
use stream_cloud.Prelude.{String, Bool, none, some, Assoc, lookup, assign, if◌then◌else◌}
use stream_cloud.Api.Action.{Action, pure, throw, emit, try_catch}
use stream_cloud.Api.Libraries.{Json}
use stream_cloud.Api.Rpc.{
  RequestMessage, ResponseMessage, ResponseError, unknown_error_code, serialize_response,
}

-- The error codes that the handlers tell apart.
pub data ErrorCode : Type 0 where
  connection_reset not_connected connection_refused eof closed other : ErrorCode

pub data TransportType : Type 0 where
  http ws : TransportType

-- `api::transport`: a web socket's text, an error of a connection, or an HTTP exchange, of which
-- the services read the type alone.
pub data Transport (J : Json) : Type 0 where
  web_socket : String → J.Text → Transport J
  error : String → TransportType → ErrorCode → Transport J
  http_context : String → Transport J

-- `transport->id()`
abbrev pub transport_id : (J : Json) → Transport J → String
transport_id J (web_socket id body) = id
transport_id J (error id type code) = id
transport_id J (http_context id) = id

pub record Task (J : Json) : Type 0 where
  pub request : RequestMessage J
  pub transport_id : String
  pub storage : Assoc String

pub data Payload (J : Json) : Type 0 where
  task_body : Task J → Payload J
  transport_body : Transport J → Payload J
  text_body : String → Payload J
  document_body : J.Text → Payload J

-- A message, and the name of the contact that it is sent to.
pub record Message (J : Json) : Type 0 where
  pub contact : String
  pub command : String
  pub body : Payload J

-- What a handler knows of its actor: the names of its contacts, the commands that each contact
-- has a handler for, and the text of the exception of `std::unordered_map::at`.
pub record Context : Type 0 where
  pub contacts : String → Bool
  pub message_types : String → String → Bool
  pub out_of_range : String

-- `storage[key]`, which puts an empty text at a missing key
unfoldable pub storage_at : String → Assoc String → String × Assoc String
storage_at k m = elim (lookup k m) [ none ↦ ("", assign k "" m) | some v ↦ (v, m) ]

-- A text for the connection `id`.
abbrev pub written : (J : Json) → String → J.Text → Message J
written J id text = record {
  contact = "ws";
  command = "write";
  body = transport_body (web_socket id text);
}

module _ {J : Json} {S : Type 0} where
  -- `ctx->addresses(name)->send(make_message(ctx->self(), command, body))`
  unfoldable pub send : Context → String → String → Payload J → Action (Message J) S Unit
  unfolding emit throw
  send ctx name command body =
      if ctx.contacts name
      then emit (record { contact = name; command = command; body = body })
      else throw ctx.out_of_range

module _ {J : Json} where
  -- `response_message.id = task.request.id; response_message.result = value`
  abbrev pub success : Task J → J.Value → ResponseMessage J
  success task value = record {
    id = task.request.id;
    result = value;
    metadata = J.empty_map;
    error = none;
  }

  abbrev pub response_error : String → ResponseError J
  response_error what = record { code = unknown_error_code; message = what; data_value = J.null }

  -- `response_message.error = response_error(unknown_error_code, what)`
  abbrev pub failure : Task J → String → ResponseMessage J
  failure task what = record {
    id = task.request.id;
    result = J.null;
    metadata = J.empty_map;
    error = some (response_error what);
  }

  -- The message of a response to the connection that the task came from.
  abbrev pub reply_message : Task J → ResponseMessage J → Message J
  reply_message task response = record {
    contact = "ws";
    command = "write";
    body = transport_body (web_socket task.transport_id (serialize_response J response));
  }

module _ {J : Json} {S : Type 0} where
  -- `ws_response->body = serialize(response_message); ctx->addresses("ws")->send(… "write" …)`
  unfoldable pub reply : Context → Task J → ResponseMessage J → Action (Message J) S Unit
  unfolding send
  reply ctx task response =
      send ctx "ws" "write"
        (transport_body (web_socket task.transport_id (serialize_response J response)))

  -- A `try` block whose `catch` sets the error of `response`, as that stands when the block throws.
  unfoldable pub guarded_after :
      ResponseMessage J
      → Action (Message J) S (ResponseMessage J)
      → Action (Message J) S (ResponseMessage J)
  unfolding try_catch
  guarded_after response block =
      try_catch block (λ what. pure (record response { error = some (response_error what) }))

  unfoldable pub guarded :
      Task J → Action (Message J) S (ResponseMessage J) → Action (Message J) S (ResponseMessage J)
  unfolding try_catch
  guarded task block = try_catch block (λ what. pure (failure task what))
