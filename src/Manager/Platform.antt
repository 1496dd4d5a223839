-- ===== src/Manager/Platform.antt =====
-- modules/stream-manager/src/platform.cpp
use stream_cloud.Prelude.{String, Bool, true, not, ◌==◌, if◌then◌else◌}
use stream_cloud.Api.Action.{Action, Result, ok, pure, lift, undefined, ◌>>=◌}
use stream_cloud.Api.Libraries.{Libraries}
use stream_cloud.Api.Rpc
use stream_cloud.Api.Rpc.{
  RequestMessage, is_request, is_response, parse_request, at_key, get_map, param_string,
  serialize_request, metadata_of,
}
use stream_cloud.Api.Message.{
  Message, Context, ErrorCode, connection_refused, eof, ws, http, Transport, web_socket, error,
  http_context, text_body, document_body, transport_body, transport_id, send,
}
use stream_cloud.Manager.Router.{is_gone}

-- `platform::impl`
pub record Platform : Type 0 where
  pub profile_key : String
  pub manager_key : String

-- The codes after which the client connects again.
abbrev pub is_lost : ErrorCode → Bool
is_lost connection_refused = true
is_lost eof = true
is_lost code = is_gone code

module _ (L : Libraries) where
  -- a request of the manager to the platform, with the keys of the manager and of its profile
  abbrev pub own_request : Platform → String → RequestMessage L.json
  own_request self method = record {
    id = L.of_string "0";
    method = method;
    params = L.of_map (L.put L.empty_map "key" (L.of_string self.manager_key));
    metadata = L.put L.empty_map "profile-key" (L.of_string self.profile_key);
  }

  -- the message with the connection in its metadata
  unfoldable pub add_transport : String → L.Map → Result L.Map
  unfolding metadata_of Rpc.contains
  add_transport id message = Rpc.◌>>=◌ (metadata_of L.json message) λ metadata.
      let metadata' =
        if not (Rpc.contains L.json message "transport")
        then L.put metadata "transport" (L.of_string id)
        else metadata in
      ok (L.put message "metadata" (L.of_map metadata'))

module _ (L : Libraries) (ctx : Context) where
  -- a request that names a connection goes to the router, as if it came from that connection
  unfoldable pub platform_request : L.Map → Action (Message L.json) Platform Unit
  unfolding parse_request Rpc.contains
  platform_request message = do
    (request, message') ← lift (parse_request L.json message)
    if Rpc.contains L.json request.metadata "transport"
        then (do
          id ← lift (param_string L.json (at_key L.json message' "metadata").0 "transport")
          send ctx "router" "dispatcher" (transport_body (web_socket id (L.to_string message'))))
        else if request.method == "disconnect"
        then send ctx "client" "close" (text_body "")
        else pure tt

  unfoldable pub dispatcher : Transport L.json → Action (Message L.json) Platform Unit
  unfolding platform_request is_request is_response serialize_request Rpc.contains
  dispatcher (web_socket id body) self =
      (do
        message ← lift (L.read body)
        if is_request L.json message
            then platform_request message
            else if Rpc.contains L.json message "error"
            then send ctx "client" "close" (text_body "")
            else if is_response L.json message
            then send ctx "client" "set_closing_message" (
                document_body (serialize_request L.json (own_request L self "managers.disconnect")))
            else pure tt)
        self
  -- an object of another class is read as a web socket
  dispatcher (error id ws code) self = lift undefined self
  dispatcher (error id http code) self = pure tt self
  dispatcher (http_context id) self = pure tt self

  unfoldable pub handshake : Transport L.json → Action (Message L.json) Platform Unit
  unfolding serialize_request
  handshake transport self =
      send ctx "client" "write"
        (transport_body (
          web_socket (transport_id L.json transport)
            (serialize_request L.json (own_request L self "managers.connect"))))
        self

  unfoldable pub on_error : Transport L.json → Action (Message L.json) Platform Unit
  on_error (error id ws code) =
      if is_lost code
      then send ctx "client" "reconnect" (text_body "")
      else send ctx "client" "close" (transport_body (web_socket id L.no_text))
  on_error (error id http code) = pure tt
  -- an object of another class is read as an error
  on_error (web_socket id body) = lift undefined
  on_error (http_context id) = pure tt

  unfoldable pub write : Transport L.json → Action (Message L.json) Platform Unit
  unfolding add_transport
  write (web_socket id body) = do
    message ← lift (L.read body)
    message' ← lift (add_transport L id message)
    send ctx "client" "write" (transport_body (web_socket id (L.to_string message')))
  write (error id ws code) = lift undefined
  write (error id http code) = pure tt
  write (http_context id) = pure tt
