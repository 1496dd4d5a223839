-- ===== src/Manager/Router/Dispatch.antt =====
-- What the dispatcher does with a message of each kind.
use stream_cloud.Prelude.{true, String, ◌≡◌, [], ◌∷◌, arith}
use stream_cloud.Api.Action.{ok, ◌>>=◌}
use stream_cloud.Api.Libraries.{Libraries, JsonLaws}
use stream_cloud.Api.Rpc.{
  RequestMessage, ResponseMessage, NotifyMessage, request_object, response_object, notify_object,
}
use stream_cloud.Api.Rpc.Laws.{parse_request-request_object, kinds_of_objects}
use stream_cloud.Api.Message.{Context, Message, web_socket, transport_body, send}
use stream_cloud.Manager.Router.{Router, route, dispatcher}

-- the message for "devices"
abbrev pub to_devices : (L : Libraries) → String → String → L.Map → Message L.json
to_devices L id command obj = record {
  contact = "devices";
  command = command;
  body = transport_body (web_socket id (L.to_string obj));
}

module _ (L : Libraries) (laws : JsonLaws L.json) (ctx : Context) (self : Router) (id : String)
    (body : L.Text) (r : RequestMessage L.json) (a : ResponseMessage L.json)
    (n : NotifyMessage L.json) where
  dispatcher-request_object :
      L.read body ≡ ok (request_object L.json r)
      → (dispatcher L ctx (web_socket id body) self).sent
        ≡ (route L ctx self id r (L.split r.method) self).sent
  unfolding dispatcher ◌>>=◌
  dispatcher-request_object h =
      ground (
        arith,
        (kinds_of_objects L.json laws r a n).0.0,
        parse_request-request_object L.json laws r,
      )

  dispatcher-response_object :
      L.read body ≡ ok (response_object L.json a)
      → ctx.contacts "devices" ≡ true
      → (dispatcher L ctx (web_socket id body) self).sent
        ≡ to_devices L id "response" (response_object L.json a) ∷ []
  unfolding dispatcher ◌>>=◌ send
  dispatcher-response_object h known =
      let k = (kinds_of_objects L.json laws r a n).1 in ground (arith, k.0, k.1)

  dispatcher-notify_object :
      L.read body ≡ ok (notify_object L.json n)
      → ctx.contacts "devices" ≡ true
      → (dispatcher L ctx (web_socket id body) self).sent
        ≡ to_devices L id "notify" (notify_object L.json n) ∷ []
  unfolding dispatcher ◌>>=◌ send
  dispatcher-notify_object h known =
      let k = (kinds_of_objects L.json laws r a n).2 in ground (arith, k.0, k.1, k.2)

module _ (L : Libraries) (laws : JsonLaws L.json) (ctx : Context) (self : Router) (id : String)
    (r : RequestMessage L.json) (a : ResponseMessage L.json) (n : NotifyMessage L.json) where
  -- When the text of a web socket reads as a serialized request, the dispatcher sends what the route
  -- of that request sends; when it reads as a serialized response or notification and the actor knows
  -- "devices", the dispatcher sends the text of the same message there, as the command "response" or
  -- "notify". The JSON maps have their documented laws.
  pub dispatcher_lem :
      (body1 body2 body3 : L.Text)
      → L.read body1 ≡ ok (request_object L.json r)
      → L.read body2 ≡ ok (response_object L.json a)
      → L.read body3 ≡ ok (notify_object L.json n)
      → ctx.contacts "devices" ≡ true
      → ((dispatcher L ctx (web_socket id body1) self).sent
          ≡ (route L ctx self id r (L.split r.method) self).sent)
        × ((dispatcher L ctx (web_socket id body2) self).sent
            ≡ to_devices L id "response" (response_object L.json a) ∷ [])
        × ((dispatcher L ctx (web_socket id body3) self).sent
            ≡ to_devices L id "notify" (notify_object L.json n) ∷ [])
  dispatcher_lem body1 body2 body3 h1 h2 h3 known = (
    dispatcher-request_object L laws ctx self id body1 r a n h1,
    dispatcher-response_object L laws ctx self id body2 r a n h2 known,
    dispatcher-notify_object L laws ctx self id body3 r a n h3 known,
  )
