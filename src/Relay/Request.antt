-- ===== src/Relay/Request.antt =====
-- A client's request on its way through the platform to the manager's router.
use stream_cloud.Prelude.{String, true, ◌≡◌, ap, some, [], ◌∷◌, arith, lookup}
use stream_cloud.Api.Action.{ok, ◌>>=◌}
use stream_cloud.Api.Libraries.{Libraries, JsonLaws}
use stream_cloud.Api.Rpc
use stream_cloud.Api.Rpc.{
  RequestMessage, string_at, serialize_request, request_object, is_request, at_key, param_string,
  parse_request,
}
use stream_cloud.Api.Rpc.Laws.{
  parse_request-request_object, after_params, find-request_object, at_key-some,
}
use stream_cloud.Api.Rpc.Relay.{
  is_request-request_object, is_empty-put, find-after_params, parse_request-after_params,
  is_request-after_params, param_string-put,
}
use stream_cloud.Api.Message.{Task, Message, Context, web_socket, transport_body, written, send}
use stream_cloud.Platform.Managers.{Managers, with_transport, request}
use stream_cloud.Platform.Managers.Relay.{request_registered}
use stream_cloud.Manager.Platform.{Platform, dispatcher, platform_request}
use stream_cloud.Manager.Router
use stream_cloud.Manager.Router.{Router, route}

module _ (L : Libraries) (laws : JsonLaws L.json) (metadata : L.Map) (id : String)
    (r : RequestMessage L.json) where
  -- The request `r` with a connection in its metadata.
  abbrev pub named : RequestMessage L.json
  named = record r { metadata = L.put metadata "transport" (L.of_string id) }

  abbrev pub passed_on : L.Map
  passed_on = after_params L.json r.params (request_object L.json named)

  names_transport : Rpc.contains L.json named.metadata "transport" ≡ true
  unfolding Rpc.contains
  names_transport = rw laws.find-put (ground arith)

  find-metadata : L.find passed_on "metadata" ≡ some (L.of_map named.metadata)
  find-metadata =
      rw
        (
          find-after_params L.json laws,
          find-request_object L.json laws,
          is_empty-put L.json laws metadata "transport" (L.of_string id),
        )
        (ground arith)

  at_metadata : (at_key L.json passed_on "metadata").0 ≡ L.of_map named.metadata
  at_metadata = ap (λ p. p.0) (at_key-some L.json laws passed_on "metadata" find-metadata)

  -- a message for the manager's router
  abbrev pub to_router : Message L.json
  to_router = record {
    contact = "router";
    command = "dispatcher";
    body = transport_body (web_socket id (L.to_string passed_on));
  }

  dispatcher-named :
      (ctx : Context) (self : Platform) (connection : String) (text : L.Text)
      → L.read text ≡ ok (request_object L.json named)
      → ctx.contacts "router" ≡ true
      → (dispatcher L ctx (web_socket connection text) self).sent ≡ to_router ∷ []
  unfolding dispatcher platform_request ◌>>=◌ send
  dispatcher-named ctx self connection text read known = ground (
    arith,
    is_request-request_object L.json laws named,
    parse_request-request_object L.json laws named,
    names_transport,
    at_metadata,
    param_string-put L.json laws metadata "transport" id,
  )

  routed_named :
      (ctx : Context) (self : Router) (text : L.Text)
      → L.read text ≡ ok passed_on
      → (Router.dispatcher L ctx (web_socket id text) self).sent
        ≡ (route L ctx self id named (L.split r.method) self).sent
  unfolding Router.dispatcher ◌>>=◌
  routed_named ctx self text read = ground (
    arith,
    is_request-after_params L.json laws named,
    parse_request-after_params L.json laws named,
  )

module _ (L : Libraries) (laws : JsonLaws L.json) (platform manager router : Context) where
  -- A request for a registered manager, taken by `managers::request` of the platform, goes as a text
  -- to that manager's connection; the manager's `platform` takes the text as a message of the
  -- client's connection and passes it to its router, and the router routes the client's request, of
  -- which only the metadata has changed: it names the client's connection. The two texts on the way,
  -- the platform's and the manager's, are read back as the maps that were written, and the JSON maps
  -- have their documented laws. The actors know the contacts that they send to.
  pub request_across :
      (task : Task L.json) (s : Managers L) (self : Platform) (self' : Router)
      (key id connection : String)
      → (let sent =
            request_object L.json
              (named L laws task.request.metadata task.transport_id task.request) in
          L.read (L.to_string sent) ≡ ok sent)
      → (let passed = passed_on L laws task.request.metadata task.transport_id task.request in
          L.read (L.to_string passed) ≡ ok passed)
      → string_at L.json task.request.metadata "manager-key" ≡ ok key
      → lookup key s.members ≡ some id
      → platform.contacts "ws" ≡ true
      → manager.contacts "router" ≡ true
      → (text1 text2 : L.Text) × ((request platform task s).sent ≡ written L.json id text1 ∷ [])
        × ((dispatcher L manager (web_socket connection text1) self).sent
            ≡ record {
              contact = "router";
              command = "dispatcher";
              body = transport_body (web_socket task.transport_id text2);
            }
              ∷ [])
        × ((Router.dispatcher L router (web_socket task.transport_id text2) self').sent
            ≡ (route L router self' task.transport_id
                (with_transport L task)
                (L.split task.request.method)
                self').sent)
  unfolding serialize_request
  request_across task s self self' key id connection read_sent read_passed given found known
        known' =
      let r = task.request in
      let sent = request_object L.json (named L laws r.metadata task.transport_id r) in
      (
        L.to_string sent,
        L.to_string (passed_on L laws r.metadata task.transport_id r),
        request_registered platform task s key id given found known,
        dispatcher-named L laws r.metadata task.transport_id r manager self connection _ read_sent
            known',
        routed_named L laws r.metadata task.transport_id r router self' _ read_passed,
      )
