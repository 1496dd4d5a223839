-- ===== src/Relay/Reply.antt =====
-- A manager's response on its way through the platform to the client.
use stream_cloud.Prelude.{ℕ, some, ap, map, ◌∙◌, lookup, String, true, ◌≡◌, none, [], ◌∷◌, arith}
use stream_cloud.Api.Action.{ok, ◌>>=◌}
use stream_cloud.Api.Libraries.{Libraries, JsonLaws}
use stream_cloud.Api.Rpc.{
  ResponseMessage, serialize_response, response_object, parse_response, at_key,
}
use stream_cloud.Api.Rpc.Laws.{at_key-some, metadata_of_response}
use stream_cloud.Api.Rpc.Relay.{
  contains-response_object, is_request-put, is_response-put, param_string-put,
  parse_response_without,
}
use stream_cloud.Api.Message.{Context, web_socket, transport_body, written, send}
use stream_cloud.Network.Listener
use stream_cloud.Network.Listener.{Listener, piped, wrote}
use stream_cloud.Network.Listener.Delivery.{write_known, write_unknown}
use stream_cloud.Platform.Managers
use stream_cloud.Platform.Router
use stream_cloud.Manager.Platform.{Platform, add_transport, write}

module _ (L : Libraries) (laws : JsonLaws L.json) (id : String) (r : ResponseMessage L.json) where
  -- The metadata with the client's connection, the response with it, and what the client gets.
  abbrev pub metadata : L.Map
  metadata = L.put r.metadata "transport" (L.of_string id)

  abbrev pub named : L.Map
  named = L.put (response_object L.json r) "metadata" (L.of_map metadata)

  abbrev pub stripped : L.Map
  stripped = L.remove named "metadata"

  add_transport-response_object : add_transport L id (response_object L.json r) ≡ ok named
  unfolding add_transport
  add_transport-response_object =
      ground (arith, metadata_of_response L.json laws r, contains-response_object L.json laws r)

  write-response_object :
      (ctx : Context) (self : Platform) (text : L.Text)
      → L.read text ≡ ok (response_object L.json r)
      → ctx.contacts "client" ≡ true
      → (write L ctx (web_socket id text) self).sent
        ≡ record {
          contact = "client";
          command = "write";
          body = transport_body (web_socket id (L.to_string named));
        }
          ∷ []
  unfolding write ◌>>=◌ send
  write-response_object ctx self text read known = ground (arith, add_transport-response_object)

  dispatcher-named :
      (ctx : Context) (connection : String) (text : L.Text)
      → L.read text ≡ ok named
      → ctx.contacts "managers" ≡ true
      → (Router.dispatcher L ctx (web_socket connection text) tt).sent
        ≡ record {
          contact = "managers";
          command = "response";
          body = transport_body (web_socket connection (L.to_string named));
        }
          ∷ []
  unfolding Router.dispatcher ◌>>=◌ send
  dispatcher-named ctx connection text read known = ground (
    arith,
    is_request-put L.json laws r (L.of_map metadata),
    is_response-put L.json laws r (L.of_map metadata),
  )

  at_named : at_key L.json named "metadata" ≡ (L.of_map metadata, named)
  at_named = at_key-some L.json laws named "metadata" (
      ground
        (arith, laws.find-put (response_object L.json r) "metadata" "metadata" (L.of_map metadata)))

  response-named :
      (ctx : Context) (s : Managers.Managers L) (text : L.Text)
      → L.read text ≡ ok named
      → ctx.contacts "ws" ≡ true
      → (Managers.response ctx text s).sent ≡ written L.json id (L.to_string stripped) ∷ []
  unfolding Managers.response ◌>>=◌ send
  response-named ctx s text read known =
      ground (arith, at_named, param_string-put L.json laws r.metadata "transport" id)

module _ (L : Libraries) (laws : JsonLaws L.json) (platform manager : Context) where
  -- A response that a service of the manager writes to a client of the platform is for none of the
  -- manager's own sessions, so that its listener hands it to the manager's `platform`. That sends it,
  -- with the client's connection in its metadata, to the platform, whose router hands it to
  -- `managers::response`, which writes it to that connection without metadata; and the session of the
  -- client gets a text that parses as the response, without its error, since `parse` does not read
  -- that. The text of the response, and the text with the connection, are read back as the maps that
  -- were written, and the JSON maps have their documented laws. The pipe of the manager's listener is
  -- its `platform` alone, and the actors know the contacts that they send to.
  pub response_across :
      (self : Platform) (s : Managers.Managers L) (here there : Listener)
      (what id connection : String) (session : ℕ) (r : ResponseMessage L.json)
      → L.read (serialize_response L.json r) ≡ ok (response_object L.json r)
      → (let sent = named L laws id r in L.read (L.to_string sent) ≡ ok sent)
      → manager.contacts "client" ≡ true
      → platform.contacts "managers" ≡ true
      → platform.contacts "ws" ≡ true
      → lookup id here.storage_sessions ≡ none
      → here.pipe ≡ "platform" ∷ []
      → lookup id there.storage_sessions ≡ some session
      → (text1 text2 : L.Text) × (m : L.Map) × ((Listener.write L.json what
            (web_socket id (serialize_response L.json r))
            here).sent
          ≡ piped "platform" (web_socket id (serialize_response L.json r)) ∷ [])
        × ((write L manager (web_socket id (serialize_response L.json r)) self).sent
            ≡ record {
              contact = "client";
              command = "write";
              body = transport_body (web_socket id text1);
            }
              ∷ [])
        × ((Router.dispatcher L platform (web_socket connection text1) tt).sent
            ≡ record {
              contact = "managers";
              command = "response";
              body = transport_body (web_socket connection text2);
            }
              ∷ [])
        × ((Managers.response platform text2 s).sent ≡ written L.json id (L.to_string m) ∷ [])
        × ((Listener.write L.json what (web_socket id (L.to_string m)) there).sent
            ≡ wrote session (L.to_string m) ∷ [])
        × (parse_response L.json m ≡ ok (record r { error = none; metadata = L.empty_map }, m))
  unfolding serialize_response
  response_across self s here there what id connection session r read_response read_named k1 k2 k3
        away pipe home =
      let m1 = named L laws id r in
      (
        L.to_string m1,
        L.to_string m1,
        stripped L laws id r,
        write_unknown L.json what (web_socket id _) here away ∙ ap (map (λ p. piped p _)) pipe,
        write-response_object L laws id r manager self _ read_response k1,
        dispatcher-named L laws id r platform connection _ read_named k2,
        response-named L laws id r platform s _ read_named k3,
        write_known L.json what id _ there session home,
        parse_response_without L.json laws r _,
      )
