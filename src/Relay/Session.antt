-- ===== src/Relay/Session.antt =====
-- How a manager connects to the platform, and how it leaves.
use stream_cloud.Prelude.{
  Assoc, String, ℕ, suc, true, false, ◌≡◌, none, [], ◌∷◌, arith, lookup, or_else,
}
use stream_cloud.Api.Action.{ok, ◌>>=◌}
use stream_cloud.Api.Libraries.{Libraries, JsonLaws}
use stream_cloud.Api.Rpc
use stream_cloud.Api.Rpc.{
  RequestMessage, ResponseMessage, string_at, param_string, serialize_request, request_object,
  response_object, is_request, is_response,
}
use stream_cloud.Api.Rpc.Laws.{parse_request-request_object}
use stream_cloud.Api.Rpc.Relay.{
  is_request-request_object, is_response-response_object, contains_error, param_string-put,
}
use stream_cloud.Api.Message.{
  Task, Message, Context, Transport, web_socket, transport_id, transport_body, task_body,
  document_body, written, send, storage_at, reply_message, failure,
}
use stream_cloud.Platform.Router
use stream_cloud.Platform.Router.{task_of, route}
use stream_cloud.Platform.Managers
use stream_cloud.Platform.Managers.{Managers, count_managers, disconnect_message, with_transport}
use stream_cloud.Platform.Managers.Relay.{request-connect_manager, request-disconnect_manager}
use stream_cloud.Manager.Platform.{Platform, dispatcher, handshake, own_request}

-- A request that goes to `profile::auth` before its service gets it.
abbrev pub to_profile :
    (L : Libraries) → Context → String → RequestMessage L.json → String → String → Message L.json
to_profile L ctx id request service_name method_name = record {
  contact = "profile";
  command = "auth";
  body = task_body (task_of L ctx id request service_name method_name);
}

module _ (L : Libraries) (laws : JsonLaws L.json) (self : Platform) where
  own_keys :
      (method : String)
      → (Rpc.contains L.json (own_request L self method).metadata "manager-key" ≡ false)
        × (Rpc.contains L.json (own_request L self method).metadata "profile-key" ≡ true)
  unfolding Rpc.contains
  own_keys method = (
    simp (laws.find-put, laws.find-empty_map) (ground arith),
    simp (laws.find-put) (ground arith),
  )

  own_key :
      (method : String)
      → param_string L.json (own_request L self method).params "key" ≡ ok self.manager_key
  own_key method = param_string-put L.json laws L.empty_map "key" self.manager_key

  routed_own :
      (ctx : Context) (connection method service_name method_name : String) (text : L.Text)
      → L.read text ≡ ok (request_object L.json (own_request L self method))
      → L.split method ≡ service_name ∷ method_name ∷ []
      → ctx.contacts "profile" ≡ true
      → (Router.dispatcher L ctx (web_socket connection text) tt).sent
        ≡ to_profile L ctx connection (own_request L self method) service_name method_name ∷ []
  unfolding Router.dispatcher ◌>>=◌ route send
  routed_own ctx connection method service_name method_name text read parts known =
      let keys = own_keys method in
      ground (
        arith,
        keys.0,
        keys.1,
        is_request-request_object L.json laws (own_request L self method),
        parse_request-request_object L.json laws (own_request L self method),
      )

module _ (L : Libraries) (laws : JsonLaws L.json) (platform manager : Context) (self : Platform)
    (s : Managers L) where
  handshake-sent :
      (transport : Transport L.json)
      → manager.contacts "client" ≡ true
      → (handshake L manager transport self).sent
        ≡ record {
          contact = "client";
          command = "write";
          body = transport_body (
              web_socket
                (transport_id L.json transport)
                (serialize_request L.json (own_request L self "managers.connect")));
        }
          ∷ []
  unfolding handshake send
  handshake-sent transport known = ground arith

  dispatcher-response_object :
      (connection : String) (r : ResponseMessage L.json) (text : L.Text)
      → L.read text ≡ ok (response_object L.json r)
      → r.error ≡ none
      → manager.contacts "client" ≡ true
      → (dispatcher L manager (web_socket connection text) self).sent
        ≡ record {
          contact = "client";
          command = "set_closing_message";
          body =
              document_body (serialize_request L.json (own_request L self "managers.disconnect"));
        }
          ∷ []
  unfolding dispatcher ◌>>=◌ send
  dispatcher-response_object connection r text read fine known =
      let kinds = is_response-response_object L.json laws r in
      ground (arith, kinds.0, kinds.1, contains_error L.json laws r fine)

  -- The text that the manager's `platform` writes when its connection is open is for the platform's
  -- router a request with the key of the manager's profile, and goes to `profile::auth`; and once
  -- `managers::connect` has got the request, with whatever storage, and has found the manager in the
  -- database, a client's request for the manager's key goes to the connection that the text came
  -- from, or to the one that was registered for the key before. The text that the manager
  -- writes is read back as the map that was written, and the JSON maps have their documented laws.
  -- The method's name splits at its dot, and the actors know the contacts that they send to.
  pub handshake_across :
      (transport : Transport L.json) (connection : String) (storage : Assoc String)
      (task : Task L.json) (n : ℕ)
      → (let own = request_object L.json (own_request L self "managers.connect") in
          L.read (L.to_string own) ≡ ok own)
      → L.split "managers.connect" ≡ "managers" ∷ "connect" ∷ []
      → manager.contacts "client" ≡ true
      → platform.contacts "profile" ≡ true
      → platform.contacts "ws" ≡ true
      → L.number s.db count_managers
          (self.manager_key ∷ (storage_at "profile.login" storage).0 ∷ [])
        ≡ ok (suc n)
      → string_at L.json task.request.metadata "manager-key" ≡ ok self.manager_key
      → (text : L.Text) × ((handshake L manager transport self).sent
          ≡ record {
            contact = "client";
            command = "write";
            body = transport_body (web_socket (transport_id L.json transport) text);
          }
            ∷ [])
        × ((Router.dispatcher L platform (web_socket connection text) tt).sent
            ≡ to_profile L platform connection
                (own_request L self "managers.connect")
                "managers"
                "connect"
              ∷ [])
        × ((Managers.request platform task
              (Managers.connect platform
                (record {
                  request = own_request L self "managers.connect";
                  transport_id = connection;
                  storage = storage;
                })
                s).state).sent
            ≡ written L.json
                (or_else connection (lookup self.manager_key s.members))
                (serialize_request L.json (with_transport L task))
              ∷ [])
  unfolding serialize_request
  handshake_across transport connection storage task n read_own parts k1 k2 k3 found asked = (
    serialize_request L.json (own_request L self "managers.connect"),
    handshake-sent transport k1,
    routed_own L laws self platform connection "managers.connect" "managers" "connect" _ read_own
        parts k2,
    request-connect_manager platform _ task s self.manager_key n
        (own_key L laws self "managers.connect") found asked k3,
  )

  -- When the platform answers without an error, the manager's `platform` gives its client a closing
  -- message; for the platform's router that is a request with the key of the manager's profile, which
  -- goes to `profile::auth`; and once `managers::disconnect` has got the request, with whatever
  -- storage, a client's request for the manager's key is answered with an error. The
  -- texts of the answer and of the closing message are read back as the maps that were written, and
  -- the JSON maps have their documented laws. The method's name splits at its dot, and the actors know
  -- the contacts that they send to.
  pub closing_across :
      (r : ResponseMessage L.json) (connection connection' : String) (storage : Assoc String)
      (task : Task L.json)
      → L.read (L.to_string (response_object L.json r)) ≡ ok (response_object L.json r)
      → (let own = request_object L.json (own_request L self "managers.disconnect") in
          L.read (L.to_string own) ≡ ok own)
      → L.split "managers.disconnect" ≡ "managers" ∷ "disconnect" ∷ []
      → r.error ≡ none
      → manager.contacts "client" ≡ true
      → platform.contacts "profile" ≡ true
      → platform.contacts "ws" ≡ true
      → string_at L.json task.request.metadata "manager-key" ≡ ok self.manager_key
      → (text : L.Text) × ((dispatcher L manager
            (web_socket connection' (L.to_string (response_object L.json r)))
            self).sent
          ≡ record {
            contact = "client";
            command = "set_closing_message";
            body = document_body text;
          }
            ∷ [])
        × ((Router.dispatcher L platform (web_socket connection text) tt).sent
            ≡ to_profile L platform connection
                (own_request L self "managers.disconnect")
                "managers"
                "disconnect"
              ∷ [])
        × ((Managers.request platform task
              (Managers.disconnect platform
                (record {
                  request = own_request L self "managers.disconnect";
                  transport_id = connection;
                  storage = storage;
                })
                s).state).sent
            ≡ reply_message task (failure task "manager not connection") ∷ [])
  unfolding serialize_request
  closing_across r connection connection' storage task read_response read_own parts fine k1 k2 k3
        asked =
      (
        serialize_request L.json (own_request L self "managers.disconnect"),
        dispatcher-response_object connection' r _ read_response fine k1,
        routed_own L laws self platform connection "managers.disconnect" "managers" "disconnect" _
            read_own parts k2,
        request-disconnect_manager platform _ task s self.manager_key
            (own_key L laws self "managers.disconnect") asked k3,
      )
