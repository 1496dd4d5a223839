-- ===== src/Relay/Leaving.antt =====
-- What the message that tells a program to disconnect does.
use stream_cloud.Prelude.{eq_iff, String, ◌≡◌, refl, true, false, [], ◌∷◌, arith}
use stream_cloud.Api.Action.{ok, threw, ◌>>=◌}
use stream_cloud.Api.Libraries.{Libraries, JsonLaws}
use stream_cloud.Api.Rpc
use stream_cloud.Api.Rpc.{RequestMessage, request_object, serialize_request, at_key}
use stream_cloud.Api.Rpc.Laws.{parse_request-request_object, find-request_object, at_key-none}
use stream_cloud.Api.Rpc.Relay.{is_request-request_object}
use stream_cloud.Api.Message.{Task, Context, web_socket, text_body, send}
use stream_cloud.Platform.Managers.{disconnect_message}
use stream_cloud.Manager.Platform
use stream_cloud.Manager.Platform.{Platform}
use stream_cloud.Device.Manager
use stream_cloud.Device.Manager.{Device}

module _ (L : Libraries) (laws : JsonLaws L.json) (r : RequestMessage L.json) where
  unnamed : Rpc.contains L.json L.empty_map "transport" ≡ false
  unfolding Rpc.contains
  unnamed = rw laws.find-empty_map

  no_metadata :
      r.metadata ≡ L.empty_map
      → at_key L.json (request_object L.json r) "metadata"
        ≡ (L.null, L.put (request_object L.json r) "metadata" L.null)
  no_metadata e =
      at_key-none L.json laws (request_object L.json r) "metadata"
        (rw (find-request_object L.json laws, e, laws.is_empty-empty_map) (ground arith))

  closes :
      (ctx : Context) (platform : Platform)
      → r.method ≡ "disconnect"
      → Rpc.contains L.json r.metadata "transport" ≡ false
      → ctx.contacts "client" ≡ true
      → (Platform.platform_request L ctx (request_object L.json r) platform).sent
        ≡ record { contact = "client"; command = "close"; body = text_body "" } ∷ []
  unfolding Platform.platform_request ◌>>=◌ send
  closes ctx platform e1 e2 known =
      ground (arith, parse_request-request_object L.json laws r, eq_iff r.method "disconnect")

  received :
      (ctx : Context) (platform : Platform) (device : Device) (connection : String) (text : L.Text)
      → L.read text ≡ ok (request_object L.json r)
      → r.method ≡ "disconnect"
      → r.metadata ≡ L.empty_map
      → ctx.contacts "client" ≡ true
      → ((Platform.dispatcher L ctx (web_socket connection text) platform).sent
          ≡ record { contact = "client"; command = "close"; body = text_body "" } ∷ [])
        × ((Manager.dispatcher L ctx (web_socket connection text) device).sent ≡ [])
        × ((Manager.dispatcher L ctx (web_socket connection text) device).result
            ≡ threw (L.not_a_map L.null))
  unfolding Platform.dispatcher Manager.dispatcher Manager.manager_request ◌>>=◌ send
  received ctx platform device connection text read e1 e2 known =
      let asks = is_request-request_object L.json laws r in
      let missing = no_metadata e2 in
      (
        ground (arith, asks, closes ctx platform e1 (rw (e2, unnamed)) known),
        ground (arith, asks, missing, laws.as_map-null),
        ground (arith, asks, missing, laws.as_map-null),
      )

-- What the message asks for.
abbrev pub disconnect_request : (L : Libraries) → Task L.json → RequestMessage L.json
disconnect_request L task = record {
  id = task.request.id;
  method = "disconnect";
  params = L.null;
  metadata = L.empty_map;
}

-- The message by which `managers::delete` tells a program to disconnect makes the manager's
-- `platform` close its client; but in a device's `manager` the same message throws before its method
-- is looked at, and nothing is sent. The text of the message is
-- read back as the map that was written, the JSON maps have their documented laws, and the manager's
-- `platform` knows its client.
pub disconnect_received :
    (L : Libraries) (laws : JsonLaws L.json) (ctx : Context) (task : Task L.json)
    (platform : Platform) (device : Device) (connection : String)
    → L.read (disconnect_message L task) ≡ ok (request_object L.json (disconnect_request L task))
    → ctx.contacts "client" ≡ true
    → ((Platform.dispatcher L ctx (web_socket connection (disconnect_message L task)) platform).sent
        ≡ record { contact = "client"; command = "close"; body = text_body "" } ∷ [])
      × ((Manager.dispatcher L ctx (web_socket connection (disconnect_message L task)) device).sent
          ≡ [])
      × ((Manager.dispatcher L ctx
            (web_socket connection (disconnect_message L task))
            device).result
          ≡ threw (L.not_a_map L.null))
unfolding serialize_request
disconnect_received L laws ctx task platform device connection read known =
    received L laws _ ctx platform device connection _ read refl refl known
