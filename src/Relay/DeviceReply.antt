-- ===== src/Relay/DeviceReply.antt =====
-- A device's response on its way through the manager to the user.
use stream_cloud.Prelude.{String, ◌≡◌, true, some, [], ◌∷◌, arith, lookup}
use stream_cloud.Api.Action.{ok, ◌>>=◌}
use stream_cloud.Api.Libraries.{Libraries, JsonLaws}
use stream_cloud.Api.Rpc.{ResponseMessage, param_string, response_object, at_key}
use stream_cloud.Api.Rpc.Laws.{at_key-some, metadata_of_response}
use stream_cloud.Api.Rpc.Relay.{param_string-find, is_request-put, is_response-put}
use stream_cloud.Api.Message.{Context, web_socket, transport_body, written, send}
use stream_cloud.Api.Database.{members}
use stream_cloud.Manager.Router
use stream_cloud.Manager.Router.{Router}
use stream_cloud.Manager.Devices
use stream_cloud.Manager.Devices.{Devices}
use stream_cloud.Device.Manager.{Device, add_keys, write}

module _ (L : Libraries) (laws : JsonLaws L.json) (self : Device) (id : String)
    (r : ResponseMessage L.json) where
  -- The metadata with the connection and the keys, the response with it, and what the user gets.
  abbrev pub metadata : L.Map
  metadata =
      L.put
        (L.put
          (L.put (L.put r.metadata "transport" (L.of_string id)) "device-key"
            (L.of_string self.device_key))
          "manager-key" (L.of_string self.manager_key))
        "user-key" (L.of_string self.profile_key)

  abbrev pub named : L.Map
  named = L.put (response_object L.json r) "metadata" (L.of_map metadata)

  abbrev pub stripped : L.Map
  stripped = L.remove named "metadata"

  add_keys-response_object : add_keys L self id (response_object L.json r) ≡ ok named
  unfolding add_keys
  add_keys-response_object = ground (arith, metadata_of_response L.json laws r)

  pub write-response_object :
      (ctx : Context) (text : L.Text)
      → L.read text ≡ ok (response_object L.json r)
      → ctx.contacts "client" ≡ true
      → (write L ctx (web_socket id text) self).sent
        ≡ record {
          contact = "client";
          command = "write";
          body = transport_body (web_socket id (L.to_string named));
        }
          ∷ []
  unfolding write ◌>>=◌ send
  write-response_object ctx text read known = ground (arith, add_keys-response_object)

  pub dispatcher-named :
      (ctx : Context) (router : Router) (connection : String) (text : L.Text)
      → L.read text ≡ ok named
      → ctx.contacts "devices" ≡ true
      → (Router.dispatcher L ctx (web_socket connection text) router).sent
        ≡ record {
          contact = "devices";
          command = "response";
          body = transport_body (web_socket connection (L.to_string named));
        }
          ∷ []
  unfolding Router.dispatcher ◌>>=◌ send
  dispatcher-named ctx router connection text read known = ground (
    arith,
    is_request-put L.json laws r (L.of_map metadata),
    is_response-put L.json laws r (L.of_map metadata),
  )

  at_named : at_key L.json named "metadata" ≡ (L.of_map metadata, named)
  at_named = at_key-some L.json laws named "metadata" (
      ground
        (arith, laws.find-put (response_object L.json r) "metadata" "metadata" (L.of_map metadata)))

  named_transport : param_string L.json (L.of_map metadata) "transport" ≡ ok id
  named_transport =
      param_string-find L.json laws metadata "transport" id (simp (laws.find-put) (ground arith))

  named_device : param_string L.json (L.of_map metadata) "device-key" ≡ ok self.device_key
  named_device =
      param_string-find L.json laws metadata "device-key" self.device_key
        (simp (laws.find-put) (ground arith))

  pub response-named :
      (ctx : Context) (s : Devices L) (connection id' : String) (text : L.Text)
      → L.read text ≡ ok named
      → lookup self.device_key s.members.devices_reg ≡ some id'
      → ctx.contacts "ws" ≡ true
      → (Devices.response ctx connection text s).sent
        ≡ written L.json id (L.to_string stripped) ∷ []
  unfolding Devices.response Devices.is_reg_device ◌>>=◌ members send
  response-named ctx s connection id' text read found known = ground (
    arith,
    at_named,
    named_transport,
    named_device,
    is_response-put L.json laws r (L.of_map metadata),
  )
