-- ===== src/Manager/Subscriptions/Delivery.antt =====
-- To whom `emit` sends a notification, and what it changes in it.
use stream_cloud.Prelude.{String, true, ◌≡◌, ◌≢◌, refl, eq_iff, some, List, [], ◌∷◌, arith, lookup}
use stream_cloud.Api.Action.{ok, ◌>>=◌}
use stream_cloud.Api.Libraries.{Libraries, JsonLaws}
use stream_cloud.Api.Rpc.{at_key, param_string}
use stream_cloud.Api.Message.{Message, Context, transport_body, web_socket, send}
use stream_cloud.Api.Database.{members}
use stream_cloud.Manager.Subscriptions.{
  Subscriptions, is_reg_device, get_device_subscribes, set_transport, emit_to, emit,
}

module _ (L : Libraries) (message metadata : L.Map) where
  -- `m` is `message` with "transport" in its metadata set to `id`, as far as reads can tell.
  pub record IsAddressed (id : String) (m : L.Map) : Type 0 where
    pub metadata' : L.Map
    pub there : L.find m "metadata" ≡ some (L.of_map metadata')
    pub transport : L.find metadata' "transport" ≡ some (L.of_string id)
    pub other_metadata : (k : String) → k ≢ "transport" → L.find metadata' k ≡ L.find metadata k
    pub other_fields : (k : String) → k ≢ "metadata" → L.find m k ≡ L.find message k

  -- One web socket for each id, in the order of the ids, with the message addressed to that id.
  abbrev pub AreDelivered : List String → List (Message L.json) → Type 0
  AreDelivered [] sent = sent ≡ []
  AreDelivered (id ∷ ids) sent =
      (m : L.Map) × (rest : List (Message L.json)) × (sent
        ≡ record {
          contact = "ws";
          command = "write";
          body = transport_body (web_socket id (L.to_string m));
        }
          ∷ rest)
      × IsAddressed id m
      × AreDelivered ids rest

  -- What the loop knows of the message that it has written so far.
  record IsCurrent (current md : L.Map) : Type 0 where
    value : L.Value
    there : L.find current "metadata" ≡ some value
    as_md : L.as_map value ≡ some md
    other_metadata : (k : String) → k ≢ "transport" → L.find md k ≡ L.find metadata k
    other_fields : (k : String) → k ≢ "metadata" → L.find current k ≡ L.find message k

-- What the loop writes for `id`, into a message with the metadata `md`.
abbrev next : (L : Libraries) → L.Map → L.Map → String → L.Map
next L current md id = L.put current "metadata" (L.of_map (L.put md "transport" (L.of_string id)))

module _ {L : Libraries} (laws : JsonLaws L.json) (ctx : Context) (message metadata : L.Map)
    (known : ctx.contacts "ws" ≡ true) where
  set_transport_current :
      (current md : L.Map) (id : String)
      → IsCurrent L message metadata current md
      → set_transport L.json current id ≡ ok (next L current md id)
  unfolding at_key set_transport
  set_transport_current current md id c = ground arith

  next-IsCurrent :
      (current md : L.Map) (id : String)
      → IsCurrent L message metadata current md
      → IsCurrent L message metadata (next L current md id) (L.put md "transport" (L.of_string id))
  next-IsCurrent current md id c = record {
    value = L.of_map (L.put md "transport" (L.of_string id));
    there =
        laws.find-put current "metadata" "metadata"
          (L.of_map (L.put md "transport" (L.of_string id)));
    as_md = laws.as_map-of_map _;
    other_metadata = λ k h. ground (
      arith,
      laws.find-put md "transport" k (L.of_string id),
      eq_iff "transport" k,
      c.other_metadata k,
    );
    other_fields = λ k h. ground (
      arith,
      laws.find-put current "metadata" k (L.of_map (L.put md "transport" (L.of_string id))),
      eq_iff "metadata" k,
      c.other_fields k,
    );
  }

  next-IsAddressed :
      (current md : L.Map) (id : String)
      → IsCurrent L message metadata current md
      → IsAddressed L message metadata id (next L current md id)
  next-IsAddressed current md id c = record {
    metadata' = L.put md "transport" (L.of_string id);
    there =
        laws.find-put current "metadata" "metadata"
          (L.of_map (L.put md "transport" (L.of_string id)));
    transport = laws.find-put md "transport" "transport" (L.of_string id);
    other_metadata = (next-IsCurrent current md id c).other_metadata;
    other_fields = (next-IsCurrent current md id c).other_fields;
  }

  emit_to-AreDelivered :
      (ids : List String) (current md : L.Map) (s : Subscriptions L)
      → IsCurrent L message metadata current md
      → AreDelivered L message metadata ids (emit_to ctx ids current s).sent
  unfolding emit_to ◌>>=◌ send
  emit_to-AreDelivered [] current md s c = refl
  emit_to-AreDelivered (id ∷ ids) current md s c =
      rw (set_transport_current current md id c, known)
        (
          next L current md id,
          (emit_to ctx ids (next L current md id) s).sent,
          refl,
          next-IsAddressed current md id c,
          emit_to-AreDelivered ids (next L current md id) (L.put md "transport" (L.of_string id)) s
              (next-IsCurrent current md id c),
        )

  emit_registered :
      (body : L.Text) (s : Subscriptions L) (value : L.Value) (device_key : String)
      (ids : List String)
      → L.read body ≡ ok message
      → L.find message "metadata" ≡ some value
      → L.as_map value ≡ some metadata
      → param_string L.json value "device-key" ≡ ok device_key
      → lookup device_key s.members ≡ some ids
      → (emit ctx body s).sent ≡ (emit_to ctx ids message s).sent
  unfolding emit ◌>>=◌ members at_key is_reg_device get_device_subscribes
  emit_registered body s value device_key ids h1 h2 h3 h4 h5 = ground arith

  -- When a notification can be read and its metadata names a device with subscribers, and the
  -- actor knows the web sockets, each subscriber is sent the notification once, in their order,
  -- with the subscriber's transport id in its metadata and nothing else changed in it.
  pub emit-AreDelivered :
      (body : L.Text) (s : Subscriptions L) (value : L.Value) (device_key : String)
      (ids : List String)
      → L.read body ≡ ok message
      → L.find message "metadata" ≡ some value
      → L.as_map value ≡ some metadata
      → param_string L.json value "device-key" ≡ ok device_key
      → lookup device_key s.members ≡ some ids
      → AreDelivered L message metadata ids (emit ctx body s).sent
  emit-AreDelivered body s value device_key ids h1 h2 h3 h4 h5 =
      rw (emit_registered body s value device_key ids h1 h2 h3 h4 h5) (
        emit_to-AreDelivered ids message metadata s (record {
          value = value;
          there = h2;
          as_md = h3;
          other_metadata = λ k h. refl;
          other_fields = λ k h. refl;
        }))
