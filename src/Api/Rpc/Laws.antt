-- ===== src/Api/Rpc/Laws.antt =====
-- The kinds of JSON-RPC messages, and what `parse` reads of what `serialize` writes.
use stream_cloud.Prelude.{
  String, true, false, ◌≡◌, ◌==◌, if◌then◌else◌, Option, none, some, arith, Bool-cases, inl, inr,
  ◌&&◌, not, is_some,
}
use mathlib.Core.Option
use stream_cloud.Api.Action.{ok}
use stream_cloud.Api.Libraries.{Json, JsonLaws}
use stream_cloud.Api.Rpc.{
  RequestMessage, ResponseMessage, NotifyMessage, contains, is_request, is_response, is_notify,
  request_object, response_object, notify_object, parse_request, parse_notify, parse_response,
  serialize_request, serialize_response, at_key, params_of, metadata_of, put_params, put_metadata,
  put_error, error_object, ResponseError,
}

-- The object after a parse has read its params: `[]` has put a null where they were missing.
abbrev pub after_params : (J : Json) → J.Value → J.Map → J.Map
after_params J params obj = if J.is_null params then J.put obj "params" J.null else obj

module _ (J : Json) (laws : JsonLaws J) where
  open laws use {
    find-put, find-empty_map, as_string-of_string, as_map-of_map, eq-null_of_is_null,
    eq-empty_of_is_empty,
  }

  find-put_params :
      (params : J.Value) (m : J.Map) (k : String)
      → J.find (put_params J params m) k ≡ (
          if J.is_null params
          then J.find m k
          else if "params" == k
          then some params
          else J.find m k)
  find-put_params params m k = elim (Bool-cases (J.is_null params)) [
    | inl e ↦ rw e
    | inr e ↦ rw (e, find-put)
  ]

  find-put_metadata :
      (metadata m : J.Map) (k : String)
      → J.find (put_metadata J metadata m) k ≡ (
          if J.is_empty metadata
          then J.find m k
          else if "metadata" == k
          then some (J.of_map metadata)
          else J.find m k)
  find-put_metadata metadata m k = elim (Bool-cases (J.is_empty metadata)) [
    | inl e ↦ rw e
    | inr e ↦ rw (e, find-put)
  ]

  -- The fields of a request's object.
  pub find-request_object :
      (r : RequestMessage J) (k : String)
      → J.find (request_object J r) k ≡ (
          if "metadata" == k && not (J.is_empty r.metadata)
          then some (J.of_map r.metadata)
          else if "id" == k
          then some r.id
          else if "params" == k && not (J.is_null r.params)
          then some r.params
          else if "method" == k
          then some (J.of_string r.method)
          else if "jsonrpc" == k
          then some (J.of_string "2.0")
          else none)
  unfolding request_object
  find-request_object r k =
      simp (find-put_metadata, find-put, find-put_params, find-empty_map) (ground arith)

  pub at_key-some :
      (m : J.Map) (k : String) {v : J.Value} → J.find m k ≡ some v → at_key J m k ≡ (v, m)
  unfolding at_key
  at_key-some m k h = ground arith

  pub at_key-none :
      (m : J.Map) (k : String) → J.find m k ≡ none → at_key J m k ≡ (J.null, J.put m k J.null)
  unfolding at_key
  at_key-none m k h = ground arith

  params_of_object :
      (obj : J.Map) (params : J.Value)
      → J.find obj "param" ≡ none
      → J.find obj "params" ≡ (if J.is_null params then none else some params)
      → params_of J obj ≡ (params, after_params J params obj)
  unfolding params_of contains at_key
  params_of_object obj params h k = ground (arith, eq-null_of_is_null params)

  metadata_of_object :
      (obj : J.Map) (params : J.Value) (metadata : J.Map)
      → J.find obj "metadata" ≡ (if J.is_empty metadata then none else some (J.of_map metadata))
      → metadata_of J (after_params J params obj) ≡ ok metadata
  unfolding metadata_of contains at_key
  metadata_of_object obj params metadata h = ground (
    arith,
    find-put obj "params" "metadata" J.null,
    as_map-of_map metadata,
    eq-empty_of_is_empty metadata,
  )

  -- A request that is serialized and parsed is the request; the map that is parsed gets a null at
  -- "params" if the request has no parameters.
  pub parse_request-request_object :
      (r : RequestMessage J)
      → parse_request J (request_object J r) ≡ ok (r, after_params J r.params (request_object J r))
  unfolding parse_request
  parse_request-request_object r =
      let obj = request_object J r in
      rw (
        at_key-some obj "id" (find-request_object r "id"),
        at_key-some obj "method" (find-request_object r "method"),
        as_string-of_string r.method,
        params_of_object obj r.params (find-request_object r "param")
            (rw find-request_object (ground arith)),
        metadata_of_object obj r.params r.metadata (rw find-request_object (ground arith)),
      )

  -- If the JSON library reads the text that `serialize` writes for a request back as the map that was
  -- written, then the text reads as a map that parses as the request; that map gets a null at
  -- "params" if the request has no parameters.
  pub parse_request-serialize_request :
      (r : RequestMessage J)
      → J.read (serialize_request J r) ≡ ok (request_object J r)
      → (m : J.Map) × (J.read (serialize_request J r) ≡ ok m)
        × (parse_request J m ≡ ok (r, after_params J r.params m))
  parse_request-serialize_request r read =
      (request_object J r, read, parse_request-request_object r)

  find-notify_object :
      (n : NotifyMessage J) (k : String)
      → J.find (notify_object J n) k ≡ (
          if "metadata" == k && not (J.is_empty n.metadata)
          then some (J.of_map n.metadata)
          else if "params" == k && not (J.is_null n.params)
          then some n.params
          else if "method" == k
          then some (J.of_string n.method)
          else if "jsonrpc" == k
          then some (J.of_string "2.0")
          else none)
  unfolding notify_object
  find-notify_object n k =
      simp (find-put_metadata, find-put_params, find-put, find-empty_map) (ground arith)

  -- So too for a notification.
  pub parse_notify-notify_object :
      (n : NotifyMessage J)
      → parse_notify J (notify_object J n) ≡ ok (n, after_params J n.params (notify_object J n))
  unfolding parse_notify
  parse_notify-notify_object n =
      let obj = notify_object J n in
      rw (
        at_key-some obj "method" (find-notify_object n "method"),
        as_string-of_string n.method,
        params_of_object obj n.params (find-notify_object n "param")
            (rw find-notify_object (ground arith)),
        metadata_of_object obj n.params n.metadata (rw find-notify_object (ground arith)),
      )

  find-put_error :
      (e : Option (ResponseError J)) (m : J.Map) (k : String)
      → J.find (put_error J e m) k ≡ (
          if "error" == k && is_some e
          then Option.map (λ x. J.of_map (error_object J x)) e
          else J.find m k)
  find-put_error none m k = ground arith
  find-put_error (some x) m k = rw find-put (ground arith)

  pub find-response_object :
      (r : ResponseMessage J) (k : String)
      → J.find (response_object J r) k ≡ (
          if "metadata" == k && not (J.is_empty r.metadata)
          then some (J.of_map r.metadata)
          else if "id" == k
          then some r.id
          else if "error" == k && is_some r.error
          then Option.map (λ x. J.of_map (error_object J x)) r.error
          else if "result" == k
          then some r.result
          else if "jsonrpc" == k
          then some (J.of_string "2.0")
          else none)
  unfolding response_object
  find-response_object r k =
      simp (find-put_metadata, find-put, find-put_error, find-empty_map) (ground arith)

  pub metadata_of_response :
      (r : ResponseMessage J) → metadata_of J (response_object J r) ≡ ok r.metadata
  unfolding metadata_of contains at_key
  metadata_of_response r = ground (
    arith,
    find-response_object r "metadata",
    as_map-of_map r.metadata,
    eq-empty_of_is_empty r.metadata,
  )

  -- A response that is serialized and parsed is the response without its error, which `parse` does
  -- not read; the error is in the map, under "error", exactly if the response has one.
  pub parse_response-response_object :
      (r : ResponseMessage J)
      → (parse_response J (response_object J r)
          ≡ ok (record r { error = none }, response_object J r))
        × (J.find (response_object J r) "error"
            ≡ Option.map (λ e. J.of_map (error_object J e)) r.error)
  unfolding parse_response
  parse_response-response_object r =
      let obj = response_object J r in
      (
        rw (
          at_key-some obj "id" (find-response_object r "id"),
          at_key-some obj "result" (find-response_object r "result"),
          metadata_of_response r,
        ),
        rw find-response_object (ground arith),
      )

  -- If the JSON library reads the text that `serialize` writes for a response back as the map that
  -- was written, then the text reads as a map that parses as the response without its error, which
  -- `parse` does not read; the error is in the map, under "error", exactly if the response has one.
  pub parse_response-serialize_response :
      (r : ResponseMessage J)
      → J.read (serialize_response J r) ≡ ok (response_object J r)
      → (m : J.Map) × (J.read (serialize_response J r) ≡ ok m)
        × (parse_response J m ≡ ok (record r { error = none }, m))
        × (J.find m "error" ≡ Option.map (λ e. J.of_map (error_object J e)) r.error)
  parse_response-serialize_response r read =
      let (same, error) = parse_response-response_object r in
      (response_object J r, read, same, error)

  -- Every serialized message is of its own kind and of no other.
  pub kinds_of_objects :
      (r : RequestMessage J) (a : ResponseMessage J) (n : NotifyMessage J)
      → ((is_request J (request_object J r) ≡ true)
          × (is_response J (request_object J r) ≡ false)
          × (is_notify J (request_object J r) ≡ false))
        × ((is_request J (response_object J a) ≡ false)
            × (is_response J (response_object J a) ≡ true)
            × (is_notify J (response_object J a) ≡ false))
        × ((is_request J (notify_object J n) ≡ false)
            × (is_response J (notify_object J n) ≡ false)
            × (is_notify J (notify_object J n) ≡ true))
  unfolding is_request is_response is_notify
  kinds_of_objects r a n = (
    (
      simp find-request_object (ground arith),
      simp find-request_object (ground arith),
      simp find-request_object (ground arith),
    ),
    (
      simp find-response_object (ground arith),
      simp find-response_object (ground arith),
      simp find-response_object (ground arith),
    ),
    (
      simp find-notify_object (ground arith),
      simp find-notify_object (ground arith),
      simp find-notify_object (ground arith),
    ),
  )
