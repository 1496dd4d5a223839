-- ===== src/Api/Rpc/Relay.antt =====
-- Messages that are parsed after another program has passed them on: the maps that `parse` has put
-- nulls into, and those whose metadata has been replaced.
use stream_cloud.Prelude.{
  String, true, false, ◌≡◌, ◌==◌, if◌then◌else◌, none, some, arith, Bool-cases, inl, inr, ◌&&◌,
  eq_refl,
}
use stream_cloud.Api.Action.{ok}
use stream_cloud.Api.Libraries.{Json, JsonLaws}
use stream_cloud.Api.Rpc.{
  RequestMessage, ResponseMessage, contains, is_request, is_response, request_object,
  response_object, parse_request, parse_response, at_key, params_of, metadata_of, param_string,
}
use stream_cloud.Api.Rpc.Laws.{
  after_params, find-request_object, find-response_object, metadata_of_response,
}

module _ (J : Json) (laws : JsonLaws J) where
  open laws use {
    find-put, find-remove, find-empty_map, as_string-of_string, as_map-of_map, eq-null_of_is_null,
    eq-empty_of_is_empty,
  }

  pub is_empty-put : (m : J.Map) (k : String) (v : J.Value) → J.is_empty (J.put m k v) ≡ false
  is_empty-put m k v = elim (Bool-cases (J.is_empty (J.put m k v))) [
    | inl e ↦ absurd (
        ground (
          arith,
          eq-empty_of_is_empty (J.put m k v) e,
          find-put m k k v,
          eq_refl k,
          find-empty_map k,
        ))
    | inr e ↦ e
  ]

  pub find-after_params :
      (params : J.Value) (m : J.Map) (k : String)
      → J.find (after_params J params m) k
        ≡ (if J.is_null params && "params" == k then some J.null else J.find m k)
  find-after_params params m k = ground (arith, find-put m "params" k J.null)

  -- What `parse` reads of a map with the fields of a request.
  parse_request_fields :
      (m : J.Map) (r : RequestMessage J)
      → J.find m "id" ≡ some r.id
      → J.find m "method" ≡ some (J.of_string r.method)
      → J.find m "param" ≡ none
      → J.find m "params" ≡ some r.params
      → J.find m "metadata" ≡ (if J.is_empty r.metadata then none else some (J.of_map r.metadata))
      → parse_request J m ≡ ok (r, m)
  unfolding parse_request params_of metadata_of contains at_key
  parse_request_fields m r e1 e2 e3 e4 e5 = ground (
    arith,
    as_string-of_string r.method,
    as_map-of_map r.metadata,
    eq-empty_of_is_empty r.metadata,
  )

  -- The map that a parse leaves reads as the same request.
  pub parse_request-after_params :
      (r : RequestMessage J)
      → parse_request J (after_params J r.params (request_object J r))
        ≡ ok (r, after_params J r.params (request_object J r))
  parse_request-after_params r =
      parse_request_fields _ r (rw (find-after_params, find-request_object) (ground arith))
        (rw (find-after_params, find-request_object) (ground arith))
        (rw (find-after_params, find-request_object) (ground arith))
        (rw (find-after_params, find-request_object) (ground (arith, eq-null_of_is_null r.params)))
        (rw (find-after_params, find-request_object) (ground arith))

  pub is_request-request_object : (r : RequestMessage J) → is_request J (request_object J r) ≡ true
  unfolding is_request
  is_request-request_object r = simp (find-request_object J laws) (ground arith)

  pub is_request-after_params :
      (r : RequestMessage J) → is_request J (after_params J r.params (request_object J r)) ≡ true
  unfolding is_request
  is_request-after_params r = simp (find-after_params, find-request_object) (ground arith)

module _ (J : Json) (laws : JsonLaws J) where
  open laws use {find-put, find-remove, as_string-of_string, as_map-of_map}

  pub param_string-find :
      (m : J.Map) (k s : String)
      → J.find m k ≡ some (J.of_string s)
      → param_string J (J.of_map m) k ≡ ok s
  unfolding at_key
  param_string-find m k s e = ground (arith, as_map-of_map m, as_string-of_string s)

  -- The text at a key of the metadata.
  pub param_string-put :
      (m : J.Map) (k s : String) → param_string J (J.of_map (J.put m k (J.of_string s))) k ≡ ok s
  unfolding at_key
  param_string-put m k s = ground (
    arith,
    as_map-of_map (J.put m k (J.of_string s)),
    find-put m k k (J.of_string s),
    eq_refl k,
    as_string-of_string s,
  )

  at_metadata :
      (m : J.Map) (metadata : J.Map)
      → at_key J (J.put m "metadata" (J.of_map metadata)) "metadata"
        ≡ (J.of_map metadata, J.put m "metadata" (J.of_map metadata))
  unfolding at_key
  at_metadata m metadata = ground (arith, find-put m "metadata" "metadata" (J.of_map metadata))

  parse_response_fields :
      (m : J.Map) {id result : J.Value}
      → J.find m "id" ≡ some id
      → J.find m "result" ≡ some result
      → J.find m "metadata" ≡ none
      → parse_response J m
        ≡ ok (record { id = id; result = result; metadata = J.empty_map; error = none }, m)
  unfolding parse_response metadata_of contains at_key
  parse_response_fields m e1 e2 e3 = ground arith

  -- A response whose metadata was replaced and then taken out reads as the response without metadata.
  pub parse_response_without :
      (r : ResponseMessage J) (v : J.Value)
      → let m = J.remove (J.put (response_object J r) "metadata" v) "metadata" in
        parse_response J m ≡ ok (record r { error = none; metadata = J.empty_map }, m)
  parse_response_without r v =
      parse_response_fields _
        (rw (find-remove, find-put, find-response_object J laws) (ground arith))
        (rw (find-remove, find-put, find-response_object J laws) (ground arith))
        (rw (find-remove) (ground arith))

  -- The metadata of a response gets the pairs that a program adds.
  pub metadata_of-response_object :
      (r : ResponseMessage J) → metadata_of J (response_object J r) ≡ ok r.metadata
  metadata_of-response_object r = metadata_of_response J laws r

  pub contains-response_object :
      (r : ResponseMessage J) → contains J (response_object J r) "transport" ≡ false
  unfolding contains
  contains-response_object r = simp (find-response_object J laws) (ground arith)

  pub contains_error :
      (r : ResponseMessage J) → r.error ≡ none → contains J (response_object J r) "error" ≡ false
  unfolding contains
  contains_error r fine = simp (find-response_object J laws) (ground arith)

  pub is_response-response_object :
      (r : ResponseMessage J)
      → (is_response J (response_object J r) ≡ true) × (is_request J (response_object J r) ≡ false)
  unfolding is_response is_request
  is_response-response_object r = (
    simp (find-response_object J laws) (ground arith),
    simp (find-response_object J laws) (ground arith),
  )

  -- A message with new metadata is still a response.
  pub is_response-put :
      (r : ResponseMessage J) (v : J.Value)
      → is_response J (J.put (response_object J r) "metadata" v) ≡ true
  unfolding is_response
  is_response-put r v = simp (find-put, find-response_object J laws) (ground arith)

  pub is_request-put :
      (r : ResponseMessage J) (v : J.Value)
      → is_request J (J.put (response_object J r) "metadata" v) ≡ false
  unfolding is_request
  is_request-put r v = simp (find-put, find-response_object J laws) (ground arith)
