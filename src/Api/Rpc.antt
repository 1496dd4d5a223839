-- ===== src/Api/Rpc.antt =====
-- modules/stream-api/src/json-rpc.{hpp,cpp}: the messages and their JSON form.
pub mod Laws
pub mod Relay
use stream_cloud.Prelude.{
  String, ℕ, ◌-◌, ◌^◌, Bool, not, ◌&&◌, Option, none, some, is_some, if◌then◌else◌, List,
}
use stream_cloud.Api.Action.{Result, ok, threw, undefined, or_throw}
use stream_cloud.Api.Libraries.{Json}

infixl 5 ◌>>=◌
abbrev pub ◌>>=◌ {ℓ κ} : {A : Type ℓ} {B : Type κ} → Result A → (A → Result B) → Result B
ok a >>= f = f a
threw what >>= f = threw what
undefined >>= f = undefined

-- `error_code::unknown_error_code` is -32001, and is written as `uint64_t`.
abbrev pub unknown_error_code : ℕ
unknown_error_code = 2 ^ 64 - 32001

module _ (J : Json) where
  open J use {Value, Map, Text, find, put, empty_map, as_string, as_map, of_string, of_nat, of_map}

  pub record RequestMessage : Type 0 where
    pub id : Value
    pub method : String
    pub params : Value
    pub metadata : Map

  pub record ResponseError : Type 0 where
    pub code : ℕ
    pub message : String
    pub data_value : Value

  pub record ResponseMessage : Type 0 where
    pub id : Value
    pub result : Value
    pub metadata : Map
    pub error : Option ResponseError

  pub record NotifyMessage : Type 0 where
    pub method : String
    pub params : Value
    pub metadata : Map

  unfoldable pub contains : Map → String → Bool
  contains msg key = is_some (find msg key)

  unfoldable pub is_notify : Map → Bool
  unfolding contains
  is_notify msg = not (contains msg "id")

  unfoldable pub is_request : Map → Bool
  unfolding contains
  is_request msg = contains msg "method" && contains msg "id"

  unfoldable pub is_response : Map → Bool
  unfolding contains
  is_response msg = not (contains msg "method") && contains msg "id"

  -- `map[key]`, which puts a null at a missing key: the value, and the map after it
  unfoldable pub at_key : Map → String → Value × Map
  at_key m k = elim (find m k) [ none ↦ (J.null, put m k J.null) | some v ↦ (v, m) ]

  abbrev pub get_string : Value → Result String
  get_string v = or_throw J.bad_get (as_string v)

  abbrev pub get_map : Value → Result Map
  get_map v = or_throw J.bad_get (as_map v)

  abbrev pub get_array : Value → Result (List Value)
  get_array v = or_throw J.bad_get (J.as_array v)

  -- `map[key].as<std::string>()`
  abbrev pub string_at : Map → String → Result String
  string_at m k = get_string (at_key m k).0

  -- `value[key]`
  abbrev pub param : Value → String → Result Value
  param v k = do m ← or_throw (J.not_a_map v) (as_map v); ok (at_key m k).0

  -- `value[key].as<std::string>()`
  abbrev pub param_string : Value → String → Result String
  param_string v k = do m ← or_throw (J.not_a_map v) (as_map v); string_at m k

  -- "param", or "params" where that is missing
  unfoldable pub params_of : Map → Value × Map
  unfolding contains
  params_of msg = if contains msg "param" then at_key msg "param" else at_key msg "params"

  unfoldable pub metadata_of : Map → Result Map
  unfolding contains
  metadata_of msg =
      if contains msg "metadata" then get_map (at_key msg "metadata").0 else ok empty_map

  -- `parse(message, request)`: the request, and the message with the nulls that `[]` put into it
  unfoldable pub parse_request : Map → Result (RequestMessage × Map)
  parse_request message = do
    let (id, m1) = at_key message "id"
    let (name, m2) = at_key m1 "method"
    method ← get_string name
    let (params, m3) = params_of m2
    metadata ← metadata_of m3
    ok (record { id = id; method = method; params = params; metadata = metadata }, m3)

  unfoldable pub parse_notify : Map → Result (NotifyMessage × Map)
  parse_notify message = do
    let (name, m1) = at_key message "method"
    method ← get_string name
    let (params, m2) = params_of m1
    metadata ← metadata_of m2
    ok (record { method = method; params = params; metadata = metadata }, m2)

  unfoldable pub parse_response : Map → Result (ResponseMessage × Map)
  parse_response message = do
    let (id, m1) = at_key message "id"
    let (result, m2) = at_key m1 "result"
    metadata ← metadata_of m2
    ok (record { id = id; result = result; metadata = metadata; error = none }, m2)

  abbrev pub put_metadata : Map → Map → Map
  put_metadata metadata obj =
      if J.is_empty metadata then obj else put obj "metadata" (of_map metadata)

  abbrev pub put_params : Value → Map → Map
  put_params params obj = if J.is_null params then obj else put obj "params" params

  unfoldable pub request_object : RequestMessage → Map
  request_object msg =
      let obj = put (put empty_map "jsonrpc" (of_string "2.0")) "method" (of_string msg.method) in
      put_metadata msg.metadata (put (put_params msg.params obj) "id" msg.id)

  unfoldable pub error_object : ResponseError → Map
  error_object e =
      put (put (put empty_map "code" (of_nat e.code)) "message" (of_string e.message)) "data"
        e.data_value

  abbrev pub put_error : Option (ResponseError) → Map → Map
  put_error none obj = obj
  put_error (some e) obj = put obj "error" (of_map (error_object e))

  unfoldable pub response_object : ResponseMessage → Map
  unfolding error_object
  response_object msg =
      let obj = put (put empty_map "jsonrpc" (of_string "2.0")) "result" msg.result in
      put_metadata msg.metadata (put (put_error msg.error obj) "id" msg.id)

  unfoldable pub notify_object : NotifyMessage → Map
  notify_object msg =
      let obj = put (put empty_map "jsonrpc" (of_string "2.0")) "method" (of_string msg.method) in
      put_metadata msg.metadata (put_params msg.params obj)

  unfoldable pub serialize_request : RequestMessage → Text
  unfolding request_object
  serialize_request msg = J.to_string (request_object msg)

  unfoldable pub serialize_response : ResponseMessage → Text
  unfolding response_object
  serialize_response msg = J.to_string (response_object msg)

  unfoldable pub serialize_notify : NotifyMessage → Text
  unfolding notify_object
  serialize_notify msg = J.to_string (notify_object msg)
