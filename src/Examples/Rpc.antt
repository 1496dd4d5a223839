-- ===== src/Examples/Rpc.antt =====
-- json-rpc.cpp at concrete messages.
use stream_cloud.Prelude.{◌≡◌, refl, true, none, some}
use mathlib.Core.Option
use stream_cloud.Api.Action.{ok}
use stream_cloud.Api.Rpc.{
  RequestMessage, ResponseMessage, NotifyMessage, request_object, response_object, parse_request,
  parse_response, error_object, serialize_request, serialize_response,
}
use stream_cloud.Api.Rpc.Laws.{
  after_params, parse_request-serialize_request, parse_response-serialize_response,
}
use stream_cloud.Toy.{json, request}
use stream_cloud.Toy.Laws.{json_laws}
use stream_cloud.Toy.JsonTree.{num, text, flag, null, obj, field, end}

abbrev login : RequestMessage json
login =
    request "users.login" (obj (field "login" (text "bob") end)) (field "device-key" (text "k") end)

abbrev pub failed : ResponseMessage json
failed = record {
  id = num 7;
  result = flag true;
  metadata = end;
  error = some (record { code = 5; message = "no"; data_value = null });
}

abbrev pub changed : NotifyMessage json
changed = record { method = "changed"; params = null; metadata = field "device-key" (text "k") end }

parse_request-serialize_request_example :
    (m : json.Map) × (json.read (serialize_request json login) ≡ ok m)
    × (parse_request json m ≡ ok (login, after_params json login.params m))
unfolding serialize_request request_object
parse_request-serialize_request_example = parse_request-serialize_request json json_laws login refl

parse_response-serialize_response_example :
    (m : json.Map) × (json.read (serialize_response json failed) ≡ ok m)
    × (parse_response json m ≡ ok (record failed { error = none }, m))
    × (json.find m "error" ≡ Option.map (λ e. json.of_map (error_object json e)) failed.error)
unfolding serialize_response response_object
parse_response-serialize_response_example =
    parse_response-serialize_response json json_laws failed refl
