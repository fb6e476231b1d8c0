-- ===== src/Jsonrpc/Parse/Tests.antt =====
-- Messages at concrete inputs.
use velocity_mcp.Base.{refl, true, ◌↔◌, ◌≡◌}
use velocity_mcp.Assoc.{insert, lookup}
use velocity_mcp.Bytes.{Bytes, codes, equal, trim, trim_left, trim_right}
use velocity_mcp.Json.{valid}
use velocity_mcp.Json.Decode.{
  fits, fits_items, fits_members, raw_members, unmarshal_any, unmarshal_members, unmarshal_string,
}
use velocity_mcp.Json.Tests.{reader}
use velocity_mcp.Jsonrpc.{
  Request, code_invalid_request, is_json_integer, is_json_natural, is_null, is_valid_request_id,
  new_error, version,
}
use velocity_mcp.Jsonrpc.Parse.{
  invalid, is_notification_bytes, is_params_object, key_id, key_jsonrpc, key_method, key_params,
  msg_invalid_id, msg_invalid_ntf_ver, msg_invalid_params, msg_invalid_version,
  msg_missing_method_ntf, msg_missing_method_req, msg_parse_error, params_refused,
  parse_notification, parse_notification_env, parse_request, parse_request_body, parse_request_env,
  raw, request, strict_unmarshal, string_value, version_is_20,
}
use velocity_mcp.Jsonrpc.Parse.Requests.{
  Refusal, StatesRequest, parse_request-Refusal, parse_request_iff,
}

-- Opens the parsing of messages.
unfoldable pub parser : Unit {0}
unfolding reader parse_request parse_request_env parse_request_body parse_notification
    parse_notification_env is_notification_bytes strict_unmarshal unmarshal_members raw_members raw
    version_is_20 unmarshal_string string_value unmarshal_any fits fits_items fits_members
    params_refused is_params_object valid is_valid_request_id is_json_integer is_json_natural
    is_null lookup insert key_id key_jsonrpc key_method key_params msg_parse_error msg_invalid_id
    msg_invalid_version msg_invalid_params msg_missing_method_req msg_missing_method_ntf
    msg_invalid_ntf_ver equal trim trim_left trim_right
parser = tt

abbrev pub ping_message : Bytes
ping_message = codes "{\"jsonrpc\":\"2.0\",\"id\":7,\"method\":\"ping\",\"params\":{}}"

abbrev pub ping_request : Request
ping_request = record {
  jsonrpc = version;
  id = record { raw = codes "7" };
  method = codes "ping";
  params = codes "{}";
}

ping_runs : parse_request ping_message ≡ request ping_request ping_request.id
unfolding parser
ping_runs = refl

parse_request_iff_example :
    (parse_request ping_message ≡ request ping_request ping_request.id)
    ↔ (ping_request.id ≡ ping_request.id) × StatesRequest ping_message ping_request
parse_request_iff_example = parse_request_iff ping_message ping_request ping_request.id

abbrev old_message : Bytes
old_message = codes "{\"jsonrpc\":\"1.0\",\"id\":7,\"method\":\"ping\"}"

old_runs :
    parse_request old_message
    ≡ invalid (record { raw = codes "7" }) (new_error code_invalid_request msg_invalid_version)
unfolding parser
old_runs = refl

parse_request-Refusal_example :
    Refusal old_message
      (record { raw = codes "7" })
      (new_error code_invalid_request msg_invalid_version)
parse_request-Refusal_example =
    parse_request-Refusal old_message (record { raw = codes "7" })
      (new_error code_invalid_request msg_invalid_version) old_runs

seven_is_valid : is_valid_request_id (record { raw = codes " 7" }) ≡ true
unfolding parser
seven_is_valid = refl
