-- ===== src/Jsonrpc/ParseResponse/Tests.antt =====
-- Replies at concrete inputs.
use velocity_mcp.Base.{[], negsuc, refl, some, ◌↔◌, ◌≡◌}
use velocity_mcp.Bytes.{Bytes, codes}
use velocity_mcp.Json.Decode.{fold_name, same_field}
use velocity_mcp.Jsonrpc.{Response, new_error, version}
use velocity_mcp.Jsonrpc.Parse.{accepted}
use velocity_mcp.Jsonrpc.Parse.Tests.{parser}
use velocity_mcp.Jsonrpc.ParseResponse.{
  envelope_error, key_error, key_result, parse_response, parse_response_body, parse_response_env,
  set_error_fields, unmarshal_error,
}
use velocity_mcp.Jsonrpc.ParseResponse.Accepted.{StatesResponse, parse_response_iff}

abbrev error_message : Bytes
error_message =
    codes "{\"jsonrpc\":\"2.0\",\"id\":null,\"error\":{\"code\":-32700,\"message\":\"bad\"}}"

abbrev test_error_response : Response
test_error_response = record {
  jsonrpc = version;
  id = record { raw = codes "null" };
  result = [];
  error = some (new_error (negsuc 32699) (codes "bad"));
}

error_runs : parse_response error_message ≡ accepted test_error_response
unfolding parser parse_response parse_response_env parse_response_body envelope_error
    unmarshal_error set_error_fields key_result key_error same_field fold_name
error_runs = refl

parse_response_iff_example :
    (parse_response error_message ≡ accepted test_error_response)
    ↔ StatesResponse error_message test_error_response
parse_response_iff_example = parse_response_iff error_message test_error_response
