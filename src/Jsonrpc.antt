-- ===== src/Jsonrpc.antt =====
-- jsonrpc/jsonrpc.go: the message types of the package jsonrpc, and the request id.
pub mod Parse
pub mod ParseResponse
pub mod Ids
use velocity_mcp.Base.{
  Bool, Option, [], all, false, if◌then◌else◌, leb, length, negsuc, none, not, some, true, ℤ, ◌&&◌,
  ◌==◌, ◌∷◌,
}
use velocity_mcp.Bytes.{Bytes, codes, equal, is_space, trim}
use velocity_mcp.Json.{Json, valid}
use velocity_mcp.Json.Decode.{unmarshal_string}

abbrev pub version : Bytes
version = codes "2.0"

abbrev pub code_parse_error : ℤ
code_parse_error = negsuc 32699

abbrev pub code_invalid_request : ℤ
code_invalid_request = negsuc 32599

abbrev pub code_method_not_found : ℤ
code_method_not_found = negsuc 32600

abbrev pub code_invalid_params : ℤ
code_invalid_params = negsuc 32601

abbrev pub code_internal_error : ℤ
code_internal_error = negsuc 32602

abbrev pub code_resource_not_found : ℤ
code_resource_not_found = negsuc 32001

abbrev pub code_header_mismatch : ℤ
code_header_mismatch = negsuc 32019

abbrev pub code_missing_required_client_capability : ℤ
code_missing_required_client_capability = negsuc 32020

abbrev pub code_unsupported_protocol_version : ℤ
code_unsupported_protocol_version = negsuc 32021

-- A request id keeps its JSON token; the empty token is an absent id.
pub record MessageId : Type 0 where
  pub raw : Bytes

abbrev pub null_id : MessageId
null_id = record { raw = codes "null" }

-- `bytes.TrimSpace` of a token.
abbrev pub trim_space : Bytes → Bytes
trim_space = trim is_space

unfoldable pub is_null : MessageId → Bool
unfolding equal trim
is_null id = if equal id.raw [] then true else equal (trim_space id.raw) (codes "null")

-- The digits after an optional sign.
unfoldable pub is_json_natural : Bytes → Bool
is_json_natural [] = false
is_json_natural (b ∷ t) =
    if b == b'0' then length t == 0 else all (λ c. leb b'0' c && leb c b'9') (b ∷ t)

unfoldable pub is_json_integer : Bytes → Bool
unfolding is_json_natural
is_json_integer [] = is_json_natural []
is_json_integer (b ∷ t) = if b == b'-' then is_json_natural t else is_json_natural (b ∷ t)

abbrev pub is_string_or_integer : Bytes → Bool
is_string_or_integer [] = false
is_string_or_integer (b ∷ t) = if b == b'"' then true else is_json_integer (b ∷ t)

unfoldable pub is_valid_request_id : MessageId → Bool
unfolding is_null is_json_integer trim
is_valid_request_id id = if is_null id then false else is_string_or_integer (trim_space id.raw)

-- `String`: a string without its quotes, any other token as it is.
unfoldable pub id_string : MessageId → Bytes
unfolding is_null unmarshal_string
id_string id =
    if is_null id
    then []
    else elim (unmarshal_string id.raw) [ some s ↦ s | none ↦ trim_space id.raw ]

unfoldable pub marshal_id : MessageId → Bytes
unfolding equal
marshal_id id = if equal id.raw [] then codes "null" else id.raw

-- `UnmarshalJSON` of any earlier id: the id, and whether the token was JSON.
unfoldable pub unmarshal_id : Bytes → MessageId × Bool
unfolding valid
unmarshal_id b = if not (valid b) then (record { raw = [] }, false) else (record { raw = b }, true)

pub record Error : Type 0 where
  pub code : ℤ
  pub message : Bytes
  pub payload : Option Json

abbrev pub new_error : ℤ → Bytes → Error
new_error code message = record { code = code; message = message; payload = none }

abbrev pub with_data : Error → Json → Error
with_data e v = record e { payload = some v }

-- The field `JSONRPC` of each message is `version` in all that the package builds.
pub record Request : Type 0 where
  pub jsonrpc : Bytes
  pub id : MessageId
  pub method : Bytes
  pub params : Bytes

pub record Notification : Type 0 where
  pub jsonrpc : Bytes
  pub method : Bytes
  pub params : Bytes

pub record Response : Type 0 where
  pub jsonrpc : Bytes
  pub id : MessageId
  pub result : Bytes
  pub error : Option Error

abbrev pub new_error_response : MessageId → Error → Response
new_error_response id e = record { jsonrpc = version; id = id; result = []; error = some e }

abbrev pub new_error_response_code : MessageId → ℤ → Bytes → Response
new_error_response_code id code message = new_error_response id (new_error code message)

-- `NewResult` of a raw result, which a blank one replaces by the empty object.
unfoldable pub new_result : MessageId → Bytes → Response
unfolding equal trim
new_result id raw = record {
  jsonrpc = version;
  id = id;
  result = if equal (trim_space raw) [] then codes "{}" else raw;
  error = none;
}
