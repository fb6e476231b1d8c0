-- ===== src/Jsonrpc/Parse.antt =====
-- jsonrpc/parse.go: the strict decoding of inbound messages.
pub mod Requests
pub mod Tests
use velocity_mcp.Base.{
  Bool, Option, [], false, if◌then◌else◌, length, none, not, some, ◌&&◌, ◌-◌, ◌==◌, ◌>>=◌,
}
use velocity_mcp.Bytes.{Bytes, codes, equal, slice, trim}
use velocity_mcp.Assoc.{has, lookup}
use velocity_mcp.Json.{Json, arr, bool, null, num, obj, str, valid}
use velocity_mcp.Json.Number.{first_is}
use velocity_mcp.Json.Decode.{
  RawMembers, or_empty, unmarshal_any, unmarshal_members, unmarshal_string,
}
use velocity_mcp.Jsonrpc.{
  Error, MessageId, Notification, Request, code_invalid_params, code_invalid_request,
  code_parse_error, is_valid_request_id, new_error, null_id, trim_space, version,
}

-- The member names that an envelope is read by.
unfoldable pub key_id : Bytes
key_id = codes "id"

unfoldable pub key_jsonrpc : Bytes
key_jsonrpc = codes "jsonrpc"

unfoldable pub key_method : Bytes
key_method = codes "method"

unfoldable pub key_params : Bytes
key_params = codes "params"

unfoldable pub msg_parse_error : Bytes
msg_parse_error = codes "Parse error: Invalid JSON was received by the server."

unfoldable pub msg_invalid_id : Bytes
msg_invalid_id = codes "Invalid Request: The [id] member must be a string or an integer."

unfoldable pub msg_invalid_version : Bytes
msg_invalid_version = codes "Invalid Request: The [jsonrpc] member must be exactly [2.0]."

unfoldable pub msg_missing_method_req : Bytes
msg_missing_method_req =
    codes "Invalid Request: The [method] member is required and must be a string."

unfoldable pub msg_missing_method_ntf : Bytes
msg_missing_method_ntf = codes "Invalid Request: Invalid or missing [method]. Must be a string."

unfoldable pub msg_invalid_ntf_ver : Bytes
msg_invalid_ntf_ver = codes "Invalid Request: Invalid JSON-RPC version. Must be [2.0]."

unfoldable pub msg_invalid_params : Bytes
msg_invalid_params = codes "Invalid params: The [params] member must be an object."

unfoldable pub msg_result_without_id : Bytes
msg_result_without_id =
    codes "Invalid Response: A [result] must carry the [id] of the request it answers."

unfoldable pub msg_malformed_error : Bytes
msg_malformed_error = codes "Invalid Response: malformed [error] object."

unfoldable pub msg_exactly_one : Bytes
msg_exactly_one = codes "Invalid Response: exactly one of [result] or [error] must be present."

-- `env.raw(key)`: the token of a member, empty when absent.
unfoldable pub raw : Bytes → RawMembers → Bytes
raw key env = elim (lookup key env) [ none ↦ [] | some token ↦ token ]

-- `strictUnmarshal` into an envelope, which is nil for a null.
unfoldable pub strict_unmarshal : Bytes → Option RawMembers
strict_unmarshal s = unmarshal_members s >>= λ m. some (or_empty m)

unfoldable pub version_is_20 : Bytes → Bool
unfolding unmarshal_string equal
version_is_20 token =
    if length token == 0
    then false
    else elim (unmarshal_string token) [ none ↦ false | some s ↦ equal s version ]

unfoldable pub is_params_object : Bytes → Bool
unfolding trim valid
is_params_object token =
    let t = trim_space token in
    if first_is b'{' t
    then valid t
    else if first_is b'[' t
    then valid t && length (trim_space (slice t 1 (length t - 1))) == 0
    else false

abbrev pub string_of : Json → Option Bytes
string_of (str s) = some s
string_of null = none
string_of (bool b) = none
string_of (num token) = none
string_of (arr vs) = none
string_of (obj ms) = none

unfoldable pub string_value : Bytes → Option Bytes
unfolding unmarshal_any
string_value token = if length token == 0 then none else (unmarshal_any token >>= string_of)

-- Whether the message is a notification, or its parse error.
pub data Parsed (A : Type 0) : Type 0 where
  accepted : A → Parsed A
  refused : Error → Parsed A

unfoldable pub is_notification_bytes : Bytes → Parsed Bool
is_notification_bytes s = elim (strict_unmarshal s) [
  | none ↦ refused (new_error code_parse_error msg_parse_error)
  | some env ↦ accepted (not (has key_id env))
]

-- A request with its id, or the error with the id that the reply carries.
pub data RequestResult : Type 0 where
  request : Request → MessageId → RequestResult
  invalid : MessageId → Error → RequestResult

-- The id of an envelope; the zero `ID` where the member is absent.
abbrev pub envelope_id : RawMembers → MessageId
envelope_id env = record { raw = raw key_id env }

unfoldable pub params_refused : RawMembers → Bool
unfolding is_params_object
params_refused env = has key_params env && not (is_params_object (raw key_params env))

-- The checks behind the id.
unfoldable pub parse_request_body : RawMembers → MessageId → RequestResult
parse_request_body env id =
    if not (version_is_20 (raw key_jsonrpc env))
    then invalid id (new_error code_invalid_request msg_invalid_version)
    else elim (string_value (raw key_method env)) [
      | none ↦ invalid id (new_error code_invalid_request msg_missing_method_req)
      | some method ↦
          if params_refused env
          then invalid id (new_error code_invalid_params msg_invalid_params)
          else request
              (record { jsonrpc = version; id = id; method = method; params = raw key_params env })
              id
    ]

unfoldable pub parse_request_env : RawMembers → RequestResult
unfolding parse_request_body
parse_request_env env =
    if not (is_valid_request_id (envelope_id env))
    then invalid null_id (new_error code_invalid_request msg_invalid_id)
    else parse_request_body env (envelope_id env)

unfoldable pub parse_request : Bytes → RequestResult
parse_request s = elim (strict_unmarshal s) [
  | none ↦ invalid null_id (new_error code_parse_error msg_parse_error)
  | some env ↦ parse_request_env env
]

unfoldable pub parse_notification_env : RawMembers → Parsed Notification
parse_notification_env env =
    if not (version_is_20 (raw key_jsonrpc env))
    then refused (new_error code_invalid_request msg_invalid_ntf_ver)
    else elim (string_value (raw key_method env)) [
      | none ↦ refused (new_error code_invalid_request msg_missing_method_ntf)
      | some method ↦
          if params_refused env
          then refused (new_error code_invalid_params msg_invalid_params)
          else accepted (record { jsonrpc = version; method = method; params = raw key_params env })
    ]

unfoldable pub parse_notification : Bytes → Parsed Notification
parse_notification s = elim (strict_unmarshal s) [
  | none ↦ refused (new_error code_parse_error msg_parse_error)
  | some env ↦ parse_notification_env env
]
