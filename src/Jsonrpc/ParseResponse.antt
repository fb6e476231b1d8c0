-- ===== src/Jsonrpc/ParseResponse.antt =====
-- jsonrpc/parse.go: ParseResponse, the reading of a reply.
pub mod Accepted
pub mod Tests
use velocity_mcp.Base.{
  Bool, List, Option, [], if◌then◌else◌, is_some, length, negsuc, none, not, pos, some, suc, zero,
  ℤ, ◌&&◌, ◌==◌, ◌>>=◌, ◌||◌, ◌∷◌,
}
use velocity_mcp.Assoc.{has}
use velocity_mcp.Bytes.{Bytes, codes, equal}
use velocity_mcp.Json.{Field, Json, arr, bool, null, num, obj, parse_fields, str}
use velocity_mcp.Json.Number.{Int64, int64, negative, non_negative}
use velocity_mcp.Json.Decode.{RawMembers, fits, same_field}
use velocity_mcp.Jsonrpc.{
  Error, Response, code_invalid_request, code_parse_error, new_error, null_id, trim_space, version,
}
use velocity_mcp.Jsonrpc.Parse.{
  Parsed, accepted, envelope_id, key_id, key_jsonrpc, msg_exactly_one, msg_invalid_version,
  msg_malformed_error, msg_parse_error, msg_result_without_id, raw, refused, strict_unmarshal,
  version_is_20,
}

unfoldable pub key_result : Bytes
key_result = codes "result"

unfoldable pub key_error : Bytes
key_error = codes "error"

abbrev int_of : Int64 → ℤ
int_of (non_negative n) = pos n
int_of (negative zero) = pos 0
int_of (negative (suc n)) = negsuc n

-- A member into the field `Code`, `Message` or `Data`; a null leaves a field that is no interface.
abbrev set_code : Error → Json → Option Error
set_code e null = some e
set_code e (num token) = int64 token >>= λ n. some (record e { code = int_of n })
set_code e (bool b) = none
set_code e (str s) = none
set_code e (arr vs) = none
set_code e (obj ms) = none

abbrev set_message : Error → Json → Option Error
set_message e null = some e
set_message e (str s) = some (record e { message = s })
set_message e (bool b) = none
set_message e (num token) = none
set_message e (arr vs) = none
set_message e (obj ms) = none

abbrev some_value : Json → Option Json
some_value null = none
some_value v = some v

abbrev set_data : Error → Json → Option Error
set_data e v = if fits v then some (record e { payload = some_value v }) else none

abbrev set_error_field : Error → Field → Option Error
set_error_field e f =
    if same_field (codes "code") f.name
    then set_code e f.val
    else if same_field (codes "message") f.name
    then set_message e f.val
    else if same_field (codes "data") f.name
    then set_data e f.val
    else some e

unfoldable pub set_error_fields : Error → List Field → Option Error
set_error_fields e [] = some e
set_error_fields e (f ∷ fs) = set_error_field e f >>= λ next. set_error_fields next fs

abbrev zero_error : Error
zero_error = record { code = pos 0; message = []; payload = none }

-- `json.Unmarshal` of a token that is no null into a `*Error`.
unfoldable pub unmarshal_error : Bytes → Option Error
unmarshal_error token = parse_fields token >>= set_error_fields zero_error

abbrev pub has_result : RawMembers → Bool
has_result env = not (length (trim_space (raw key_result env)) == 0)

-- The error of an envelope, which may be absent; `none` for one that is malformed.
unfoldable pub envelope_error : RawMembers → Option (Option Error)
unfolding equal
envelope_error env =
    let t = trim_space (raw key_error env) in
    if length t == 0 || equal t (codes "null")
    then some none
    else (unmarshal_error (raw key_error env) >>= λ e. some (some e))

-- The checks behind the error.
unfoldable pub parse_response_body : RawMembers → Option Error → Parsed Response
parse_response_body env rpc_error =
    if (has_result env && is_some rpc_error) || (not (has_result env) && not (is_some rpc_error))
    then refused (new_error code_invalid_request msg_exactly_one)
    else if has_result env && not (has key_id env)
    then refused (new_error code_invalid_request msg_result_without_id)
    else accepted (record {
      jsonrpc = version;
      id = if has key_id env then envelope_id env else null_id;
      result = raw key_result env;
      error = rpc_error;
    })

unfoldable pub parse_response_env : RawMembers → Parsed Response
parse_response_env env =
    if not (version_is_20 (raw key_jsonrpc env))
    then refused (new_error code_invalid_request msg_invalid_version)
    else elim (envelope_error env) [
      | none ↦ refused (new_error code_invalid_request msg_malformed_error)
      | some rpc_error ↦ parse_response_body env rpc_error
    ]

unfoldable pub parse_response : Bytes → Parsed Response
parse_response s = elim (strict_unmarshal s) [
  | none ↦ refused (new_error code_parse_error msg_parse_error)
  | some env ↦ parse_response_env env
]
