-- ===== src/Server/Meta.antt =====
-- server/meta.go: the protocol metadata that a request carries in params._meta.
pub mod Validate
pub mod Checks
pub mod Inspect
pub mod Tests
use velocity_mcp.Base.{
  Bool, Option, [], false, if◌then◌else◌, length, none, not, some, true, ◌&&◌, ◌-◌, ◌==◌, ◌>>=◌,
  ◌||◌,
}
use velocity_mcp.Bytes.{Bytes, codes, equal, slice, trim}
use velocity_mcp.Assoc.{has, lookup}
use velocity_mcp.Json.{valid}
use velocity_mcp.Json.Number.{first_is}
use velocity_mcp.Json.Decode.{
  RawMembers, or_empty, unmarshal_any, unmarshal_members, unmarshal_string,
}
use velocity_mcp.Jsonrpc.{MessageId, Request, is_valid_request_id, trim_space, unmarshal_id}
use velocity_mcp.Jsonrpc.Parse.{key_id, key_method, key_params, raw, string_of}

unfoldable pub meta_key_protocol_version : Bytes
meta_key_protocol_version = codes "io.modelcontextprotocol/protocolVersion"

unfoldable pub meta_key_client_capabilities : Bytes
meta_key_client_capabilities = codes "io.modelcontextprotocol/clientCapabilities"

unfoldable pub meta_key_server_info : Bytes
meta_key_server_info = codes "io.modelcontextprotocol/serverInfo"

unfoldable pub key_meta : Bytes
key_meta = codes "_meta"

unfoldable pub key_arguments : Bytes
key_arguments = codes "arguments"

-- The params member that names a method's target; empty for a method without one.
unfoldable pub named_param_key : Bytes → Bytes
unfolding equal
named_param_key method =
    if equal method (codes "tools/call") || equal method (codes "prompts/get")
    then codes "name"
    else if equal method (codes "resources/read")
    then codes "uri"
    else []

unfoldable pub requires_protocol_meta : Bytes → Bool
unfolding equal
requires_protocol_meta method =
    equal method (codes "server/discover") || equal method (codes "subscriptions/listen")

unfoldable pub predates_protocol_meta : Bytes → Bool
unfolding equal
predates_protocol_meta method = equal method (codes "initialize")

unfoldable pub reads_argument_bag : Bytes → Bool
unfolding equal
reads_argument_bag method =
    equal method (codes "tools/call")
    || equal method (codes "prompts/get")
    || equal method (codes "resources/read")

unfoldable pub object_members : Bytes → Option RawMembers
unfolding trim unmarshal_members
object_members token =
    let trimmed = trim_space token in
    if first_is b'{' trimmed then (unmarshal_members trimmed >>= λ m. m) else none

unfoldable pub string_member : Bytes → Option Bytes
unfolding trim unmarshal_string
string_member token =
    let trimmed = trim_space token in
    if first_is b'"' trimmed then unmarshal_string trimmed else none

unfoldable pub is_object_member : Bytes → Bool
unfolding trim valid
is_object_member token =
    let t = trim_space token in
    if first_is b'{' t
    then valid t
    else if first_is b'[' t
    then valid t && length (trim_space (slice t 1 (length t - 1))) == 0
    else false

pub record MessageInfo : Type 0 where
  pub id : Bytes
  pub method : Bytes
  pub legacy : Bool
  -- `none` where the field `HasProtocolVersion` is false.
  pub protocol_version : Option Bytes
  pub name : Option Bytes
  pub requires_name : Bool

unfoldable pub meta_from_params : Option RawMembers → Option RawMembers
meta_from_params none = none
meta_from_params (some params) = lookup key_meta params >>= object_members

unfoldable pub is_legacy_meta : Option RawMembers → Bool
is_legacy_meta none = true
is_legacy_meta (some meta) =
    if has meta_key_protocol_version meta
    then false
    else not (has meta_key_client_capabilities meta)

unfoldable pub is_legacy_request : Bytes → Option RawMembers → Bool
unfolding is_legacy_meta
is_legacy_request method meta = is_legacy_meta meta && not (requires_protocol_meta method)

unfoldable pub request_meta : Request → Option RawMembers
unfolding meta_from_params
request_meta req =
    if length req.params == 0
    then none
    else (object_members req.params >>= λ params. meta_from_params (some params))

-- `meta[key]` of metadata that may be nil.
abbrev pub meta_raw : Bytes → Option RawMembers → Bytes
meta_raw key none = []
meta_raw key (some meta) = raw key meta

abbrev pub inspected_params : RawMembers → Option RawMembers
inspected_params body = lookup key_params body >>= object_members

abbrev pub inspected_name : Bytes → Option RawMembers → Option Bytes
inspected_name method params =
    if length (named_param_key method) == 0
    then none
    else string_member (meta_raw (named_param_key method) params)

-- The id of a body, if it is JSON and one that a request may have.
unfoldable pub checked_id : RawMembers → Option MessageId
checked_id body =
    let id = unmarshal_id (raw key_id body) in
    if not id.1 || not (is_valid_request_id id.0) then none else some id.0

unfoldable pub inspect_env : RawMembers → Option MessageInfo
inspect_env body = do
  id ← checked_id body
  method ← unmarshal_any (raw key_method body) >>= string_of
  let params = inspected_params body
  let meta = meta_from_params params
  some (record {
    id = id.raw;
    method = method;
    legacy = is_legacy_request method meta;
    protocol_version = string_member (meta_raw meta_key_protocol_version meta);
    name = inspected_name method params;
    requires_name = not (length (named_param_key method) == 0);
  })

unfoldable pub inspect_message : Bytes → Option MessageInfo
inspect_message s = unmarshal_members s >>= λ body. inspect_env (or_empty body)
