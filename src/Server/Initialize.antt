-- ===== src/Server/Initialize.antt =====
-- server/handle.go, server/initialize_fallback.go and server/methods/initialize.go: the params of a
-- request, and the handlers of `initialize` and `ping`.
use velocity_mcp.Base.{Option, [], if◌then◌else◌, length, none, some, ◌==◌, ◌>>=◌}
use velocity_mcp.Bytes.{Bytes, codes}
use velocity_mcp.Assoc.{insert}
use velocity_mcp.Json.{Json, Members, end, find, obj}
use velocity_mcp.Json.Decode.{unmarshal_any}
use velocity_mcp.Json.Encode.{marshal_members, quote}
use velocity_mcp.Jsonrpc.{new_result}
use velocity_mcp.Jsonrpc.Parse.{string_of}
use velocity_mcp.Server.Protocol.{negotiate}
use velocity_mcp.Server.Context.{set_negotiated_version}
use velocity_mcp.Server.Results.{ClientInfo, Method, other}

unfoldable pub key_initialize : Bytes
key_initialize = codes "initialize"

abbrev members_or_end : Option Json → Members
members_or_end (some (obj ms)) = ms
members_or_end _ = end

-- `decodeParams`: no members where the params are absent or no object.
unfoldable pub decode_params : Bytes → Members
decode_params token = if length token == 0 then end else members_or_end (unmarshal_any token)

unfoldable pub string_param : Members → Bytes → Bytes
string_param params key = elim (find key params >>= string_of) [ none ↦ [] | some s ↦ s ]

abbrev object_of : Json → Option Members
object_of (obj ms) = some ms
object_of _ = none

unfoldable pub map_param : Members → Bytes → Option Members
map_param params key = find key params >>= object_of

unfoldable pub client_info_from_params : Members → Option ClientInfo
client_info_from_params params = map_param params (codes "clientInfo") >>= λ info. some (record {
  name = string_param info (codes "name");
  title = string_param info (codes "title");
  version = string_param info (codes "version");
})

-- `Initialize`, the handler of the handshake.
unfoldable pub initialize_method : Method
initialize_method c req =
    let negotiated =
      negotiate (find (codes "protocolVersion") (decode_params req.params) >>= string_of) in
    let result = insert (codes "protocolVersion") (quote negotiated) (
      insert (codes "capabilities") c.capabilities (
        insert (codes "serverInfo") c.server_info
          (insert (codes "instructions") (quote c.instructions) []))) in
    elim (marshal_members result) [
      | none ↦ record {
        context = set_negotiated_version negotiated c;
        response = none;
        err = some other;
      }
      | some bytes ↦ record {
        context = set_negotiated_version negotiated c;
        response = some (new_result req.id bytes);
        err = none;
      }
    ]

-- `Ping`: an empty result object.
unfoldable pub ping : Method
ping c req = record { context = c; response = some (new_result req.id (codes "{}")); err = none }
