-- ===== src/Server/Meta/Tests.antt =====
-- Metadata at concrete inputs.
use velocity_mcp.Base.{[], false, none, refl, some, ◌↔◌, ◌≡◌, ◌⊎◌}
use velocity_mcp.Bytes.{Bytes, codes, has_prefix}
use velocity_mcp.Jsonrpc.{Request, unmarshal_id, version}
use velocity_mcp.Jsonrpc.Parse.Tests.{parser}
use velocity_mcp.Server.Protocol.{contains_version, server_supported_versions}
use velocity_mcp.Server.Meta.{
  MessageInfo, checked_id, inspect_env, inspect_message, is_legacy_meta, is_legacy_request,
  is_object_member, key_arguments, key_meta, meta_from_params, meta_key_client_capabilities,
  meta_key_protocol_version, named_param_key, object_members, request_meta, requires_protocol_meta,
  string_member,
}
use velocity_mcp.Server.Meta.Validate.{
  check_meta, check_version, missing_protocol_version_error, validate_protocol_meta,
}
use velocity_mcp.Server.Meta.Checks.{
  Declares, IsLegacy, MetaRefusal, validate_protocol_meta-MetaRefusal, validate_protocol_meta_iff,
}
use velocity_mcp.Server.Meta.Inspect.{AnsweredAs, inspect_message-AnsweredAs}

-- Opens the checks of the metadata.
unfoldable pub checker : Unit {0}
unfolding parser validate_protocol_meta check_meta check_version is_legacy_request is_legacy_meta
    request_meta meta_from_params object_members string_member is_object_member
    requires_protocol_meta contains_version inspect_message inspect_env checked_id unmarshal_id
    named_param_key key_meta meta_key_protocol_version meta_key_client_capabilities key_arguments
    has_prefix
checker = tt

abbrev discover_message : Bytes
discover_message = codes "{\"jsonrpc\":\"2.0\",\"id\":\"a\",\"method\":\"server/discover\"}"

abbrev discover_request : Request
discover_request = record {
  jsonrpc = version;
  id = record { raw = codes "\"a\"" };
  method = codes "server/discover";
  params = [];
}

discover_refused :
    validate_protocol_meta server_supported_versions discover_request
    ≡ some missing_protocol_version_error
unfolding checker
discover_refused = refl

validate_protocol_meta_iff_example :
    (validate_protocol_meta server_supported_versions discover_request ≡ none)
    ↔ (IsLegacy discover_request ⊎ Declares server_supported_versions discover_request)
validate_protocol_meta_iff_example =
    validate_protocol_meta_iff server_supported_versions discover_request

validate_protocol_meta-MetaRefusal_example :
    MetaRefusal server_supported_versions discover_request missing_protocol_version_error
validate_protocol_meta-MetaRefusal_example =
    validate_protocol_meta-MetaRefusal server_supported_versions discover_request
      missing_protocol_version_error discover_refused

abbrev discover_info : MessageInfo
discover_info = record {
  id = codes "\"a\"";
  method = codes "server/discover";
  legacy = false;
  protocol_version = none;
  name = none;
  requires_name = false;
}

discover_seen : inspect_message discover_message ≡ some discover_info
unfolding checker
discover_seen = refl

inspect_message-AnsweredAs_example : AnsweredAs discover_message discover_info
inspect_message-AnsweredAs_example =
    inspect_message-AnsweredAs discover_message discover_info discover_seen
