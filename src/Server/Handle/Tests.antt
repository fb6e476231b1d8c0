-- ===== src/Server/Handle/Tests.antt =====
-- The handling of concrete messages.
use velocity_mcp.Base.{
  Bool-cases, [], arith, inl, inr, none, none-ne-some, refl, some-eq, sym, ◌∙◌, ◌∷◌, ◌≡◌, ◌≢◌,
}
use velocity_mcp.Assoc.{lookup}
use velocity_mcp.Bytes.{Bytes, codes, equal}
use velocity_mcp.Json.Number.{non_negative}
use velocity_mcp.Jsonrpc.{Request, new_result, version}
use velocity_mcp.Server.Context.{Context, set_negotiated_version}
use velocity_mcp.Server.Protocol.{negotiate, server_supported_versions}
use velocity_mcp.Server.Initialize.{
  client_info_from_params, decode_params, initialize_method, key_initialize, map_param, ping,
}
use velocity_mcp.Server.Handle.{
  Server, apply_result_envelope, handle, handle_initialize, handle_request, handle_tool_call,
  initialize_or_default, key_tools_call, open_session, route, route_method, run_known,
}
use velocity_mcp.Server.Handle.Replies.{AllCorrelate, Correlates}
use velocity_mcp.Server.Handle.Sessions.{OpensSession, handle_request-OpensSession}
use velocity_mcp.Server.Handle.Events.{Told, handle_request-Told}
use velocity_mcp.Server.Meta.{predates_protocol_meta, reads_argument_bag}
use velocity_mcp.Server.Meta.Validate.{validate_arguments}
use velocity_mcp.Server.Meta.Tests.{checker}
use velocity_mcp.Json.Encode.{
  compact, escape_separators, insert_sorted, less, marshal_entries, marshal_members, quote,
  quote_ascii, quote_character, quote_from, quote_text, sort_keys,
}
use velocity_mcp.Server.Handle.Outcomes.{Outcome, handle-Outcome}
use velocity_mcp.Jsonrpc.Parse.Tests.{ping_message}
use velocity_mcp.Server.Results.{method_not_found, with_error}

abbrev pub test_context : Bytes → Context
test_context session = record {
  server_info = codes "{\"name\":\"demo\"}";
  capabilities = codes "{}";
  instructions = [];
  versions = server_supported_versions;
  resources = [];
  templates = [];
  max_page_size = non_negative 50;
  default_page_size = non_negative 15;
  cache_hint = none;
  method_cache_hints = [];
  session_id = session;
  negotiated = [];
}

abbrev test_server : Server
test_server = record {
  create_context = test_context;
  methods = (codes "ping", ping) ∷ [];
  next_session_id = codes "s1";
}

ping-Correlates : Correlates ping
unfolding ping new_result
ping-Correlates c req resp h = ground arith

test_server-AllCorrelate : AllCorrelate test_server.methods
unfolding lookup
test_server-AllCorrelate name m h = elim (Bool-cases (equal (codes "ping") name)) [
  | inl e ↦ let same : ping ≡ m = some-eq (rw e at h) in rw (sym same) ping-Correlates
  | inr e ↦ absurd (none-ne-some (rw e at h))
]

handle-Outcome_example : Outcome ping_message (handle test_server [] ping_message).result
handle-Outcome_example = handle-Outcome test_server [] test_server-AllCorrelate ping_message

-- Opens the routing of requests.
unfoldable pub router : Unit {0}
unfolding checker handle_request route route_method run_known handle_initialize open_session
    initialize_or_default with_error apply_result_envelope new_result predates_protocol_meta
    key_initialize key_tools_call decode_params client_info_from_params map_param method_not_found
    validate_arguments reads_argument_bag handle_tool_call negotiate initialize_method
    set_negotiated_version marshal_members marshal_entries sort_keys insert_sorted less quote
    quote_text quote_from quote_character quote_ascii compact escape_separators
router = tt

abbrev initialize_request : Request
initialize_request = record {
  jsonrpc = version;
  id = record { raw = codes "1" };
  method = codes "initialize";
  params = codes "{\"protocolVersion\":\"2025-06-18\"}";
}

session_opened : (handle_request test_server [] initialize_request).result.session_id ≡ codes "s1"
unfolding router
session_opened = refl

session_opened_ne : (handle_request test_server [] initialize_request).result.session_id ≢ []
session_opened_ne h = cc (sym session_opened ∙ h)

handle_request-OpensSession_example :
    OpensSession test_server initialize_request (handle_request test_server [] initialize_request)
handle_request-OpensSession_example =
    handle_request-OpensSession test_server [] initialize_request session_opened_ne

handle_request-Told_example :
    Told test_server [] initialize_request (handle_request test_server [] initialize_request)
handle_request-Told_example = handle_request-Told test_server [] initialize_request
