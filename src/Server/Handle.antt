-- ===== src/Server/Handle.antt =====
-- server/handle.go: the handling of one inbound message. A method handler is a function of the
-- context and the request; the events that the server dispatches are returned in order.
pub mod Replies
pub mod Outcomes
pub mod Sessions
pub mod Events
pub mod Tests
use velocity_mcp.Base.{
  Bool, List, Option, [], false, if◌then◌else◌, is_some, length, none, not, some, true, ◌&&◌, ◌==◌,
  ◌>>=◌, ◌||◌, ◌∷◌,
}
use velocity_mcp.Bytes.{Bytes, codes, equal}
use velocity_mcp.Assoc.{Assoc, lookup}
use velocity_mcp.Json.{Field, Json, bool, null, parse_fields}
use velocity_mcp.Json.Decode.{same_field}
use velocity_mcp.Jsonrpc.{Notification, Request, null_id}
use velocity_mcp.Jsonrpc.Parse.{
  Parsed, RequestResult, accepted, invalid, is_notification_bytes, parse_notification,
  parse_request, refused, request,
}
use velocity_mcp.Server.Meta.Validate.{validate_arguments, validate_protocol_meta}
use velocity_mcp.Server.Meta.{is_legacy_meta, key_arguments, predates_protocol_meta, request_meta}
use velocity_mcp.Server.Context.{Context}
use velocity_mcp.Server.Envelope.{envelope_response}
use velocity_mcp.Server.Results.{
  HandleResult, Handled, Method, Reply, method_not_found, quiet, reply_error, session_initialized,
  tool_called, tool_failed, with_error,
}
use velocity_mcp.Server.Initialize.{
  client_info_from_params, decode_params, initialize_method, key_initialize, map_param,
  string_param,
}

-- The server as `handle` reads it: the context that `createContext` makes for a session id, the
-- method table, and the session id that its generator gives next, tagged.
pub record Server : Type 0 where
  pub create_context : Bytes → Context
  pub methods : Assoc Method
  pub next_session_id : Bytes

unfoldable pub key_tools_call : Bytes
key_tools_call = codes "tools/call"

unfoldable pub initialize_or_default : Assoc Method → Method
initialize_or_default methods = elim (lookup key_initialize methods) [
  | some m ↦ m
  | none ↦ initialize_method
]

-- Whether a result carries a response that is no error.
abbrev pub succeeded : HandleResult → Bool
succeeded r = elim r.response [ none ↦ false | some resp ↦ not (is_some resp.error) ]

-- A successful handshake opens a session, and is told to the listeners.
unfoldable pub open_session : Server → Request → Context → HandleResult → Handled
open_session s req c res =
    let params = decode_params req.params in
    if succeeded res
    then record {
      result = record res { session_id = s.next_session_id };
      events =
          session_initialized s.next_session_id (client_info_from_params params) c.negotiated
            (map_param params (codes "capabilities"))
          ∷ [];
    }
    else quiet res

unfoldable pub handle_initialize : Server → Context → Request → Handled
handle_initialize s c req =
    let reply = initialize_or_default s.methods c req in
    open_session s req reply.context (with_error reply.response req.id reply.err)

abbrev set_flag : Bool → Json → Option Bool
set_flag old (bool b) = some b
set_flag old null = some old
set_flag old _ = none

unfoldable pub set_is_error : Bool → List Field → Option Bool
set_is_error old [] = some old
set_is_error old (f ∷ fs) =
    (if same_field (codes "isError") f.name then set_flag old f.val else some old) >>= λ new.
    set_is_error new fs

-- `resultIsError`: the flag of a successful response whose result is an object.
unfoldable pub result_is_error : HandleResult → Bool
result_is_error r = elim r.response [
  | none ↦ false
  | some resp ↦
      if is_some resp.error || length resp.result == 0
      then false
      else elim (parse_fields resp.result >>= set_is_error false) [
        | none ↦ false
        | some flag ↦ flag
      ]
]

-- Whether the call failed: by its error, or by an error response.
abbrev pub call_failed : Reply → HandleResult → Bool
call_failed reply res = is_some reply.err || not (succeeded res)

unfoldable pub handle_tool_call : Bytes → Context → Request → Method → Handled
handle_tool_call session c req method =
    let params = decode_params req.params in
    let tool = string_param params (codes "name") in
    let args = map_param params key_arguments in
    let reply = method c req in
    let res = with_error reply.response req.id reply.err in
    record {
      result = res;
      events =
          (if call_failed reply res
            then tool_failed session tool args reply.err
            else tool_called session tool args (result_is_error res))
          ∷ [];
    }

-- The method is known: the arguments are checked, and the handler runs.
unfoldable pub run_known : Bytes → Context → Request → Method → Handled
run_known session c req method = elim (validate_arguments req) [
  | some e ↦ quiet (reply_error req.id e)
  | none ↦
      if equal req.method key_tools_call
      then handle_tool_call session c req method
      else (let reply = method c req in quiet (with_error reply.response req.id reply.err))
]

unfoldable pub route_method : Server → Bytes → Context → Request → Handled
route_method s session c req = elim (lookup req.method s.methods) [
  | none ↦ quiet (method_not_found req)
  | some method ↦ run_known session c req method
]

unfoldable pub route : Server → Bytes → Context → Request → Handled
route s session c req =
    if equal req.method key_initialize
    then (if predates_protocol_meta req.method && not (is_legacy_meta (request_meta req))
        then quiet (method_not_found req)
        else handle_initialize s c req)
    else route_method s session c req

-- `applyResultEnvelope` of a result.
unfoldable pub apply_result_envelope : Context → Request → HandleResult → HandleResult
apply_result_envelope c req res = elim res.response [
  | none ↦ res
  | some resp ↦ record res { response = some (envelope_response c req resp) }
]

-- The request is parsed: its metadata is checked before it is routed.
unfoldable pub handle_request : Server → Bytes → Request → Handled
handle_request s session req =
    let c = s.create_context session in
    elim (validate_protocol_meta c.versions req) [
      | some e ↦ quiet (reply_error req.id e)
      | none ↦
          let routed = route s session c req in
          record routed { result = apply_result_envelope c req routed.result }
    ]

abbrev pub silent : HandleResult
silent = record { response = none; has_response = false; session_id = [] }

abbrev pub of_notification : Parsed Notification → HandleResult
of_notification (refused e) = reply_error null_id e
of_notification (accepted n) = silent

abbrev pub of_request : Server → Bytes → RequestResult → Handled
of_request s session (invalid id e) = quiet (reply_error id e)
of_request s session (request req id) = handle_request s session req

unfoldable pub handle : Server → Bytes → Bytes → Handled
handle s session message = elim (is_notification_bytes message) [
  | refused e ↦ quiet (reply_error null_id e)
  | accepted true ↦ quiet (of_notification (parse_notification message))
  | accepted false ↦ of_request s session (parse_request message)
]
