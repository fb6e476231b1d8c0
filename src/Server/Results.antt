-- ===== src/Server/Results.antt =====
-- server/handle.go: the result of a message, and the events of the package event.
use velocity_mcp.Base.{Bool, List, Option, [], none, some, true, ◌++◌}
use velocity_mcp.Bytes.{Bytes, codes}
use velocity_mcp.Json.{Members}
use velocity_mcp.Jsonrpc.{
  Error, MessageId, Request, Response, code_internal_error, code_method_not_found,
  new_error_response, new_error_response_code, new_result,
}
use velocity_mcp.Server.Context.{Context}

-- The error of a handler: one that holds a `*jsonrpc.Error`, or any other.
pub data Failure : Type 0 where
  rpc : Error → Failure
  other : Failure

-- What a handler leaves: the context, its response, which may be nil, and its error.
pub record Reply : Type 0 where
  pub context : Context
  pub response : Option Response
  pub err : Option Failure

abbrev pub Method : Type 0
Method = Context → Request → Reply

pub record HandleResult : Type 0 where
  pub response : Option Response
  pub has_response : Bool
  pub session_id : Bytes

pub record ClientInfo : Type 0 where
  pub name : Bytes
  pub title : Bytes
  pub version : Bytes

-- The events of the package event, less the duration of a call.
pub data Event : Type 0 where
  session_initialized : Bytes → Option ClientInfo → Bytes → Option Members → Event
  tool_called : Bytes → Bytes → Option Members → Bool → Event
  tool_failed : Bytes → Bytes → Option Members → Option Failure → Event

pub record Handled : Type 0 where
  pub result : HandleResult
  pub events : List Event

unfoldable pub internal_error_message : Bytes
internal_error_message = codes "Something went wrong while processing the request."

abbrev pub reply_with : Response → HandleResult
reply_with resp = record { response = some resp; has_response = true; session_id = [] }

abbrev pub reply_error : MessageId → Error → HandleResult
reply_error id e = reply_with (new_error_response id e)

abbrev pub quiet : HandleResult → Handled
quiet r = record { result = r; events = [] }

unfoldable pub method_not_found_message : Bytes → Bytes
method_not_found_message method = codes "The method [" ++ (method ++ codes "] was not found.")

unfoldable pub method_not_found : Request → HandleResult
method_not_found req =
    reply_with
      (new_error_response_code req.id code_method_not_found (method_not_found_message req.method))

-- `HandleResult{Response: resp, HasResponse: true}.withError(id, err)`.
unfoldable pub with_error : Option Response → MessageId → Option Failure → HandleResult
with_error (some resp) id none = reply_with resp
with_error none id none = reply_with (new_result id [])
with_error resp id (some (rpc e)) = reply_error id e
with_error resp id (some other) =
    reply_with (new_error_response_code id code_internal_error internal_error_message)
