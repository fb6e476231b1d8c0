-- ===== src/Transport/Status.antt =====
-- transport/status.go: the HTTP status of a reply.
pub mod Codes
pub mod Tests
use velocity_mcp.Base.{Bool, Option, false, if◌then◌else◌, negsuc, none, not, pos, some, ℕ, ℤ, ◌==◌}
use velocity_mcp.Bytes.{Bytes}
use velocity_mcp.Jsonrpc.{Error, Response, code_internal_error, code_method_not_found}
use velocity_mcp.Server.Meta.{inspect_message}

abbrev same_code : ℤ → ℤ → Bool
same_code (pos m) (pos n) = m == n
same_code (negsuc m) (negsuc n) = m == n
same_code (pos m) (negsuc n) = false
same_code (negsuc m) (pos n) = false

abbrev pub status_for_error : Error → ℕ
status_for_error e =
    if same_code e.code code_method_not_found
    then 404
    else if same_code e.code code_internal_error
    then 500
    else 400

unfoldable pub status_for_response : Option Response → ℕ
status_for_response none = 200
status_for_response (some resp) = elim resp.error [ none ↦ 200 | some e ↦ status_for_error e ]

unfoldable pub is_modern_request : Bytes → Bool
is_modern_request body = elim (inspect_message body) [ none ↦ false | some info ↦ not info.legacy ]

unfoldable pub reply_status : Bytes → Option Response → ℕ
reply_status body resp = if not (is_modern_request body) then 200 else status_for_response resp
