-- ===== src/Transport/Status/Tests.antt =====
-- Status codes at concrete inputs.
use velocity_mcp.Base.{Option, [], some}
use velocity_mcp.Jsonrpc.{Response, code_internal_error, new_error_response_code, null_id}

abbrev broken : Option Response
broken = some (new_error_response_code null_id code_internal_error [])
