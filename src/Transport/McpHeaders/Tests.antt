-- ===== src/Transport/McpHeaders/Tests.antt =====
-- Headers at concrete inputs.
use velocity_mcp.Base.{[], if◌then◌else◌, refl, ◌↔◌, ◌∷◌, ◌≡◌}
use velocity_mcp.Bytes.{codes, equal}
use velocity_mcp.Jsonrpc.{Error, code_header_mismatch, new_error}
use velocity_mcp.Jsonrpc.Parse.Tests.{ping_message}
use velocity_mcp.Server.Meta.Tests.{checker}
use velocity_mcp.Transport.HeaderValue.{is_literal_header_value, literal_from, trim_ows}
use velocity_mcp.Transport.McpHeaders.{
  Headers, check_header, check_info, handed_on, header_method, header_name, header_protocol_version,
  header_value, legacy_request, legacy_version, mirrored_header_mismatch, mismatch_message,
  refused_with, serve_legacy, stated_header, stated_protocol_version, validate_headers,
  write_header_error, write_header_mismatch,
}
use velocity_mcp.Transport.McpHeaders.Verdicts.{MayPass, validate_headers_iff}
use velocity_mcp.Transport.McpHeaders.Refusals.{IsRefused, validate_headers-IsRefused}

-- A request that states another method than its body.
abbrev pong_headers : Headers
pong_headers name = if equal name (codes "Mcp-Method") then codes " pong" ∷ [] else []

abbrev pong_error : Error
pong_error = new_error code_header_mismatch (
    codes
      "Header mismatch: The [Mcp-Method] header value [pong] does not match the request body value [ping].")

pong_refused :
    validate_headers pong_headers [] ping_message
    ≡ refused_with (record { raw = codes "7" }) pong_error
unfolding checker validate_headers check_info legacy_request legacy_version serve_legacy
    stated_protocol_version stated_header header_protocol_version header_method header_name
    mirrored_header_mismatch check_header header_value trim_ows is_literal_header_value literal_from
    mismatch_message write_header_mismatch write_header_error
pong_refused = refl

validate_headers_iff_example :
    (validate_headers pong_headers [] ping_message ≡ handed_on) ↔ MayPass pong_headers ping_message
validate_headers_iff_example = validate_headers_iff pong_headers [] ping_message

validate_headers-IsRefused_example : IsRefused ping_message (record { raw = codes "7" }) pong_error
validate_headers-IsRefused_example =
    validate_headers-IsRefused pong_headers [] ping_message (record { raw = codes "7" }) pong_error
      pong_refused
