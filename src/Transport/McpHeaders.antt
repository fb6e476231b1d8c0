-- ===== src/Transport/McpHeaders.antt =====
-- transport/mcp_headers.go: the request headers that mirror the JSON-RPC body. The framework's
-- request is seen as the lines that it states for a header; reading the body, its size limit and
-- the content type are the framework's.
pub mod Mirrors
pub mod Verdicts
pub mod Refusals
pub mod Tests
use velocity_mcp.Base.{
  Bool, List, Option, [], false, if◌then◌else◌, none, not, some, true, ◌&&◌, ◌++◌, ◌∷◌,
}
use velocity_mcp.Bytes.{Bytes, codes, equal}
use velocity_mcp.Jsonrpc.{
  Error, MessageId, code_header_mismatch, is_valid_request_id, new_error, null_id, unmarshal_id,
}
use velocity_mcp.Server.Protocol.{
  contains_version, initialize_supported_versions, server_supported_versions,
}
use velocity_mcp.Server.Meta.{MessageInfo, inspect_message}
use velocity_mcp.Server.Meta.Validate.{
  missing_protocol_version_error, unsupported_protocol_version_error,
}
use velocity_mcp.Transport.HeaderValue.{
  Decoded, decode_header_value, encoding, err, is_literal_header_value, ok, syntax, trim_ows,
}

-- `Header.Values`: the lines that a request states for a header, in order.
abbrev pub Headers : Type 0
Headers = Bytes → List Bytes

unfoldable pub header_protocol_version : Bytes
header_protocol_version = codes "MCP-Protocol-Version"

unfoldable pub header_method : Bytes
header_method = codes "Mcp-Method"

unfoldable pub header_name : Bytes
header_name = codes "Mcp-Name"

-- A value, or the complaint about it.
pub data Reading : Type 0 where
  reads complains : Bytes → Reading

unfoldable pub malformed_header_message : Bytes → Bytes → Bytes
malformed_header_message name fault =
    codes "Header mismatch: The [" ++ (name ++ (codes "] header value " ++ (fault ++ codes ".")))

unfoldable pub repeated_message : Bytes → Bytes
repeated_message name =
    codes "Header mismatch: The [" ++ (name ++ codes "] header is stated more than once.")

unfoldable pub required_message : Bytes → Bytes
required_message name = codes "Header mismatch: The [" ++ (name ++ codes "] header is required.")

unfoldable pub mismatch_message : Bytes → Bytes → Bytes → Bytes
mismatch_message name value expected =
    codes "Header mismatch: The ["
    ++ (name
        ++ (codes "] header value ["
            ++ (value
                ++ (codes "] does not match the request body value ["
                    ++ (expected ++ codes "].")))))

abbrev pub single_line : Bytes → List Bytes → Reading
single_line name [] = reads []
single_line name (line ∷ []) = reads (trim_ows line)
single_line name (line ∷ next ∷ lines) = complains (repeated_message name)

unfoldable pub stated_header : Headers → Bytes → Reading
stated_header h name = single_line name (h name)

abbrev pub of_decoded : Bytes → Decoded → Reading
of_decoded name (ok decoded) = reads decoded
of_decoded name (err encoding) =
    complains
      (malformed_header_message name (codes "declares a base64 encoding that does not decode"))
of_decoded name (err syntax) =
    complains (malformed_header_message name (codes "is not a valid header value"))

unfoldable pub header_value : Bytes → Bytes → Bool → Reading
header_value name value decode =
    if not decode
    then (if not (is_literal_header_value value)
        then complains (malformed_header_message name (codes "is not a valid header value"))
        else reads value)
    else of_decoded name (decode_header_value value)

-- The comparison with the body's value, if it states one.
abbrev pub compare_value : Bytes → Option Bytes → Bytes → Option Bytes
compare_value name none value = none
compare_value name (some expected) value =
    if equal value expected then none else some (mismatch_message name value expected)

abbrev pub check_read : Bytes → Option Bytes → Reading → Option Bytes
check_read name expected (complains message) = some message
check_read name expected (reads value) = compare_value name expected value

abbrev pub check_stated : Bytes → Option Bytes → Bool → Bool → Reading → Option Bytes
check_stated name expected required decode (complains message) = some message
check_stated name expected required decode (reads value) =
    if equal value []
    then (if required then some (required_message name) else none)
    else check_read name expected (header_value name value decode)

-- `checkHeader`: the complaint, if any. The body's value is `none` where it states none.
unfoldable pub check_header : Headers → Bytes → Option Bytes → Bool → Bool → Option Bytes
check_header h name expected required decode =
    check_stated name expected required decode (stated_header h name)

unfoldable pub mirrored_header_mismatch : Headers → MessageInfo → Bool → Option Bytes
mirrored_header_mismatch h info required =
    elim (check_header h header_method (some info.method) required false) [
      | some m ↦ some m
      | none ↦ check_header h header_name info.name (required && info.requires_name) true
    ]

unfoldable pub header_mismatch : Headers → MessageInfo → Option Bytes
header_mismatch h info =
    elim (check_header h header_protocol_version info.protocol_version true false) [
      | some m ↦ some m
      | none ↦ mirrored_header_mismatch h info true
    ]

abbrev pub value_of_stated : Reading → Reading
value_of_stated (complains message) = complains message
value_of_stated (reads value) =
    if equal value [] then reads [] else header_value header_protocol_version value false

unfoldable pub stated_protocol_version : Headers → Reading
stated_protocol_version h = value_of_stated (stated_header h header_protocol_version)

abbrev pub metadata_protocol_versions : List Bytes → List Bytes
metadata_protocol_versions [] = server_supported_versions
metadata_protocol_versions (v ∷ versions) = v ∷ versions

-- The middleware hands the request on, or answers it with HTTP 400 and an error.
pub data Verdict : Type 0 where
  handed_on : Verdict
  refused_with : MessageId → Error → Verdict

unfoldable pub write_header_error : Bytes → Error → Verdict
write_header_error raw_id e =
    let echoed = unmarshal_id raw_id in
    if echoed.1 && is_valid_request_id echoed.0
    then refused_with echoed.0 e
    else refused_with null_id e

unfoldable pub write_header_mismatch : Bytes → Bytes → Verdict
write_header_mismatch raw_id message =
    write_header_error raw_id (new_error code_header_mismatch message)

unfoldable pub serve_legacy : Headers → MessageInfo → Verdict
serve_legacy h info = elim (mirrored_header_mismatch h info false) [
  | some message ↦ write_header_mismatch info.id message
  | none ↦ handed_on
]

-- The switch on the version that the header declares.
unfoldable pub legacy_version : Headers → List Bytes → MessageInfo → Bytes → Verdict
legacy_version h versions info declared =
    if equal declared []
    then serve_legacy h info
    else if contains_version initialize_supported_versions declared
    then serve_legacy h info
    else if contains_version (metadata_protocol_versions versions) declared
    then elim (mirrored_header_mismatch h info true) [
      | some message ↦ write_header_mismatch info.id message
      | none ↦ write_header_error info.id missing_protocol_version_error
    ]
    else write_header_error info.id
        (unsupported_protocol_version_error (metadata_protocol_versions versions) declared)

unfoldable pub legacy_request : Headers → List Bytes → MessageInfo → Verdict
legacy_request h versions info = elim (stated_protocol_version h) [
  | complains message ↦ write_header_mismatch info.id message
  | reads declared ↦ legacy_version h versions info declared
]

-- A request with metadata.
unfoldable pub modern_request : Headers → MessageInfo → Verdict
modern_request h info = elim (header_mismatch h info) [
  | some message ↦ write_header_mismatch info.id message
  | none ↦ handed_on
]

unfoldable pub check_info : Headers → List Bytes → MessageInfo → Verdict
check_info h versions info =
    if info.legacy then legacy_request h versions info else modern_request h info

-- `ValidateHeaders`, by the versions of the options and the body.
unfoldable pub validate_headers : Headers → List Bytes → Bytes → Verdict
validate_headers h versions body = elim (inspect_message body) [
  | none ↦ handed_on
  | some info ↦ check_info h versions info
]
