-- ===== src/Server/Meta/Validate.antt =====
-- server/meta.go: what a request of the stateless protocol must state.
use velocity_mcp.Base.{
  List, Option, [], if◌then◌else◌, length, none, not, some, ◌++◌, ◌==◌, ◌>>=◌, ◌||◌, ◌∷◌,
}
use velocity_mcp.Bytes.{Bytes, codes}
use velocity_mcp.Assoc.{lookup}
use velocity_mcp.Json.{Items, arr, cons, end, member, nil, obj, str}
use velocity_mcp.Json.Decode.{RawMembers}
use velocity_mcp.Jsonrpc.{
  Error, Request, code_invalid_params, code_unsupported_protocol_version, new_error, with_data,
}
use velocity_mcp.Jsonrpc.Parse.{raw}
use velocity_mcp.Server.Protocol.{
  contains_version, initialize_supported_versions, spoken_protocol_versions,
}
use velocity_mcp.Server.Meta.{
  is_legacy_request, is_object_member, key_arguments, meta_key_client_capabilities,
  meta_key_protocol_version, meta_raw, object_members, reads_argument_bag, request_meta,
  string_member,
}

unfoldable pub msg_unsupported_version : Bytes
msg_unsupported_version = codes "Unsupported protocol version"

unfoldable pub msg_invalid_arguments : Bytes
msg_invalid_arguments = codes "Invalid params: The [arguments] member must be an object."

unfoldable pub missing_meta_message : Bytes → Bytes
missing_meta_message key =
    codes "Invalid params: The request [_meta] is missing the required ["
    ++ (key ++ codes "] member.")

unfoldable pub handshake_version_in_meta_message : Bytes → Bytes
handshake_version_in_meta_message v =
    codes "Invalid params: The protocol version ["
    ++ (v
        ++ (codes "] is negotiated by the initialize handshake and cannot be declared in ["
            ++ (meta_key_protocol_version ++ codes "].")))

unfoldable pub strings : List Bytes → Items
strings [] = nil
strings (v ∷ vs) = cons (str v) (strings vs)

unfoldable pub unsupported_protocol_version_error : List Bytes → Bytes → Error
unsupported_protocol_version_error metadata requested =
    with_data (new_error code_unsupported_protocol_version msg_unsupported_version) (
      obj (
        member (codes "supported") (arr (strings (spoken_protocol_versions metadata)))
          (member (codes "requested") (str requested) end)))

unfoldable pub missing_protocol_version_error : Error
missing_protocol_version_error =
    new_error code_invalid_params (missing_meta_message meta_key_protocol_version)

-- The switch of `validateProtocolMeta` on a stated version.
unfoldable pub check_version : List Bytes → Bytes → Option Error
check_version versions requested =
    if contains_version versions requested
    then none
    else if contains_version initialize_supported_versions requested
    then some (new_error code_invalid_params (handshake_version_in_meta_message requested))
    else some (unsupported_protocol_version_error versions requested)

unfoldable pub check_meta : List Bytes → Option RawMembers → Option Error
check_meta versions meta = elim (string_member (meta_raw meta_key_protocol_version meta)) [
  | none ↦ some missing_protocol_version_error
  | some requested ↦
      if not (is_object_member (meta_raw meta_key_client_capabilities meta))
      then some (new_error code_invalid_params (missing_meta_message meta_key_client_capabilities))
      else check_version versions requested
]

-- `validateProtocolMeta`, by the versions that the server accepts: `none` is no error.
unfoldable pub validate_protocol_meta : List Bytes → Request → Option Error
validate_protocol_meta versions req =
    let meta = request_meta req in
    if is_legacy_request req.method meta then none else check_meta versions meta

unfoldable pub request_protocol_version : Request → Option Bytes
request_protocol_version req =
    request_meta req >>= λ meta. string_member (raw meta_key_protocol_version meta)

abbrev arguments_error : Option Bytes → Option Error
arguments_error none = none
arguments_error (some value) =
    if is_object_member value
    then none
    else some (new_error code_invalid_params msg_invalid_arguments)

unfoldable pub validate_arguments : Request → Option Error
validate_arguments req =
    if not (reads_argument_bag req.method) || length req.params == 0
    then none
    else elim (object_members req.params) [
      | none ↦ none
      | some params ↦ arguments_error (lookup key_arguments params)
    ]
