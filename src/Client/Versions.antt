-- ===== src/Client/Versions.antt =====
-- client/protocol_version.go: the versions that the client speaks, and its choice among those that
-- a server offers.
pub mod Preference
pub mod Tests
use velocity_mcp.Base.{Bool, List, Option, [], if◌then◌else◌, is_some, none, some, ◌∷◌}
use velocity_mcp.Bytes.{Bytes}
use velocity_mcp.Server.Protocol.{
  contains_version, protocol_v20250618, protocol_v20251125, protocol_v20260728,
}

abbrev pub client_supported_versions : List Bytes
client_supported_versions = protocol_v20260728 ∷ protocol_v20251125 ∷ protocol_v20250618 ∷ []

-- The loops of `preferredProtocolVersion`, over the versions that the client supports.
unfoldable pub first_offered : List Bytes → List Bytes → Option Bytes
first_offered [] versions = none
first_offered (supported ∷ rest) versions =
    if contains_version versions supported then some supported else first_offered rest versions

unfoldable pub preferred_protocol_version : List Bytes → Option Bytes
preferred_protocol_version versions = first_offered client_supported_versions versions

unfoldable pub supports_protocol_version : Bytes → Bool
supports_protocol_version version = is_some (preferred_protocol_version (version ∷ []))
