-- ===== src/Client/Versions/Tests.antt =====
-- The client's versions at concrete inputs.
use velocity_mcp.Base.{List, [], refl, some, true, ◌∷◌, ◌≡◌}
use velocity_mcp.Bytes.{Bytes, equal}
use velocity_mcp.Server.Protocol.{
  contains_version, protocol_v20250618, protocol_v20251125, server_supported_versions,
  spoken_protocol_versions,
}
use velocity_mcp.Client.Versions.{
  client_supported_versions, first_offered, preferred_protocol_version,
}
use velocity_mcp.Client.Versions.Preference.{
  IsChoice, preferred_protocol_version-spoken_protocol_versions,
}

abbrev server_offer : List Bytes
server_offer = protocol_v20250618 ∷ protocol_v20251125 ∷ []

settles_on_newer : preferred_protocol_version server_offer ≡ some protocol_v20251125
unfolding preferred_protocol_version first_offered contains_version equal
settles_on_newer = refl

preferred_protocol_version-spoken_protocol_versions_example :
    (v : Bytes) × (preferred_protocol_version (spoken_protocol_versions server_supported_versions)
      ≡ some v)
    × (contains_version (spoken_protocol_versions server_supported_versions) v ≡ true)
    × IsChoice client_supported_versions
        (spoken_protocol_versions server_supported_versions)
        (some v)
preferred_protocol_version-spoken_protocol_versions_example =
    preferred_protocol_version-spoken_protocol_versions server_supported_versions
