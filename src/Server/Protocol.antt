-- ===== src/Server/Protocol.antt =====
-- server/protocol.go, and `Initialize` of server/initialize_fallback.go: which protocol
-- versions a server speaks, and which one a handshake settles on.
pub mod Versions
pub mod Tests
use velocity_mcp.Base.{
  Bool, List, Option, [], false, if◌then◌else◌, none, not, some, true, ◌++◌, ◌∷◌,
}
use velocity_mcp.Bytes.{Bytes, codes, equal}

abbrev pub protocol_v20260728 : Bytes
protocol_v20260728 = codes "2026-07-28"

abbrev pub protocol_v20251125 : Bytes
protocol_v20251125 = codes "2025-11-25"

abbrev pub protocol_v20250618 : Bytes
protocol_v20250618 = codes "2025-06-18"

abbrev pub latest_protocol_version : Bytes
latest_protocol_version = protocol_v20260728

pub data Handshake : Type 0 where
  initialize discovery : Handshake

unfoldable pub handshake_for : Bytes → Handshake
unfolding equal
handshake_for v = if equal v protocol_v20260728 then discovery else initialize

abbrev pub server_supported_versions : List Bytes
server_supported_versions = protocol_v20260728 ∷ []

abbrev pub initialize_supported_versions : List Bytes
initialize_supported_versions = protocol_v20251125 ∷ protocol_v20250618 ∷ []

unfoldable pub contains_version : List Bytes → Bytes → Bool
contains_version [] v = false
contains_version (item ∷ list) v = if equal item v then true else contains_version list v

-- The loops of `SpokenProtocolVersions`: each version once, in order of first appearance.
unfoldable pub add_versions : List Bytes → List Bytes → List Bytes
add_versions versions [] = versions
add_versions versions (v ∷ list) =
    add_versions (if not (contains_version versions v) then versions ++ v ∷ [] else versions) list

abbrev pub default_versions : List Bytes → List Bytes
default_versions [] = server_supported_versions
default_versions (v ∷ list) = v ∷ list

unfoldable pub spoken_protocol_versions : List Bytes → List Bytes
unfolding add_versions
spoken_protocol_versions metadata =
    add_versions (add_versions [] (default_versions metadata)) initialize_supported_versions

abbrev pub first_of : List Bytes → Bytes
first_of [] = []
first_of (v ∷ versions) = v

-- The version that `Initialize` settles on for the one requested, if any.
unfoldable pub negotiate : Option Bytes → Bytes
negotiate none = first_of initialize_supported_versions
negotiate (some requested) =
    if contains_version initialize_supported_versions requested
    then requested
    else first_of initialize_supported_versions
