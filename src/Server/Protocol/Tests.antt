-- ===== src/Server/Protocol/Tests.antt =====
-- Versions at concrete inputs.
use velocity_mcp.Base.{Option, refl, some, ◌≡◌}
use velocity_mcp.Bytes.{Bytes, equal}
use velocity_mcp.Server.Protocol.{
  contains_version, negotiate, protocol_v20251125, protocol_v20260728,
}

abbrev newest : Option Bytes
newest = some protocol_v20260728

-- A version that the handshake does not offer gets the newest that it offers.
unoffered_gets_newest : negotiate newest ≡ protocol_v20251125
unfolding negotiate contains_version equal
unoffered_gets_newest = refl
