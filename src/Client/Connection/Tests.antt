-- ===== src/Client/Connection/Tests.antt =====
-- The connection of an exchange, at a concrete input.
use velocity_mcp.Json.{end}
use velocity_mcp.Client.Connection.{new_protocol, standing_connection}
use velocity_mcp.Base.{List, [], arith, false, false-ne-true, refl, ◌==◌, ◌∷◌, ◌≡◌}
use velocity_mcp.Bytes.{Bytes, codes}
use velocity_mcp.Client.Act.{Post}
use velocity_mcp.Client.Connection.Standing.{Stands, standing_connection-Stands}
use velocity_mcp.Client.Protocol.{Protocol}
use velocity_mcp.Client.Protocol.Tests.{script}
use velocity_mcp.Client.Connection.Sound.{Good}

abbrev offline : Protocol (List Bytes)
offline = new_protocol (
    codes
      "{\"jsonrpc\":\"2.0\",\"id\":1,\"result\":{\"supportedVersions\":[\"2026-07-28\"],\"capabilities\":{},\"serverInfo\":{\"name\":\"s\",\"version\":\"1\"}}}"
    ∷ [])

offline-Good : Good 64 script end offline.link offline
unfolding new_protocol
offline-Good = record {
  sound = record { idle = refl; stands = λ on. absurd (false-ne-true on) };
  follows = record { counts = omega arith; same = λ on. absurd (false-ne-true on) };
}

standing_connection-Stands_example :
    Post
      (λ c q. Stands 64 script end offline.link 0 c q × ((0 == 0) ≡ false → c.authorization ≡ 0))
      (Good 64 script end offline.link)
      (standing_connection 64 script end 0 offline)
standing_connection-Stands_example =
    standing_connection-Stands 64 script end offline.link 0 offline offline-Good
