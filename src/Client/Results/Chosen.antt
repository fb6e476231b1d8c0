-- ===== src/Client/Results/Chosen.antt =====
-- The version that an accepted result of initialize states.
use velocity_mcp.Base.{>>=-eq-some, Bool-cases, inl, inr, none-ne-some, some, some-eq, true, ◌≡◌}
use velocity_mcp.Bytes.{Bytes}
use velocity_mcp.Client.Results.{
  InitializeResult, parse_initialize_result, stated_initialize_result, supported_only,
  supports_initialize_version,
}

pub parse_initialize_result-version :
    (raw : Bytes) (r : InitializeResult)
    → parse_initialize_result raw ≡ some r
    → supports_initialize_version r.protocol_version ≡ true
unfolding parse_initialize_result
parse_initialize_result-version raw r h =
    let (s, _, chosen) = >>=-eq-some (stated_initialize_result raw) supported_only h in
    elim (Bool-cases (supports_initialize_version s.protocol_version)) [
      | inl e ↦ rw (← some-eq (rw e at chosen)) e
      | inr e ↦ absurd (none-ne-some (rw e at chosen))
    ]
