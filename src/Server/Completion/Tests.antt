-- ===== src/Server/Completion/Tests.antt =====
-- Completions at concrete inputs.
use velocity_mcp.Base.{List, [], refl, ◌∷◌, ◌≡◌}
use velocity_mcp.Bytes.{Bytes, codes, equal, has_prefix}
use velocity_mcp.Server.Completion.{complete_values, matches}
use velocity_mcp.Server.Completion.Values.{IsCompletion, complete_values-IsCompletion}

-- Stand-ins for the framework's functions.
abbrev test_lower : Bytes → Bytes
test_lower s = s

abbrev test_candidates : List Bytes
test_candidates = codes "ab" ∷ codes "b" ∷ codes "abc" ∷ []

completes_two :
    (complete_values test_lower has_prefix (codes "ab") test_candidates).values
    ≡ codes "ab" ∷ codes "abc" ∷ []
unfolding complete_values matches has_prefix equal
completes_two = refl

complete_values-IsCompletion_example :
    IsCompletion test_lower has_prefix
      (codes "ab")
      test_candidates
      (complete_values test_lower has_prefix (codes "ab") test_candidates)
complete_values-IsCompletion_example =
    complete_values-IsCompletion test_lower has_prefix (codes "ab") test_candidates
