-- ===== src/Server/Completion.antt =====
-- server/completion.go: CompleteValues. The case folding and the prefix test of the framework are
-- parameters.
pub mod Values
pub mod Tests
use velocity_mcp.Base.{Bool, List, [], false, if◌then◌else◌, length, ltb, take, true, ℕ, ◌||◌, ◌∷◌}
use velocity_mcp.Bytes.{Bytes, equal}

abbrev pub max_completion_values : ℕ
max_completion_values = 100

pub record Completion : Type 0 where
  pub values : List Bytes
  pub total : ℕ
  pub has_more : Bool

module _ (lower : Bytes → Bytes) (starts_with : Bytes → Bytes → Bool) where
  -- Whether a candidate completes the value.
  abbrev pub completes : Bytes → Bytes → Bool
  completes value c = let prefix = lower value in equal prefix [] || starts_with (lower c) prefix

  -- The loop over the candidates.
  unfoldable pub matches : Bytes → List Bytes → List Bytes
  matches value [] = []
  matches value (c ∷ candidates) =
      let later = matches value candidates in if completes value c then c ∷ later else later

  unfoldable pub complete_values : Bytes → List Bytes → Completion
  complete_values value candidates =
      let matched = matches value candidates in
      if ltb max_completion_values (length matched)
      then record {
        values = take max_completion_values matched;
        total = length matched;
        has_more = true;
      }
      else record { values = matched; total = length matched; has_more = false }
