-- ===== src/Assoc.antt =====
-- Go maps keyed by strings, as association lists in which a key stands once.
pub mod Laws
use velocity_mcp.Base.{Bool, List, Option, [], if◌then◌else◌, is_some, none, some, ◌∷◌}
use velocity_mcp.Bytes.{Bytes, equal}

abbrev pub Assoc {ℓ} : Type ℓ → Type ℓ
Assoc V = List (Bytes × V)

module _ {ℓ} {V : Type ℓ} where
  -- `m[key]`; `none` for a key that is not there.
  unfoldable pub lookup : Bytes → Assoc V → Option V
  lookup key [] = none
  lookup key ((k, v) ∷ m) = if equal k key then some v else lookup key m

  -- `m[key] = v`.
  unfoldable pub insert : Bytes → V → Assoc V → Assoc V
  insert key v [] = (key, v) ∷ []
  insert key v ((k, w) ∷ m) = if equal k key then (k, v) ∷ m else (k, w) ∷ insert key v m

  abbrev pub has : Bytes → Assoc V → Bool
  has key m = is_some (lookup key m)
