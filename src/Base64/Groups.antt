-- ===== src/Base64/Groups.antt =====
-- The alphabet, and the groups of up to three bytes that four characters carry.
use velocity_mcp.Base.{
  Bool, [], arith, false, none, refl, some, ℕ, ◌%◌, ◌*◌, ◌+◌, ◌/◌, ◌<◌, ◌==◌, ◌∷◌, ◌≡◌, ◌≤◌,
}
use velocity_mcp.Base64.{decode_four, decode_three, decode_two, symbol, value}

value-symbol : (v : ℕ) → v < 64 → value (symbol v) ≡ some v
unfolding value symbol
value-symbol v h = ground arith

pub symbol_bounds : (v : ℕ) → (33 ≤ symbol v) × (symbol v ≤ 126)
unfolding symbol
symbol_bounds v = ground arith

pub symbol-ne-pad : (v : ℕ) → v < 64 → (symbol v == b'=') ≡ false
unfolding symbol
symbol-ne-pad v h = ground arith

value-pad : value b'=' ≡ none
unfolding value
value-pad = refl

-- A character stands for one value only.
pub symbol-value : (c v : ℕ) → value c ≡ some v → (v < 64) × (symbol v ≡ c)
unfolding value symbol
symbol-value c v h = ground arith

pub decode_four-symbol :
    (a b c : ℕ)
    → a < 256
    → b < 256
    → c < 256
    → decode_four
        (symbol (a / 4))
        (symbol (a % 4 * 16 + b / 16))
        (symbol (b % 16 * 4 + c / 64))
        (symbol (c % 64))
      ≡ some (a ∷ b ∷ c ∷ [])
unfolding decode_four
decode_four-symbol a b c p q r =
    rw
      (
        value-symbol (a / 4) (omega arith),
        value-symbol (a % 4 * 16 + b / 16) (omega arith),
        value-symbol (b % 16 * 4 + c / 64) (omega arith),
        value-symbol (c % 64) (omega arith),
      )
      (ground arith)

pub decode_three-symbol :
    (strict : Bool) (a b : ℕ)
    → a < 256
    → b < 256
    → decode_three strict (symbol (a / 4)) (symbol (a % 4 * 16 + b / 16)) (symbol (b % 16 * 4))
      ≡ some (a ∷ b ∷ [])
unfolding decode_three
decode_three-symbol strict a b p q =
    rw
      (
        value-symbol (a / 4) (omega arith),
        value-symbol (a % 4 * 16 + b / 16) (omega arith),
        value-symbol (b % 16 * 4) (omega arith),
      )
      (ground arith)

pub decode_two-symbol :
    (strict : Bool) (a : ℕ)
    → a < 256
    → decode_two strict (symbol (a / 4)) (symbol (a % 4 * 16)) ≡ some (a ∷ [])
unfolding decode_two
decode_two-symbol strict a p =
    rw (value-symbol (a / 4) (omega arith), value-symbol (a % 4 * 16) (omega arith)) (ground arith)
