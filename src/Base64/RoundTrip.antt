-- ===== src/Base64/RoundTrip.antt =====
-- Decoding what was encoded.
use velocity_mcp.Base.{All, Bool, [], arith, refl, some, ℕ, ◌%◌, ◌*◌, ◌+◌, ◌/◌, ◌∷◌, ◌≡◌, ◌≤◌}
use velocity_mcp.Bytes.{AreBytes, Bytes}
use velocity_mcp.Base64.{decode, decode_quads, encode, without_breaks}
use velocity_mcp.Base64.Groups.{
  decode_four-symbol, decode_three-symbol, decode_two-symbol, symbol-ne-pad, symbol_bounds,
}

-- Every character of an encoded text is visible ASCII.
abbrev pub AreVisible : Bytes → Type 0
AreVisible = All (λ c. (33 ≤ c) × (c ≤ 126))

pub encode-AreVisible : (s : Bytes) → AreVisible (encode s)
unfolding encode
encode-AreVisible [] = tt
encode-AreVisible (a ∷ []) = omega (arith, symbol_bounds)
encode-AreVisible (a ∷ b ∷ []) = omega (arith, symbol_bounds)
encode-AreVisible (a ∷ b ∷ c ∷ s) =
    let v = λ (x : ℕ). symbol_bounds x in
    (
      v (a / 4),
      (v (a % 4 * 16 + b / 16), (v (b % 16 * 4 + c / 64), (v (c % 64), encode-AreVisible s))),
    )

decode_quads-encode :
    (strict : Bool) (s : Bytes) → AreBytes s → decode_quads strict (encode s) ≡ some s
unfolding decode_quads encode
decode_quads-encode strict [] h = refl
decode_quads-encode strict (a ∷ []) (p, h) = decode_two-symbol strict a p
decode_quads-encode strict (a ∷ b ∷ []) (p, (q, h)) =
    rw (symbol-ne-pad (b % 16 * 4) (omega arith)) (decode_three-symbol strict a b p q)
decode_quads-encode strict (a ∷ b ∷ c ∷ s) (p, (q, (r, h))) = rw (
  symbol-ne-pad (c % 64) (omega arith),
  decode_four-symbol a b c p q r,
  decode_quads-encode strict s h,
)

without_breaks-visible : (s : Bytes) → AreVisible s → without_breaks s ≡ s
unfolding without_breaks
without_breaks-visible [] h = refl
without_breaks-visible (c ∷ s) h = ground (arith, without_breaks-visible s)

pub decode-encode : (strict : Bool) (s : Bytes) → AreBytes s → decode strict (encode s) ≡ some s
unfolding decode
decode-encode strict s h =
    rw (without_breaks-visible (encode s) (encode-AreVisible s)) (decode_quads-encode strict s h)
