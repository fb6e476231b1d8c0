-- ===== src/Transport/HeaderValue/Literal.antt =====
-- Which values may stand in a header as they are.
use velocity_mcp.Base.{All, [], arith, length, refl, suc, true, ℕ, ◌∷◌, ◌≡◌, ◌≢◌, ◌≤◌, ◌⊎◌}
use velocity_mcp.Bytes.{Bytes}
use velocity_mcp.Bytes.Laws.{equal_ne}
use velocity_mcp.Base64
use velocity_mcp.Base64.RoundTrip.{AreVisible}
use velocity_mcp.Transport.HeaderValue.{is_literal_header_value, literal_from}

literal_from-AreVisible : (i n : ℕ) (s : Bytes) → AreVisible s → literal_from i n s ≡ true
unfolding literal_from
literal_from-AreVisible i n [] h = refl
literal_from-AreVisible i n (b ∷ s) (h, t) = ground (arith, literal_from-AreVisible (suc i) n s t)

-- Visible text is literal.
pub is_literal-AreVisible : (s : Bytes) → s ≢ [] → AreVisible s → is_literal_header_value s ≡ true
unfolding is_literal_header_value
is_literal-AreVisible s ne h = rw (equal_ne s [] ne) (literal_from-AreVisible 0 (length s) s h)

-- A literal value holds spaces, tabs and visible ASCII only, so no line break.
abbrev pub IsField : ℕ → Type 0
IsField b = (b ≡ 32) ⊎ (b ≡ 9) ⊎ ((33 ≤ b) × (b ≤ 126))

literal_from-IsField : (i n : ℕ) (s : Bytes) → literal_from i n s ≡ true → All IsField s
unfolding literal_from
literal_from-IsField i n [] h = tt
literal_from-IsField i n (b ∷ s) h = (ground arith, literal_from-IsField (suc i) n s (ground arith))

pub is_literal-IsField : (s : Bytes) → is_literal_header_value s ≡ true → All IsField s
unfolding is_literal_header_value
is_literal-IsField s h = literal_from-IsField 0 (length s) s (ground arith)

-- No break is dropped by the base64 decoder from a field value.
pub without_breaks-IsField : (s : Bytes) → All IsField s → Base64.without_breaks s ≡ s
unfolding Base64.without_breaks
without_breaks-IsField [] h = refl
without_breaks-IsField (c ∷ s) (h, t) = ground (arith, without_breaks-IsField s t)
