-- ===== src/Base64/Canonical.antt =====
-- Strict decoding accepts one spelling of each text: the encoder's.
use velocity_mcp.Base.{
  ==_iff, >>=-eq-some, Bool-cases, [], ap, arith, inl, inr, some, some-eq, subst, sym, true, ℕ, ◌%◌,
  ◌*◌, ◌++◌, ◌+◌, ◌/◌, ◌<◌, ◌==◌, ◌∙◌, ◌∷◌, ◌≡◌,
}
use velocity_mcp.Bytes.{AreBytes, Bytes}
use velocity_mcp.Base64.{
  decode_four, decode_last, decode_quads, decode_three, decode_two, encode, symbol, value,
}
use velocity_mcp.Base64.Groups.{symbol-value}

-- What a full group of characters says of the three bytes that it carries.
abbrev Carries : ℕ → ℕ → ℕ → ℕ → Bytes → Type 0
Carries a b c d g =
    (x : ℕ) × (y : ℕ) × (z : ℕ) × (g ≡ x ∷ y ∷ z ∷ [])
    × (x < 256)
    × (y < 256)
    × (z < 256)
    × (symbol (x / 4) ≡ a)
    × (symbol (x % 4 * 16 + y / 16) ≡ b)
    × (symbol (y % 16 * 4 + z / 64) ≡ c)
    × (symbol (z % 64) ≡ d)

at : (c : ℕ) {v : ℕ} (w : ℕ) → value c ≡ some v → w ≡ v → symbol w ≡ c
at c {v} w h e = ap symbol e ∙ (symbol-value c v h).1

decode_four-Carries : (a b c d : ℕ) (g : Bytes) → decode_four a b c d ≡ some g → Carries a b c d g
unfolding decode_four
decode_four-Carries a b c d g h =
    let (x, hx, h1) = >>=-eq-some (value a) _ h in
    let (y, hy, h2) = >>=-eq-some (value b) _ h1 in
    let (z, hz, h3) = >>=-eq-some (value c) _ h2 in
    let (w, hw, h4) = >>=-eq-some (value d) _ h3 in
    let px = (symbol-value a x hx).0 in
    let py = (symbol-value b y hy).0 in
    let pz = (symbol-value c z hz).0 in
    let pw = (symbol-value d w hw).0 in
    (
      x * 4 + y / 16,
      y % 16 * 16 + z / 4,
      z % 4 * 64 + w,
      sym (some-eq h4),
      omega arith,
      omega arith,
      omega arith,
      at a _ hx (omega arith),
      at b _ hy (omega arith),
      at c _ hz (omega arith),
      at d _ hw (omega arith),
    )

decode_three-encode :
    (a b c : ℕ) (g : Bytes)
    → decode_three true a b c ≡ some g
    → (encode g ≡ a ∷ b ∷ c ∷ b'=' ∷ []) × AreBytes g
unfolding decode_three encode
decode_three-encode a b c g h =
    let (x, hx, h1) = >>=-eq-some (value a) _ h in
    let (y, hy, h2) = >>=-eq-some (value b) _ h1 in
    let (z, hz, h3) = >>=-eq-some (value c) _ h2 in
    let px = (symbol-value a x hx).0 in
    let py = (symbol-value b y hy).0 in
    let pz = (symbol-value c z hz).0 in
    elim (Bool-cases (z % 4 == 0)) [
      | inl e ↦
          let low : z % 4 ≡ 0 = (==_iff _ _).0 e in
          let r : some ((x * 4 + y / 16) ∷ (y % 16 * 16 + z / 4) ∷ []) ≡ some g = rw e at h3 in
          subst (λ t. (encode t ≡ a ∷ b ∷ c ∷ b'=' ∷ []) × AreBytes t) (some-eq r)
            (
              cc (
                at a (((x * 4 + y / 16)) / 4) hx (omega arith),
                at b ((x * 4 + y / 16) % 4 * 16 + (y % 16 * 16 + z / 4) / 16) hy (omega arith),
                at c ((y % 16 * 16 + z / 4) % 16 * 4) hz (omega arith),
              ),
              (omega arith, (omega arith, tt)),
            )
      | inr e ↦ absurd (ground (arith, h3))
    ]

decode_two-encode :
    (a b : ℕ) (g : Bytes)
    → decode_two true a b ≡ some g
    → (encode g ≡ a ∷ b ∷ b'=' ∷ b'=' ∷ []) × AreBytes g
unfolding decode_two encode
decode_two-encode a b g h =
    let (x, hx, h1) = >>=-eq-some (value a) _ h in
    let (y, hy, h2) = >>=-eq-some (value b) _ h1 in
    let px = (symbol-value a x hx).0 in
    let py = (symbol-value b y hy).0 in
    elim (Bool-cases (y % 16 == 0)) [
      | inl e ↦
          let low : y % 16 ≡ 0 = (==_iff _ _).0 e in
          let r : some ((x * 4 + y / 16) ∷ []) ≡ some g = rw e at h2 in
          subst (λ t. (encode t ≡ a ∷ b ∷ b'=' ∷ b'=' ∷ []) × AreBytes t) (some-eq r)
            (
              cc (
                at a ((x * 4 + y / 16) / 4) hx (omega arith),
                at b ((x * 4 + y / 16) % 4 * 16) hy (omega arith),
              ),
              (omega arith, tt),
            )
      | inr e ↦ absurd (ground (arith, h2))
    ]

decode_last-encode :
    (a b c : ℕ) (s g : Bytes)
    → decode_last true a b c s ≡ some g
    → (encode g ≡ a ∷ b ∷ c ∷ b'=' ∷ s) × AreBytes g
unfolding decode_last
decode_last-encode a b c [] g h = elim (Bool-cases (c == b'=')) [
  | inl e ↦ let pad : c ≡ b'=' = (==_iff _ _).0 e in rw pad (decode_two-encode a b g (rw e at h))
  | inr e ↦ decode_three-encode a b c g (rw e at h)
]
decode_last-encode a b c (d ∷ s) g h = cc

pub encode-decode_quads : (s g : Bytes) → decode_quads true s ≡ some g → (encode g ≡ s) × AreBytes g
unfolding decode_quads encode
encode-decode_quads [] g h = (ground arith, ground arith)
encode-decode_quads (a ∷ []) g h = cc
encode-decode_quads (a ∷ b ∷ []) g h = cc
encode-decode_quads (a ∷ b ∷ c ∷ []) g h = cc
encode-decode_quads (a ∷ b ∷ c ∷ d ∷ s) g h = elim (Bool-cases (d == b'=')) [
  | inl e ↦
      let pad : d ≡ b'=' = (==_iff _ _).0 e in rw pad (decode_last-encode a b c s g (rw e at h))
  | inr e ↦
      let (q, hq, h1) = >>=-eq-some (decode_four a b c d) _ (rw e at h) in
      let (r, hr, h2) = >>=-eq-some (decode_quads true s) _ h1 in
      let (x, y, z, eq, px, py, pz, ea, eb, ec, ed) = decode_four-Carries a b c d q hq in
      let (later, bytes) = encode-decode_quads s r hr in
      let whole : x ∷ y ∷ z ∷ r ≡ g = ap (λ t. t ++ r) (sym eq) ∙ some-eq h2 in
      subst (λ t. (encode t ≡ a ∷ b ∷ c ∷ d ∷ s) × AreBytes t) whole
        (cc (ea, eb, ec, ed, later), (px, (py, (pz, bytes))))
]
