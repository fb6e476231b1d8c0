-- ===== src/Json/ScalarShrinks.antt =====
-- Literals, words and numbers consume text.
use velocity_mcp.Base.{
  >>=-eq-some, Bool, Bool-cases, [], ap, arith, drop, false, if◌then◌else◌, inl, inr, length,
  length-drop, none, none-ne-some, refl, some, some-eq, suc, true, ℕ, ◌&&◌, ◌+◌, ◌<◌, ◌==◌, ◌||◌,
  ◌∷◌, ◌≡◌, ◌≤◌,
}
use velocity_mcp.Bytes.{Bytes, codes, equal, has_prefix}
use velocity_mcp.Json.{
  Json, Reader, bool, null, num, read_field, read_scalar, read_text, read_word, skip_space, str,
}
use velocity_mcp.Json.Number.{exponent, first_is, fraction, number, some_digits, span_digits}
use velocity_mcp.Json.Text.{Mode, is_plain, literal, next_mode, plain, unquote}
use velocity_mcp.Json.Shrinks.{Shrinks, drop_le, mapped-short, skip_space_le}

literal-short : (m : Mode) → Shrinks (literal m)
unfolding literal
literal-short m [] r h = absurd (none-ne-some h)
literal-short m (c ∷ s) r h = elim (Bool-cases (is_plain m && c == b'"')) [
  | inl e ↦
      let same : s ≡ r.1 = ap (λ p. p.1) (some-eq (rw e at h)) in omega (arith, ap length same)
  | inr e ↦
      let (next, f, k) = >>=-eq-some (next_mode m c) _ (rw e at h) in
      mapped-short (literal next s) (λ t. c ∷ t) (suc (length s)) r
        (λ q g. let short = literal-short next s q g in omega arith) k
]

read_text-Shrinks : Shrinks read_text
unfolding read_text
read_text-Shrinks s r h = elim (Bool-cases (first_is b'"' s)) [
  | inr e ↦ absurd (none-ne-some (rw e at h))
  | inl e ↦
      mapped-short (literal plain (drop 1 s)) unquote (length s) r
        (λ q g. omega (arith, literal-short plain (drop 1 s) q g, drop_le 1 s)) (rw e at h)
]

pub read_field-Shrinks : (val : Reader Json) → Shrinks val → Shrinks (read_field val)
unfolding read_field
read_field-Shrinks val shrinks s r h =
    let (k, hk, h1) = >>=-eq-some (read_text (skip_space s)) _ h in
    let t = skip_space k.1 in
    let u = skip_space (drop 1 t) in
    let (v, hv, h2) = >>=-eq-some (if first_is b':' t then val u else none) _ h1 in
    let same : v.1 ≡ r.1 = ap (λ p. p.1) (some-eq h2) in
    elim (Bool-cases (first_is b':' t)) [
      | inr e ↦ absurd (none-ne-some (rw e at hv))
      | inl e ↦ omega (
        arith,
        ap length same,
        shrinks u v (rw e at hv),
        skip_space_le (drop 1 t),
        drop_le 1 t,
        skip_space_le k.1,
        read_text-Shrinks (skip_space s) k hk,
        skip_space_le s,
      )
    ]

span_digits-length : (s : Bytes) → length (span_digits s).0 + length (span_digits s).1 ≡ length s
unfolding span_digits
span_digits-length [] = refl
span_digits-length (c ∷ s) = ground (arith, span_digits-length s)

pub first_is-length : (c : ℕ) (s : Bytes) → first_is c s ≡ true → 0 < length s
first_is-length c [] h = absurd (cc h)
first_is-length c (d ∷ s) h = omega arith

some-length : (s : Bytes) → equal s [] ≡ false → 0 < length s
unfolding equal
some-length [] h = absurd (cc h)
some-length (c ∷ s) h = omega arith

some_digits-Shrinks : (lone : Bool) → Shrinks (some_digits lone)
unfolding some_digits
some_digits-Shrinks lone s r h = elim (Bool-cases (lone && first_is b'0' s)) [
  | inl e ↦
      let same : drop 1 s ≡ r.1 = ap (λ p. p.1) (some-eq (rw e at h)) in
      omega (arith, ap length same, length-drop 1 s, first_is-length b'0' s (ground arith))
  | inr e ↦ elim (Bool-cases (equal (span_digits s).0 [])) [
    | inl f ↦ absurd (none-ne-some (rw (e, f) at h))
    | inr f ↦
        let same : (span_digits s).1 ≡ r.1 = ap (λ p. p.1) (some-eq (rw (e, f) at h)) in
        omega (arith, ap length same, span_digits-length s, some-length (span_digits s).0 f)
  ]
]

fraction_le : (s : Bytes) (r : Bytes × Bytes) → fraction s ≡ some r → length r.1 ≤ length s
unfolding fraction
fraction_le s r h = elim (Bool-cases (first_is b'.' s)) [
  | inl e ↦
      let short : length r.1 < suc (length s) =
        mapped-short (some_digits false (drop 1 s)) (λ d. b'.' ∷ d) (suc (length s)) r
          (λ q g. omega (arith, some_digits-Shrinks false (drop 1 s) q g, drop_le 1 s))
          (rw e at h) in
      omega arith
  | inr e ↦
      let same : s ≡ r.1 = ap (λ p. p.1) (some-eq (rw e at h)) in omega (arith, ap length same)
]

unsigned_le : (b : Bool) (t : Bytes) → length (if b then drop 1 t else t) ≤ length t
unsigned_le true t = drop_le 1 t
unsigned_le false t = omega arith

exponent_le : (s : Bytes) (r : Bytes × Bytes) → exponent s ≡ some r → length r.1 ≤ length s
unfolding exponent
exponent_le s r h = elim (Bool-cases (first_is b'e' s || first_is b'E' s)) [
  | inl e ↦
      let t = drop 1 s in
      let signed = if first_is b'+' t || first_is b'-' t then drop 1 t else t in
      let (q, g, k) = >>=-eq-some (some_digits false signed) _ (rw e at h) in
      let same : q.1 ≡ r.1 = ap (λ p. p.1) (some-eq k) in
      let shorter : length signed ≤ length t = unsigned_le (first_is b'+' t || first_is b'-' t) t in
      omega (arith, ap length same, some_digits-Shrinks false signed q g, shorter, drop_le 1 s)
  | inr e ↦
      let same : s ≡ r.1 = ap (λ p. p.1) (some-eq (rw e at h)) in omega (arith, ap length same)
]

number-Shrinks : Shrinks number
unfolding number
number-Shrinks s r h =
    let unsigned = if first_is b'-' s then drop 1 s else s in
    let (i, hi, h1) = >>=-eq-some (some_digits true unsigned) _ h in
    let (f, hf, h2) = >>=-eq-some (fraction i.1) _ h1 in
    let (e, he, h3) = >>=-eq-some (exponent f.1) _ h2 in
    let same : e.1 ≡ r.1 = ap (λ p. p.1) (some-eq h3) in
    omega (
      arith,
      ap length same,
      exponent_le f.1 e he,
      fraction_le i.1 f hf,
      some_digits-Shrinks true unsigned i hi,
      unsigned_le (first_is b'-' s) s,
    )

read_word-Shrinks : (c : ℕ) (w : Bytes) (v : Json) → Shrinks (read_word (c ∷ w) v)
unfolding read_word
read_word-Shrinks c w v s r h = elim (Bool-cases (has_prefix s (c ∷ w))) [
  | inr e ↦ absurd (none-ne-some (rw e at h))
  | inl e ↦
      let same : drop (suc (length w)) s ≡ r.1 = ap (λ p. p.1) (some-eq (rw e at h)) in
      let fits : suc (length w) ≤ length s = unfold has_prefix in ground (arith, e) in
      omega (arith, ap length same, length-drop (suc (length w)) s)
]

pub read_scalar-Shrinks : Shrinks read_scalar
unfolding read_scalar
read_scalar-Shrinks s r h = elim (Bool-cases (first_is b'"' s)) [
  | inl e ↦ mapped-short (read_text s) str (length s) r (read_text-Shrinks s) (rw e at h)
  | inr e ↦ elim (Bool-cases (first_is b't' s)) [
    | inl f ↦ read_word-Shrinks b't' (codes "rue") (bool true) s r (rw (e, f) at h)
    | inr f ↦ elim (Bool-cases (first_is b'f' s)) [
      | inl g ↦ read_word-Shrinks b'f' (codes "alse") (bool false) s r (rw (e, f, g) at h)
      | inr g ↦ elim (Bool-cases (first_is b'n' s)) [
        | inl k ↦ read_word-Shrinks b'n' (codes "ull") null s r (rw (e, f, g, k) at h)
        | inr k ↦ mapped-short (number s) num (length s) r (number-Shrinks s) (rw (e, f, g, k) at h)
      ]
    ]
  ]
]
