-- ===== src/Server/ArgPath/Indices.antt =====
-- Which path segments index an array.
use velocity_mcp.Base.{
  ==_iff, All, Bool-cases, [], all, ap, arith, false, inl, inr, leb, length, ltb, none-ne-some,
  refl, some, some-eq, suc, sym, true, zero, ℕ, ◌&&◌, ◌<◌, ◌==◌, ◌^◌, ◌||◌, ◌↔◌, ◌∙◌, ◌∷◌, ◌≡◌, ◌≤◌,
}
use velocity_mcp.Bytes.{Bytes, equal}
use velocity_mcp.Json.Text.{is_digit}
use velocity_mcp.Json.Number.{decimal, decimal_from, first_is, number}
use velocity_mcp.Json.Number.Decimal.{
  IsCounted, IsDigit, decimal-print_decimal, print_decimal-IsCounted, print_decimal-digits,
  print_decimal-zero,
}
use velocity_mcp.Json.Number.Canonical.{print_decimal-decimal}
use velocity_mcp.Json.Encode.{print_decimal}
use velocity_mcp.Server.ArgPath.{slice_index}

all-IsDigit : (s : Bytes) → all is_digit s ≡ true → All IsDigit s
all-IsDigit [] h = tt
all-IsDigit (c ∷ s) h = (ground arith, all-IsDigit s (ground arith))

IsDigit-all : (s : Bytes) → All IsDigit s → all is_digit s ≡ true
IsDigit-all [] h = refl
IsDigit-all (c ∷ s) (d, h) = ground (arith, IsDigit-all s h)

nil_length : (s : Bytes) → length s ≡ 0 → s ≡ []
nil_length [] h = refl
nil_length (c ∷ s) h = absurd (omega (arith, h))

-- A segment that passes the checks of its form is what its number prints as.
canonical :
    (segment : Bytes)
    → equal segment [] ≡ false
    → (ltb 1 (length segment) && first_is b'0' segment) ≡ false
    → all is_digit segment ≡ true
    → segment ≡ print_decimal (decimal segment)
canonical [] filled form number = absurd (unfold equal in cc filled)
canonical (c ∷ s) filled form number = elim (Bool-cases (c == b'0')) [
  | inl e ↦
      let is_zero : c ≡ 48 = (==_iff c 48).0 e in
      let alone : s ≡ [] = nil_length s (ground (arith, form, e)) in
      rw (is_zero, alone) (unfold decimal decimal_from in sym print_decimal-zero)
  | inr e ↦
      sym (
        print_decimal-decimal (c ∷ s)
          ((λ q. cc (e, (==_iff c 48).1 q)), all-IsDigit (c ∷ s) number))
]

print_decimal-form :
    (i : ℕ) → (ltb 1 (length (print_decimal i)) && first_is b'0' (print_decimal i)) ≡ false
print_decimal-form zero = rw print_decimal-zero refl
print_decimal-form (suc i) =
    go (print_decimal (suc i)) (print_decimal-IsCounted (suc i) (omega arith))
  where
    go : (d : Bytes) → IsCounted d → (ltb 1 (length d) && first_is b'0' d) ≡ false
    go [] k = absurd k
    go (b ∷ d) (ne, k) =
        let other : (b == b'0') ≡ false = ground (arith, ne) in ground (arith, other)

index_sound :
    (segment : Bytes) (n i : ℕ)
    → slice_index segment n ≡ some i
    → (segment ≡ print_decimal i) × (i < n)
unfolding slice_index
index_sound segment n i h = elim (Bool-cases (equal segment [])) [
  | inl a ↦ absurd (none-ne-some (rw a at h))
  | inr a ↦ elim (Bool-cases (ltb 1 (length segment) && first_is b'0' segment)) [
    | inl b ↦ absurd (none-ne-some (rw (a, b) at h))
    | inr b ↦ elim (Bool-cases (all is_digit segment)) [
      | inr d ↦ absurd (none-ne-some (rw (a, b, d) at h))
      | inl d ↦ elim (Bool-cases (leb (2 ^ 63) (decimal segment) || leb n (decimal segment))) [
        | inl e ↦ absurd (none-ne-some (rw (a, b, d, e) at h))
        | inr e ↦
            let same : decimal segment ≡ i = some-eq (rw (a, b, d, e) at h) in
            (canonical segment a b d ∙ ap print_decimal same, ground (arith, e, same))
      ]
    ]
  ]
]

index_complete : (n i : ℕ) → n ≤ 2 ^ 63 → i < n → slice_index (print_decimal i) n ≡ some i
unfolding slice_index
index_complete n i fits h =
    let (b, t, e, all_digits) = print_decimal-digits i in
    let filled : equal (print_decimal i) [] ≡ false = rw e (unfold equal in refl) in
    let number : all is_digit (print_decimal i) ≡ true = rw e (IsDigit-all (b ∷ t) all_digits) in
    let small : (leb (2 ^ 63) i || leb n i) ≡ false = ground (arith, fits, h) in
    rw (filled, print_decimal-form i, number, decimal-print_decimal i, small) refl

-- A segment indexes an array of the given length exactly when it is the decimal spelling of a number
-- below that length.
pub slice_index_iff :
    (segment : Bytes) (n i : ℕ)
    → n ≤ 2 ^ 63
    → (slice_index segment n ≡ some i) ↔ ((segment ≡ print_decimal i) × (i < n))
slice_index_iff segment n i fits =
    (index_sound segment n i, λ q. rw q.0 (index_complete n i fits q.1))
