-- ===== src/Json/Number/Canonical.antt =====
-- A number has one decimal spelling without leading zeros.
use velocity_mcp.Base.{
  All, Bool-cases, [], ap, append-nil, append_assoc, arith, false, inl, inr, ltb, refl, suc, sym,
  true, zero, ℕ, ◌%◌, ◌*◌, ◌++◌, ◌+◌, ◌-◌, ◌/◌, ◌<◌, ◌∙◌, ◌∷◌, ◌≡◌, ◌≤◌,
}
use velocity_mcp.Bytes.{Bytes}
use velocity_mcp.Json.Encode.{decimal_digits, print_decimal}
use velocity_mcp.Json.Number.{decimal, decimal_from}
use velocity_mcp.Json.Number.Decimal.{IsCounted, IsDigit}

decimal_digits-fuel :
    (f g n : ℕ) (acc : Bytes) → n < f → n < g → decimal_digits f n acc ≡ decimal_digits g n acc
unfolding decimal_digits
decimal_digits-fuel zero g n acc h k = elim h [ ]
decimal_digits-fuel (suc f) zero n acc h k = elim k [ ]
decimal_digits-fuel (suc f) (suc g) n acc h k = elim (Bool-cases (ltb n 10)) [
  | inl e ↦ rw e refl
  | inr e ↦
      let big : 10 ≤ n = ground (arith, e) in
      rw e (decimal_digits-fuel f g (n / 10) ((n % 10 + 48) ∷ acc) (omega arith) (omega arith))
]

decimal_digits-append :
    (f n : ℕ) (acc : Bytes) → decimal_digits f n acc ≡ decimal_digits f n [] ++ acc
unfolding decimal_digits
decimal_digits-append zero n acc = refl
decimal_digits-append (suc f) n acc = elim (Bool-cases (ltb n 10)) [
  | inl e ↦ rw e refl
  | inr e ↦ rw e (
      decimal_digits-append f (n / 10) ((n % 10 + 48) ∷ acc)
      ∙ sym (
          ap (λ t. t ++ acc) (decimal_digits-append f (n / 10) ((n % 10 + 48) ∷ []))
          ∙ append_assoc (decimal_digits f (n / 10) []) ((n % 10 + 48) ∷ []) acc))
]

print_decimal-snoc :
    (a d : ℕ) → 0 < a → d < 10 → print_decimal (a * 10 + d) ≡ print_decimal a ++ (d + 48) ∷ []
unfolding print_decimal decimal_digits
print_decimal-snoc a d h k =
    let n = a * 10 + d in
    let large : ltb n 10 ≡ false = ground arith in
    let quotient : n / 10 ≡ a = omega arith in
    let rest : n % 10 ≡ d = omega arith in
    rw (large, quotient, rest)
      (decimal_digits-fuel n (suc a) a ((d + 48) ∷ []) (omega arith) (omega arith)
        ∙ decimal_digits-append (suc a) a ((d + 48) ∷ []))

print_decimal-digit : (c : ℕ) → IsDigit c → print_decimal (c - 48) ≡ c ∷ []
unfolding print_decimal decimal_digits
print_decimal-digit c h =
    let small : ltb (c - 48) 10 ≡ true = ground arith in
    let back : c - 48 + 48 ≡ c = omega arith in rw (small, back) refl

print_decimal-decimal_from :
    (acc : ℕ) (s : Bytes)
    → 0 < acc
    → All IsDigit s
    → print_decimal (decimal_from acc s) ≡ print_decimal acc ++ s
unfolding decimal_from
print_decimal-decimal_from acc [] h k = sym (append-nil (print_decimal acc))
print_decimal-decimal_from acc (c ∷ s) h (d, k) =
    let back : c - 48 + 48 ≡ c = omega arith in
    print_decimal-decimal_from (acc * 10 + (c - 48)) s (omega arith) k
    ∙ ap (λ t. t ++ s) (print_decimal-snoc acc (c - 48) h (omega arith))
    ∙ append_assoc (print_decimal acc) ((c - 48 + 48) ∷ []) s
    ∙ ap (λ x. print_decimal acc ++ x ∷ s) back

-- Digits that do not begin with a zero are what their number prints as.
pub print_decimal-decimal : (s : Bytes) → IsCounted s → print_decimal (decimal s) ≡ s
unfolding decimal decimal_from
print_decimal-decimal [] h = absurd h
print_decimal-decimal (c ∷ s) (ne, (d, k)) =
    ap (λ v. print_decimal (decimal_from v s)) (let e : 0 + (c - 48) ≡ c - 48 = omega arith in e)
    ∙ print_decimal-decimal_from (c - 48) s (omega arith) k
    ∙ ap (λ t. t ++ s) (print_decimal-digit c d)
