-- ===== src/Json/Number/Decimal.antt =====
-- Printing a number in decimal and reading it back.
use velocity_mcp.Base.{
  ==_iff, All, Bool-cases, [], ap, arith, false, inl, inr, length, length-append, ltb, refl, some,
  suc, take, take-length_append, true, zero, ℕ, ◌%◌, ◌++◌, ◌+◌, ◌-◌, ◌/◌, ◌<◌, ◌==◌, ◌^◌, ◌∙◌, ◌∷◌,
  ◌≡◌, ◌≢◌, ◌≤◌,
}
use velocity_mcp.Bytes.{Bytes, equal}
use velocity_mcp.Json.Text.{is_digit}
use velocity_mcp.Json.Number.{
  decimal, decimal_from, exponent, first_is, fraction, int64, non_negative, number, some_digits,
  span_digits,
}
use velocity_mcp.Json.Encode.{decimal_digits, print_decimal}

abbrev pub IsDigit : ℕ → Type 0
IsDigit c = (48 ≤ c) × (c ≤ 57)

-- Digits that do not begin with a zero.
abbrev pub IsCounted : Bytes → Type 0
IsCounted [] = ⊥
IsCounted (b ∷ t) = (b ≢ 48) × All IsDigit (b ∷ t)

decimal_digits-decimal :
    (f n : ℕ) (acc : Bytes) → n < f → decimal_from 0 (decimal_digits f n acc) ≡ decimal_from n acc
unfolding decimal_digits decimal_from
decimal_digits-decimal zero n acc h = elim h [ ]
decimal_digits-decimal (suc f) n acc h = elim (Bool-cases (ltb n 10)) [
  | inl e ↦ rw e (ap (λ k. decimal_from k acc) (omega arith))
  | inr e ↦
      let big : 10 ≤ n = ground (arith, e) in
      rw e (
        decimal_digits-decimal f (n / 10) ((n % 10 + 48) ∷ acc) (omega arith)
        ∙ ap (λ k. decimal_from k acc) (omega arith))
]

decimal_digits-IsCounted :
    (f n : ℕ) (acc : Bytes) → n < f → 0 < n → All IsDigit acc → IsCounted (decimal_digits f n acc)
unfolding decimal_digits
decimal_digits-IsCounted zero n acc h p q = elim h [ ]
decimal_digits-IsCounted (suc f) n acc h p q = elim (Bool-cases (ltb n 10)) [
  | inl e ↦
      let small : n < 10 = ground (arith, e) in rw e (omega arith, ((omega arith, omega arith), q))
  | inr e ↦
      let big : 10 ≤ n = ground (arith, e) in
      rw e (
        decimal_digits-IsCounted f (n / 10) ((n % 10 + 48) ∷ acc) (omega arith) (omega arith)
          ((omega arith, omega arith), q))
]

pub decimal-print_decimal : (n : ℕ) → decimal (print_decimal n) ≡ n
unfolding decimal print_decimal
decimal-print_decimal n = decimal_digits-decimal (suc n) n [] (omega arith)

pub print_decimal-IsCounted : (n : ℕ) → 0 < n → IsCounted (print_decimal n)
unfolding print_decimal
print_decimal-IsCounted n h = decimal_digits-IsCounted (suc n) n [] (omega arith) h tt

-- The reader takes a run of digits up to a byte that is none.
span_digits_stop :
    (d : Bytes) (c : ℕ) (r : Bytes)
    → All IsDigit d
    → is_digit c ≡ false
    → span_digits (d ++ c ∷ r) ≡ (d, c ∷ r)
unfolding span_digits
span_digits_stop [] c r h e = rw e
span_digits_stop (b ∷ d) c r (p, h) e =
    let digit : is_digit b ≡ true = ground arith in rw (digit, span_digits_stop d c r h e)

span_digits-All : (d : Bytes) → All IsDigit d → span_digits d ≡ (d, [])
unfolding span_digits
span_digits-All [] h = refl
span_digits-All (b ∷ d) (p, h) =
    let digit : is_digit b ≡ true = ground arith in rw (digit, span_digits-All d h)

-- A byte behind which no number goes on.
abbrev pub IsStop : ℕ → Type 0
IsStop c = (is_digit c ≡ false) × (c ≢ b'.') × (c ≢ b'e') × (c ≢ b'E')

is_zero-IsCounted : (b : ℕ) (s : Bytes) → b ≢ 48 → first_is b'0' (b ∷ s) ≡ false
is_zero-IsCounted b s h = ground (arith, ==_iff b 48)

some_digits-IsCounted :
    (b : ℕ) (d : Bytes) (c : ℕ) (r : Bytes)
    → IsCounted (b ∷ d)
    → is_digit c ≡ false
    → some_digits true (b ∷ (d ++ c ∷ r)) ≡ some (b ∷ d, c ∷ r)
unfolding some_digits equal
some_digits-IsCounted b d c r (ne, h) e =
    rw (is_zero-IsCounted b (d ++ c ∷ r) ne, span_digits_stop (b ∷ d) c r h e)

no_fraction : (c : ℕ) (r : Bytes) → IsStop c → fraction (c ∷ r) ≡ some ([], c ∷ r)
unfolding fraction
no_fraction c r (p, q, s, t) = ground (arith, ==_iff c b'.')

no_exponent : (c : ℕ) (r : Bytes) → IsStop c → exponent (c ∷ r) ≡ some ([], c ∷ r)
unfolding exponent
no_exponent c r (p, q, s, t) = ground (arith, ==_iff c b'e', ==_iff c b'E')

pub take-before : (d r : Bytes) → take (length (d ++ r) - length r) (d ++ r) ≡ d
take-before d r =
    let e : length (d ++ r) - length r ≡ length d = omega (arith, length-append d r) in
    rw e (take-length_append d r)

number-IsCounted :
    (b : ℕ) (d : Bytes) (c : ℕ) (r : Bytes)
    → IsCounted (b ∷ d)
    → IsStop c
    → number (b ∷ (d ++ c ∷ r)) ≡ some (b ∷ d, c ∷ r)
unfolding number
number-IsCounted b d c r (ne, h) stop =
    let minus : (b == b'-') ≡ false = ground arith in
    rw
      (
        minus,
        some_digits-IsCounted b d c r (ne, h) stop.0,
        no_fraction c r stop,
        no_exponent c r stop,
      )
      (ap (λ t. some (t, c ∷ r)) (take-before (b ∷ d) (c ∷ r)))

number-zero : (c : ℕ) (r : Bytes) → IsStop c → number (48 ∷ c ∷ r) ≡ some (48 ∷ [], c ∷ r)
unfolding number some_digits
number-zero c r stop =
    rw (no_fraction c r stop, no_exponent c r stop)
      (ap (λ t. some (t, c ∷ r)) (take-before (48 ∷ []) (c ∷ r)))

pub print_decimal-zero : print_decimal 0 ≡ 48 ∷ []
unfolding print_decimal
print_decimal-zero = refl

decimal-zero : decimal (48 ∷ []) ≡ 0
unfolding decimal
decimal-zero = refl

pub number-print_decimal :
    (n c : ℕ) (r : Bytes)
    → IsStop c
    → number (print_decimal n ++ c ∷ r) ≡ some (print_decimal n, c ∷ r)
number-print_decimal zero c r h = rw print_decimal-zero (number-zero c r h)
number-print_decimal (suc n) c r h =
    go (print_decimal (suc n)) (print_decimal-IsCounted (suc n) (omega arith))
  where
    go : (d : Bytes) → IsCounted d → number (d ++ c ∷ r) ≡ some (d, c ∷ r)
    go [] k = absurd k
    go (b ∷ d) k = number-IsCounted b d c r k h

int64-digits :
    (b : ℕ) (d : Bytes)
    → All IsDigit (b ∷ d)
    → decimal (b ∷ d) < 2 ^ 63
    → int64 (b ∷ d) ≡ some (non_negative (decimal (b ∷ d)))
unfolding int64 equal
int64-digits b d h small =
    let minus : (b == b'-') ≡ false = ground arith in
    let fits : ltb (decimal (b ∷ d)) (2 ^ 63) ≡ true = ground arith in
    rw (minus, span_digits-All (b ∷ d) h, fits)

pub int64-print_decimal : (n : ℕ) → n < 2 ^ 63 → int64 (print_decimal n) ≡ some (non_negative n)
int64-print_decimal zero h = rw print_decimal-zero (
    int64-digits 48 [] (omega arith) (rw decimal-zero (omega arith))
    ∙ ap (λ m. some (non_negative m)) decimal-zero)
int64-print_decimal (suc n) h =
    go (print_decimal (suc n)) (print_decimal-IsCounted (suc n) (omega arith))
      (decimal-print_decimal (suc n))
  where
    go : (d : Bytes) → IsCounted d → decimal d ≡ suc n → int64 d ≡ some (non_negative (suc n))
    go [] k e = absurd k
    go (b ∷ d) (ne, k) e =
        int64-digits b d k (omega (arith, e, h)) ∙ ap (λ m. some (non_negative m)) e

-- A printed number is a digit and further ones.
pub print_decimal-digits :
    (n : ℕ) → (b : ℕ) × (t : Bytes) × (print_decimal n ≡ b ∷ t) × All IsDigit (b ∷ t)
print_decimal-digits zero = (48, [], print_decimal-zero, omega arith)
print_decimal-digits (suc n) =
    go (print_decimal (suc n)) refl (print_decimal-IsCounted (suc n) (omega arith))
  where
    go :
        (d : Bytes)
        → print_decimal (suc n) ≡ d
        → IsCounted d
        → (b : ℕ) × (t : Bytes) × (print_decimal (suc n) ≡ b ∷ t) × All IsDigit (b ∷ t)
    go [] e k = absurd k
    go (b ∷ t) e (ne, k) = (b, t, e, k)
