-- ===== src/Json/Marshal/Width.antt =====
-- The width of texts inside the string literals that json.Marshal writes.
use velocity_mcp.Base.{
  Bool, Bool-cases, Option-cases, [], ap, append_assoc, arith, inl, inr, length, length-append, ltb,
  refl, some, suc, sym, take, true, zero, ℕ, ◌++◌, ◌+◌, ◌<◌, ◌∙◌, ◌∷◌, ◌≡◌, ◌≤◌,
}
use velocity_mcp.Bytes.{Bytes}
use velocity_mcp.Json.Text.{utf8_tail}
use velocity_mcp.Json.Encode.{quote_ascii, quote_character, quote_from, quote_wide}

-- The bytes that a text takes inside a literal.
abbrev pub width : Bytes → ℕ
width s = length (quote_from true 0 s)

-- A character of ASCII completes no other.
utf8_tail-append : (c a : ℕ) (xs ys : Bytes) → a < 128 → utf8_tail c (xs ++ a ∷ ys) ≡ utf8_tail c xs
unfolding utf8_tail
utf8_tail-append c a [] ys h = ground arith
utf8_tail-append c a (x ∷ []) ys h = ground arith
utf8_tail-append c a (x ∷ y ∷ []) ys h = ground arith
utf8_tail-append c a (x ∷ y ∷ z ∷ xs) ys h = refl

utf8_tail-le : (c : ℕ) (xs : Bytes) (n : ℕ) → utf8_tail c xs ≡ some n → n ≤ length xs
unfolding utf8_tail
utf8_tail-le c [] n h = cc
utf8_tail-le c (x ∷ []) n h = ground arith
utf8_tail-le c (x ∷ y ∷ []) n h = ground arith
utf8_tail-le c (x ∷ y ∷ z ∷ xs) n h = ground arith

take-append : (n : ℕ) (xs ys : Bytes) → n ≤ length xs → take n (xs ++ ys) ≡ take n xs
take-append zero xs ys h = refl
take-append (suc n) [] ys h = absurd (omega arith)
take-append (suc n) (x ∷ xs) ys h = ap (◌∷◌ x) (take-append n xs ys (omega arith))

quote_wide-append :
    (c a n : ℕ) (xs ys : Bytes)
    → utf8_tail c xs ≡ some n
    → quote_wide c (xs ++ a ∷ ys) n ≡ quote_wide c xs n
unfolding quote_wide utf8_tail
quote_wide-append c a n [] ys h = cc
quote_wide-append c a n (x ∷ []) ys h = ground (arith, take-append n (x ∷ []) (a ∷ ys))
quote_wide-append c a n (x ∷ y ∷ xs) ys h =
    rw (take-append n (x ∷ y ∷ xs) (a ∷ ys) (utf8_tail-le c (x ∷ y ∷ xs) n h)) refl

quote_wide-count : (c n : ℕ) (xs : Bytes) → (quote_wide c xs n).1 ≡ n
unfolding quote_wide
quote_wide-count c n xs = ground arith

quote_character-append :
    (html : Bool) (c a : ℕ) (xs ys : Bytes)
    → a < 128
    → (quote_character html c (xs ++ a ∷ ys) ≡ quote_character html c xs)
      × ((quote_character html c xs).1 ≤ length xs)
unfolding quote_character
quote_character-append html c a xs ys h = elim (Bool-cases (ltb c 128)) [
  | inl e ↦ rw e (refl, omega arith)
  | inr e ↦
      rw (e, utf8_tail-append c a xs ys h)
        (elim (Option-cases (utf8_tail c xs)) [
          | inl q ↦ rw q (refl, omega arith)
          | inr (n, q) ↦ rw q (
            quote_wide-append c a n xs ys q,
            omega (arith, quote_wide-count c n xs, utf8_tail-le c xs n q),
          )
        ])
]

-- A literal is spelled piece by piece, where a piece begins with a character of ASCII.
pub quote_from-append :
    (html : Bool) (n a : ℕ) (xs ys : Bytes)
    → a < 128
    → n ≤ length xs
    → quote_from html n (xs ++ a ∷ ys) ≡ quote_from html n xs ++ quote_from html 0 (a ∷ ys)
unfolding quote_from
quote_from-append html zero a [] ys h k = refl
quote_from-append html (suc n) a [] ys h k = absurd (omega arith)
quote_from-append html (suc n) a (x ∷ xs) ys h k = quote_from-append html n a xs ys h (omega arith)
quote_from-append html zero a (x ∷ xs) ys h k =
    let (same, short) = quote_character-append html x a xs ys h in
    let t = quote_character html x xs in
    rw (same, quote_from-append html t.1 a xs ys h short)
      (sym (append_assoc t.0 (quote_from html t.1 xs) (quote_from html 0 (a ∷ ys))))

pub width-append :
    (xs ys : Bytes) (a : ℕ) → a < 128 → width (xs ++ a ∷ ys) ≡ width xs + width (a ∷ ys)
width-append xs ys a h =
    ap length (quote_from-append true 0 a xs ys h (omega arith))
    ∙ length-append (quote_from true 0 xs) (quote_from true 0 (a ∷ ys))

pub width-cons :
    (a : ℕ) (ys : Bytes) → a < 128 → width (a ∷ ys) ≡ length (quote_ascii true a) + width ys
unfolding quote_from quote_character
width-cons a ys h =
    let e : ltb a 128 ≡ true = ground arith in
    rw e (length-append (quote_ascii true a) (quote_from true 0 ys))
