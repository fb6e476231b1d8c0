-- ===== src/Json/Number.antt =====
-- Number literals of encoding/json, and the numbers that the decoder accepts for a Go type.
pub mod Decimal
pub mod Canonical
use velocity_mcp.Base.{
  Bool, Option, [], drop, false, if◌then◌else◌, leb, length, ltb, none, not, some, take, true, ℕ,
  ◌&&◌, ◌*◌, ◌++◌, ◌+◌, ◌-◌, ◌==◌, ◌>>=◌, ◌^◌, ◌||◌, ◌∷◌,
}
use velocity_mcp.Bytes.{Bytes, equal}
use velocity_mcp.Json.Text.{is_digit}

-- The digits that a text begins with, and the rest.
unfoldable pub span_digits : Bytes → Bytes × Bytes
span_digits [] = ([], [])
span_digits (c ∷ s) = let r = span_digits s in if is_digit c then (c ∷ r.0, r.1) else ([], c ∷ s)

abbrev pub first_is : ℕ → Bytes → Bool
first_is c [] = false
first_is c (d ∷ s) = d == c

-- At least one digit; a leading zero stands alone where `lone` is set.
unfoldable pub some_digits : Bool → Bytes → Option (Bytes × Bytes)
unfolding span_digits
some_digits lone s =
    if lone && first_is b'0' s
    then some (b'0' ∷ [], drop 1 s)
    else (let r = span_digits s in if equal r.0 [] then none else some r)

-- `.` and digits, or nothing.
unfoldable pub fraction : Bytes → Option (Bytes × Bytes)
unfolding some_digits
fraction s =
    if first_is b'.' s
    then (some_digits false (drop 1 s) >>= λ r. some (b'.' ∷ r.0, r.1))
    else some ([], s)

abbrev is_sign : Bytes → Bool
is_sign s = first_is b'+' s || first_is b'-' s

-- `e`, a sign and digits, or nothing.
unfoldable pub exponent : Bytes → Option (Bytes × Bytes)
unfolding some_digits
exponent s =
    if first_is b'e' s || first_is b'E' s
    then (let t = drop 1 s in
        let signed = if is_sign t then drop 1 t else t in
        some_digits false signed >>= λ r. some (take (length s - length r.1) s, r.1))
    else some ([], s)

-- A number literal and what follows it.
unfoldable pub number : Bytes → Option (Bytes × Bytes)
number s = do
  let unsigned = if first_is b'-' s then drop 1 s else s
  i ← some_digits true unsigned
  f ← fraction i.1
  e ← exponent f.1
  some (take (length s - length e.1) s, e.1)

-- A run of digits as a number.
unfoldable pub decimal_from : ℕ → Bytes → ℕ
decimal_from acc [] = acc
decimal_from acc (c ∷ s) = decimal_from (acc * 10 + (c - 48)) s

unfoldable pub decimal : Bytes → ℕ
unfolding decimal_from
decimal s = decimal_from 0 s

-- The first value that float64 rounds to infinity.
abbrev float_limit : ℕ
float_limit = 2 ^ 1024 - 2 ^ 970

-- Whether a literal is in the range of float64.
unfoldable pub in_float_range : Bytes → Bool
unfolding span_digits decimal
in_float_range token =
    let unsigned = if first_is b'-' token then drop 1 token else token in
    let i = span_digits unsigned in
    let f = if first_is b'.' i.1 then span_digits (drop 1 i.1) else ([], i.1) in
    let m = decimal (i.0 ++ f.0) in
    let places = length f.0 in
    let t = drop 1 f.1 in
    let e = decimal (if is_sign t then drop 1 t else t) in
    if first_is b'-' t
    then ltb m (float_limit * 10 ^ (places + e))
    else ltb (m * 10 ^ e) (float_limit * 10 ^ places)

-- The value that the decoder stores in an `int` for a literal: an integer of 64 bits.
pub data Int64 : Type 0 where
  non_negative negative : ℕ → Int64

unfoldable pub int64 : Bytes → Option Int64
int64 token =
    let below = first_is b'-' token in
    let unsigned = if below then drop 1 token else token in
    let i = span_digits unsigned in
    let n = decimal i.0 in
    if not (equal i.1 []) || equal i.0 []
    then none
    else if below
    then (if leb n (2 ^ 63) then some (negative n) else none)
    else (if ltb n (2 ^ 63) then some (non_negative n) else none)
