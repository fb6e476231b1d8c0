-- ===== src/Client/Caching.antt =====
-- client/caching.go, and the whole numbers of client/mirrored.go: how long a result stays fresh.
use velocity_mcp.Base.{
  Bool, Option, [], all, drop, if◌then◌else◌, leb, length, ltb, none, not, some, take, ℕ, ◌%◌, ◌&&◌,
  ◌*◌, ◌++◌, ◌+◌, ◌-◌, ◌/◌, ◌==◌, ◌>>=◌, ◌^◌, ◌||◌, ◌∷◌,
}
use velocity_mcp.Bytes.{Bytes, codes, trim_left}
use velocity_mcp.Json.Number.{Int64, decimal, first_is, int64, negative, non_negative}
use velocity_mcp.Json.Text.{is_digit}
use velocity_mcp.Client.Results.{raw_field, struct_fields}
use velocity_mcp.Client.Unfinished.{trim_json_space}

-- What stands before the first byte of a kind, and the rest from it on.
unfoldable pub span_until : (ℕ → Bool) → Bytes → Bytes × Bytes
span_until p [] = ([], [])
span_until p (c ∷ s) = let r = span_until p s in if p c then ([], c ∷ s) else (c ∷ r.0, r.1)

abbrev is_digits : Bytes → Bool
is_digits value = not (length value == 0) && all is_digit value

abbrev unsigned_part : Bytes → Bytes
unsigned_part value = if first_is b'+' value || first_is b'-' value then drop 1 value else value

-- A word of 64 bits that is written in two's complement.
abbrev word : Int64 → ℕ
word (non_negative n) = n % 2 ^ 64
word (negative n) = (2 ^ 64 - n) % 2 ^ 64

-- `strconv.Atoi` of signed digits.
abbrev exponent_of : Bytes → Option Int64
exponent_of power = int64 (if first_is b'+' power then drop 1 power else power)

-- The digits and the place of the point behind them, as a word of 64 bits.
unfoldable pub whole_digits : Bytes → ℕ → Option Bytes
whole_digits numerals point =
    let below = leb (2 ^ 63) point in
    let tail = if below then 0 else point in
    if below || ltb point (length numerals)
    then (if all (λ c. c == b'0') (drop tail numerals) then some (take tail numerals) else none)
    else some numerals

abbrev signed : Bool → Int64 → Int64
signed below (non_negative n) = if below then negative n else non_negative n
signed below (negative n) = negative n

-- The number of digits with the point at a place behind the zeros that are put on.
unfoldable pub placed_number : Bool → Bytes → ℕ → Option Int64
placed_number below numerals point = do
  kept ← whole_digits numerals point
  if ltb 19 point && ltb point (2 ^ 63) then none else do
    let n = decimal kept * 10 ^ (point - length kept)
    if ltb n (2 ^ 63) then some (signed below (non_negative n)) else none

unfoldable pub integral_number : Bytes → Option Int64
integral_number token =
    let below = first_is b'-' token in
    let (mantissa, tail) =
      span_until (λ c. c == b'e' || c == b'E') (if below then drop 1 token else token) in
    let power = drop 1 tail in
    let (whole_part, behind_point) = span_until (λ c. c == b'.') mantissa in
    let fraction_part = drop 1 behind_point in
    let numerals = trim_left (λ c. c == b'0') (whole_part ++ fraction_part) in
    if not (length tail == 0) && not (is_digits (unsigned_part power))
    then none
    else if not (is_digits whole_part)
        || not (length behind_point == 0) && not (is_digits fraction_part)
    then none
    else if length numerals == 0
    then some (non_negative 0)
    else ((if length power == 0 then some (non_negative 0) else exponent_of power)
        >>= λ power_of_ten.
            placed_number below numerals
              ((length numerals + word power_of_ten + (2 ^ 64 - length fraction_part)) % 2 ^ 64))

abbrev pub max_duration : ℕ
max_duration = 2 ^ 63 - 1

-- A number of milliseconds as a duration in nanoseconds.
unfoldable pub duration_of : Option Int64 → ℕ
duration_of none = 0
duration_of (some (negative n)) = 0
duration_of (some (non_negative n)) =
    if ltb (max_duration / 1000000) n then max_duration else n * 1000000

abbrev or_integral : Option Int64 → Bytes → Option Int64
or_integral none token = integral_number token
or_integral (some n) token = some n

unfoldable pub lifetime_of : Bytes → ℕ
lifetime_of result = elim (struct_fields result) [
  | none ↦ 0
  | some fields ↦
      let token = trim_json_space (raw_field (codes "ttlMs") fields) in
      duration_of (or_integral (int64 token) token)
]
