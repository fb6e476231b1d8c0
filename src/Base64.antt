-- ===== src/Base64.antt =====
-- `base64.StdEncoding` of encoding/base64: the standard alphabet with padding.
pub mod Groups
pub mod RoundTrip
pub mod Canonical
use velocity_mcp.Base.{
  Bool, Option, [], if◌then◌else◌, leb, ltb, none, not, some, ℕ, ◌%◌, ◌&&◌, ◌*◌, ◌++◌, ◌+◌, ◌-◌,
  ◌/◌, ◌==◌, ◌>>=◌, ◌||◌, ◌∷◌,
}
use velocity_mcp.Bytes.{Bytes}

-- The character of a six-bit value.
unfoldable pub symbol : ℕ → ℕ
symbol v =
    if ltb v 26
    then v + 65
    else if ltb v 52
    then v + 71
    else if ltb v 62
    then v - 4
    else if v == 62
    then b'+'
    else b'/'

-- The six-bit value of a character of the alphabet.
unfoldable pub value : ℕ → Option ℕ
value c =
    if leb b'A' c && leb c b'Z'
    then some (c - 65)
    else if leb b'a' c && leb c b'z'
    then some (c - 71)
    else if leb b'0' c && leb c b'9'
    then some (c + 4)
    else if c == b'+'
    then some 62
    else if c == b'/'
    then some 63
    else none

unfoldable pub encode : Bytes → Bytes
unfolding symbol
encode [] = []
encode (a ∷ []) = symbol (a / 4) ∷ symbol (a % 4 * 16) ∷ b'=' ∷ b'=' ∷ []
encode (a ∷ b ∷ []) =
    symbol (a / 4) ∷ symbol (a % 4 * 16 + b / 16) ∷ symbol (b % 16 * 4) ∷ b'=' ∷ []
encode (a ∷ b ∷ c ∷ s) =
    symbol (a / 4)
    ∷ symbol (a % 4 * 16 + b / 16)
    ∷ symbol (b % 16 * 4 + c / 64)
    ∷ symbol (c % 64)
    ∷ encode s

-- A final group of two characters; `strict` refuses bits left over.
unfoldable pub decode_two : Bool → ℕ → ℕ → Option Bytes
unfolding value
decode_two strict a b = do
  x ← value a
  y ← value b
  if strict && not (y % 16 == 0) then none else some ((x * 4 + y / 16) ∷ [])

unfoldable pub decode_three : Bool → ℕ → ℕ → ℕ → Option Bytes
unfolding value
decode_three strict a b c = do
  x ← value a
  y ← value b
  z ← value c
  let out = (x * 4 + y / 16) ∷ (y % 16 * 16 + z / 4) ∷ []
  if strict && not (z % 4 == 0) then none else some out

unfoldable pub decode_four : ℕ → ℕ → ℕ → ℕ → Option Bytes
unfolding value
decode_four a b c d = do
  x ← value a
  y ← value b
  z ← value c
  w ← value d
  some ((x * 4 + y / 16) ∷ (y % 16 * 16 + z / 4) ∷ (z % 4 * 64 + w) ∷ [])

-- Padding ends the text: whatever follows it is refused.
unfoldable pub decode_last : Bool → ℕ → ℕ → ℕ → Bytes → Option Bytes
unfolding decode_two decode_three
decode_last strict a b c [] = if c == b'=' then decode_two strict a b else decode_three strict a b c
decode_last strict a b c (_ ∷ _) = none

unfoldable pub decode_quads : Bool → Bytes → Option Bytes
unfolding decode_last decode_four
decode_quads strict [] = some []
decode_quads strict (a ∷ b ∷ c ∷ d ∷ s) =
    let rest = decode_quads strict s in
    if d == b'='
    then decode_last strict a b c s
    else (decode_four a b c d >>= λ g. rest >>= λ r. some (g ++ r))
decode_quads strict _ = none

-- The decoder passes over line breaks wherever they stand.
unfoldable pub without_breaks : Bytes → Bytes
without_breaks [] = []
without_breaks (c ∷ s) = if c == b'\n' || c == b'\r' then without_breaks s else c ∷ without_breaks s

-- `DecodeString`, of `Strict()` if the flag is set.
unfoldable pub decode : Bool → Bytes → Option Bytes
unfolding decode_quads without_breaks
decode strict s = decode_quads strict (without_breaks s)
