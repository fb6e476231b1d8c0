-- ===== src/Json/Text.antt =====
-- String literals of encoding/json: where they end, and what they say.
use velocity_mcp.Base.{
  Bool, Option, [], all, drop, false, if◌then◌else◌, is_some, leb, length, ltb, none, some, suc,
  take, true, zero, ℕ, ◌%◌, ◌&&◌, ◌*◌, ◌++◌, ◌+◌, ◌-◌, ◌/◌, ◌==◌, ◌>>=◌, ◌||◌, ◌∷◌,
}
use velocity_mcp.Bytes.{Bytes}

abbrev pub is_digit : ℕ → Bool
is_digit c = leb b'0' c && leb c b'9'

unfoldable pub hex_value : ℕ → Option ℕ
hex_value c =
    if is_digit c
    then some (c - 48)
    else if leb b'a' c && leb c b'f'
    then some (c - 87)
    else if leb b'A' c && leb c b'F'
    then some (c - 55)
    else none

-- The value of the four hexadecimal digits that a text begins with.
unfoldable pub hex4 : Bytes → Option ℕ
unfolding hex_value
hex4 (a ∷ b ∷ c ∷ d ∷ s) = do
  w ← hex_value a
  x ← hex_value b
  y ← hex_value c
  z ← hex_value d
  some (w * 4096 + x * 256 + y * 16 + z)
hex4 _ = none

-- `utf8.AppendRune`, the replacement character for a surrogate.
unfoldable pub encode_rune : ℕ → Bytes
encode_rune r =
    if ltb r 0x80
    then r ∷ []
    else if ltb r 0x800
    then (192 + r / 64) ∷ (128 + r % 64) ∷ []
    else if leb 0xD800 r && leb r 0xDFFF
    then 0xEF ∷ 0xBF ∷ 0xBD ∷ []
    else if ltb r 0x10000
    then (224 + r / 4096) ∷ (128 + r / 64 % 64) ∷ (128 + r % 64) ∷ []
    else (240 + r / 262144) ∷ (128 + r / 4096 % 64) ∷ (128 + r / 64 % 64) ∷ (128 + r % 64) ∷ []

abbrev pub replacement : Bytes
replacement = 0xEF ∷ 0xBF ∷ 0xBD ∷ []

abbrev is_tail : ℕ → Bool
is_tail c = leb 0x80 c && leb c 0xBF

-- How many bytes behind a byte of at least 0x80 complete a character with it.
unfoldable pub utf8_tail : ℕ → Bytes → Option ℕ
utf8_tail a (b ∷ s) =
    if leb 0xC2 a && leb a 0xDF
    then (if is_tail b then some 1 else none)
    else if leb 0xE0 a && leb a 0xEF
    then (if (if a == 0xE0
            then leb 0xA0 b && leb b 0xBF
            else if a == 0xED
            then leb 0x80 b && leb b 0x9F
            else is_tail b)
          && all is_tail (take 1 s)
          && length (take 1 s) == 1
        then some 2
        else none)
    else if leb 0xF0 a && leb a 0xF4
    then (if (if a == 0xF0
            then leb 0x90 b && leb b 0xBF
            else if a == 0xF4
            then leb 0x80 b && leb b 0x8F
            else is_tail b)
          && all is_tail (take 2 s)
          && length (take 2 s) == 2
        then some 3
        else none)
    else none
utf8_tail a [] = none

-- The low surrogate that `\u` introduces at the head of a text.
unfoldable pub low_surrogate : Bytes → Option ℕ
unfolding hex4
low_surrogate (b ∷ u ∷ s) =
    if b == b'\\' && u == b'u'
    then (hex4 s >>= λ r. if leb 0xDC00 r && leb r 0xDFFF then some r else none)
    else none
low_surrogate _ = none

-- What `\uXXXX` stands for, with the number of bytes behind the `u` that it takes.
unfoldable pub unicode_escape : Bytes → Bytes × ℕ
unfolding low_surrogate encode_rune
unicode_escape s = elim (hex4 s) [
  | none ↦ ([], 0)
  | some r ↦
      if leb 0xD800 r && leb r 0xDBFF
      then elim (low_surrogate (drop 4 s)) [
        | some l ↦ (encode_rune (65536 + (r - 0xD800) * 1024 + (l - 0xDC00)), 10)
        | none ↦ (replacement, 4)
      ]
      else (encode_rune r, 4)
]

-- What an escape stands for, with the number of bytes behind the backslash that it takes.
unfoldable pub escape : Bytes → Bytes × ℕ
unfolding unicode_escape
escape [] = ([], 0)
escape (e ∷ s) =
    if e == b'u'
    then (let (out, n) = unicode_escape s in (out, n + 1))
    else if e == b'n'
    then (10 ∷ [], 1)
    else if e == b't'
    then (9 ∷ [], 1)
    else if e == b'r'
    then (13 ∷ [], 1)
    else if e == b'b'
    then (8 ∷ [], 1)
    else if e == b'f'
    then (12 ∷ [], 1)
    else (e ∷ [], 1)

-- The text of one character of a literal, with the number of further bytes that it takes.
unfoldable pub character : ℕ → Bytes → Bytes × ℕ
unfolding escape utf8_tail
character c s =
    if c == b'\\'
    then escape s
    else if ltb c 0x80
    then (c ∷ [], 0)
    else elim (utf8_tail c s) [ none ↦ (replacement, 0) | some n ↦ (c ∷ take n s, n) ]

-- The text of a literal's content; the number counts bytes that are taken already.
unfoldable pub unquote_from : ℕ → Bytes → Bytes
unfolding character
unquote_from n [] = []
unquote_from (suc n) (c ∷ s) = unquote_from n s
unquote_from zero (c ∷ s) = let t = character c s in t.0 ++ unquote_from t.1 s

unfoldable pub unquote : Bytes → Bytes
unfolding unquote_from
unquote s = unquote_from 0 s

-- Where the reader of a literal stands: in plain text, behind a backslash, or before so many
-- hexadecimal digits.
pub data Mode : Type 0 where
  plain escaped : Mode
  digits : ℕ → Mode

abbrev is_escape : ℕ → Bool
is_escape c =
    c == b'b'
    || c == b'f'
    || c == b'n'
    || c == b'r'
    || c == b't'
    || c == b'\\'
    || c == b'/'
    || c == b'"'

-- The mode behind one byte that does not end the literal.
unfoldable pub next_mode : Mode → ℕ → Option Mode
unfolding hex_value
next_mode plain c = if ltb c 0x20 then none else if c == b'\\' then some escaped else some plain
next_mode escaped c =
    if c == b'u' then some (digits 3) else if is_escape c then some plain else none
next_mode (digits zero) c = if is_some (hex_value c) then some plain else none
next_mode (digits (suc n)) c = if is_some (hex_value c) then some (digits n) else none

abbrev pub is_plain : Mode → Bool
is_plain plain = true
is_plain escaped = false
is_plain (digits n) = false

-- The content of a literal, read from behind its first quote, and what follows its last.
unfoldable pub literal : Mode → Bytes → Option (Bytes × Bytes)
unfolding next_mode
literal mode [] = none
literal mode (c ∷ s) =
    if is_plain mode && c == b'"'
    then some ([], s)
    else (next_mode mode c >>= λ m. literal m s >>= λ r. some (c ∷ r.0, r.1))
