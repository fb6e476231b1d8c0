-- ===== src/Json/Encode.antt =====
-- json.Marshal of strings, of integers and of a map of raw members.
use velocity_mcp.Base.{
  Bool, Option, [], all, drop, false, if◌then◌else◌, ltb, none, not, some, suc, take, true, zero, ℕ,
  ◌%◌, ◌&&◌, ◌++◌, ◌+◌, ◌-◌, ◌/◌, ◌==◌, ◌||◌, ◌∷◌,
}
use velocity_mcp.Bytes.{Bytes, codes, equal, slice}
use velocity_mcp.Assoc.{Assoc}
use velocity_mcp.Json.{is_json_space, valid}
use velocity_mcp.Json.Text.{utf8_tail}
use velocity_mcp.Json.Decode.{RawMembers}

abbrev hex_digit : ℕ → ℕ
hex_digit v = if ltb v 10 then v + 48 else v + 87

abbrev backslash : ℕ → Bytes
backslash c = b'\\' ∷ c ∷ []

abbrev unicode : ℕ → Bytes
unicode c = codes "\\u00" ++ hex_digit (c / 16) ∷ hex_digit (c % 16) ∷ []

abbrev is_html : ℕ → Bool
is_html c = c == b'<' || c == b'>' || c == b'&'

-- One ASCII character of a string; the flag says whether the characters of HTML are escaped.
unfoldable pub quote_ascii : Bool → ℕ → Bytes
quote_ascii html c =
    if c == b'"' || c == b'\\'
    then backslash c
    else if c == 8
    then backslash b'b'
    else if c == 12
    then backslash b'f'
    else if c == 10
    then backslash b'n'
    else if c == 13
    then backslash b'r'
    else if c == 9
    then backslash b't'
    else if ltb c 32 || html && is_html c
    then unicode c
    else c ∷ []

abbrev first_byte : Bytes → ℕ
first_byte [] = 0
first_byte (x ∷ r) = x

-- The line separators U+2028 and U+2029, by their last byte.
abbrev is_separator : ℕ → Bytes → Bool
is_separator c s =
    c == 0xE2
    && first_byte s == 0x80
    && (first_byte (drop 1 s) == 0xA8 || first_byte (drop 1 s) == 0xA9)

-- The spelling of a character of so many further bytes.
unfoldable pub quote_wide : ℕ → Bytes → ℕ → Bytes × ℕ
unfolding equal
quote_wide c s n =
    if is_separator c s
    then (codes "\\u202" ++ (if equal (slice s 1 2) (0xA8 ∷ []) then b'8' else b'9') ∷ [], n)
    else (c ∷ take n s, n)

-- The spelling of one character, with the number of further bytes that it takes.
unfoldable pub quote_character : Bool → ℕ → Bytes → Bytes × ℕ
unfolding quote_ascii utf8_tail
quote_character html c s =
    if ltb c 0x80
    then (quote_ascii html c, 0)
    else elim (utf8_tail c s) [ none ↦ (codes "\\ufffd", 0) | some n ↦ quote_wide c s n ]

unfoldable pub quote_from : Bool → ℕ → Bytes → Bytes
unfolding quote_character quote_wide
quote_from html n [] = []
quote_from html (suc n) (c ∷ s) = quote_from html n s
quote_from html zero (c ∷ s) = let t = quote_character html c s in t.0 ++ quote_from html t.1 s

-- A string as a JSON literal.
unfoldable pub quote_text : Bool → Bytes → Bytes
unfolding quote_from
quote_text html s = b'"' ∷ (quote_from html 0 s ++ b'"' ∷ [])

-- The literal that json.Marshal writes.
unfoldable pub quote : Bytes → Bytes
unfolding quote_text
quote s = quote_text true s

abbrev is_line_separator : ℕ → ℕ → ℕ → Bool
is_line_separator c d e = c == 226 && d == 128 && (e == 168 || e == 169)

-- The line separators U+2028 and U+2029 of a raw token, which stand in its strings, escaped.
unfoldable pub escape_separators : Bytes → Bytes
escape_separators [] = []
escape_separators (c ∷ []) = c ∷ []
escape_separators (c ∷ d ∷ []) = c ∷ d ∷ []
escape_separators (c ∷ d ∷ e ∷ s) = elim (is_line_separator c d e) [
  | true ↦ codes "\\u202" ++ (e - 112) ∷ escape_separators s
  | false ↦ c ∷ escape_separators (d ∷ e ∷ s)
]

-- `compact` of a raw token: no space outside strings, and no HTML characters. The flags say
-- whether the text stands in a string, and behind a backslash there.
unfoldable pub compact : Bool → Bool → Bytes → Bytes
compact inside behind [] = []
compact inside behind (c ∷ s) =
    let inside' = if c == b'"' && not behind then not inside else inside in
    let rest = compact inside' (inside && c == b'\\' && not behind) s in
    if not inside && is_json_space c
    then rest
    else if is_html c
    then unicode c ++ rest
    else c ∷ rest

-- The decimal digits of a number, by repeated division; the fuel bounds their count.
unfoldable pub decimal_digits : ℕ → ℕ → Bytes → Bytes
decimal_digits zero n acc = acc
decimal_digits (suc f) n acc =
    let more = decimal_digits f (n / 10) ((n % 10 + 48) ∷ acc) in
    if ltb n 10 then (n + 48) ∷ acc else more

unfoldable pub print_decimal : ℕ → Bytes
unfolding decimal_digits
print_decimal n = decimal_digits (suc n) n []

-- The order of Go strings.
unfoldable pub less : Bytes → Bytes → Bool
less [] [] = false
less [] (y ∷ ys) = true
less (x ∷ xs) [] = false
less (x ∷ xs) (y ∷ ys) = if x == y then less xs ys else ltb x y

module _ {ℓ} {V : Type ℓ} where
  unfoldable pub insert_sorted : Bytes × V → Assoc V → Assoc V
  unfolding less
  insert_sorted e [] = e ∷ []
  insert_sorted e (d ∷ m) = if less e.0 d.0 then e ∷ d ∷ m else d ∷ insert_sorted e m

  -- The entries of a map, by their keys.
  unfoldable pub sort_keys : Assoc V → Assoc V
  unfolding insert_sorted
  sort_keys [] = []
  sort_keys (e ∷ m) = insert_sorted e (sort_keys m)

abbrev marshal_entry : Bytes × Bytes → Bytes
marshal_entry e = quote e.0 ++ b':' ∷ compact false false (escape_separators e.1)

unfoldable pub marshal_entries : RawMembers → Bytes
unfolding quote compact escape_separators
marshal_entries [] = []
marshal_entries (e ∷ []) = marshal_entry e
marshal_entries (e ∷ m) = marshal_entry e ++ b',' ∷ marshal_entries m

-- A map of raw members; a token that is not JSON is refused.
unfoldable pub marshal_members : RawMembers → Option Bytes
unfolding valid marshal_entries sort_keys
marshal_members m =
    if all (λ e. valid e.1) m
    then some (b'{' ∷ (marshal_entries (sort_keys m) ++ b'}' ∷ []))
    else none
