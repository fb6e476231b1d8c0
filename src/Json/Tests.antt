-- ===== src/Json/Tests.antt =====
-- Runs of the reader.
use velocity_mcp.Base.{[], false, map, none, refl, some, true, ◌++◌, ◌>>=◌, ◌∷◌, ◌≡◌}
use velocity_mcp.Bytes.{Bytes, codes, equal}
use velocity_mcp.Json.Encode.{escape_separators}
use velocity_mcp.Json.{
  Field, arr, bool, cons, end, find, member, nil, null, num, obj, parse, parse_fields, put,
  read_array, read_field, read_list, read_object, read_scalar, read_text, read_value, read_word,
  skip_space, str, to_items, to_members, whole,
}
use velocity_mcp.Json.Number.{
  decimal, exponent, fraction, in_float_range, int64, number, some_digits, span_digits,
}
use velocity_mcp.Json.Text.{literal, next_mode, unquote}

-- Opens the reader.
unfoldable pub reader : Unit {0}
unfolding parse parse_fields whole read_value read_array read_object read_list read_field
    read_scalar read_word read_text skip_space number fraction exponent some_digits span_digits
    to_items to_members put find literal next_mode unquote equal int64 decimal in_float_range
reader = tt

abbrev source : Bytes
source = codes " {\"id\" : 7, \"a\\u00e9\":[null, -1.5e3,\"x\"] , \"id\":true} "

parse_runs :
    parse source
    ≡ some (
        obj (
          member (codes "id") (bool true) (
            member
              (97 ∷ 0xC3 ∷ 0xA9 ∷ [])
              (arr (cons null (cons (num (codes "-1.5e3")) (cons (str (codes "x")) nil))))
              end)))
unfolding reader
parse_runs = refl

parse_refuses :
    (parse (codes "{\"a\":01}") ≡ none)
    × (parse (codes "[1,]") ≡ none)
    × (parse (codes "1 2") ≡ none)
unfolding reader
parse_refuses = (refl, refl, refl)

fields_raw :
    (parse_fields (codes "{ \"k\" :  [1, 2] ,\"m\":\"v\"}") >>= λ fs.
    some (map (λ (f : Field). f.raw) fs))
    ≡ some (codes "[1, 2]" ∷ codes "\"v\"" ∷ [])
unfolding reader
fields_raw = refl

ranges :
    (in_float_range (codes "1e308") ≡ true)
    × (in_float_range (codes "1.8e308") ≡ false)
    × (int64 (codes "9223372036854775808") ≡ none)
    × (int64 (codes "1.0") ≡ none)
unfolding reader
ranges = (refl, refl, refl, refl)

separators_escaped :
    escape_separators (b'"' ∷ 226 ∷ 128 ∷ 168 ∷ 226 ∷ 128 ∷ 170 ∷ b'"' ∷ [])
    ≡ codes "\"\\u2028" ++ 226 ∷ 128 ∷ 170 ∷ b'"' ∷ []
unfolding escape_separators
separators_escaped = refl
