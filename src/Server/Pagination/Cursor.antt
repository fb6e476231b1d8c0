-- ===== src/Server/Pagination/Cursor.antt =====
-- A cursor carries the offset that it was made of.
use velocity_mcp.Base.{
  All, All-append, [], ap, arith, drop, false, refl, some, suc, true, zero, ℕ, ◌++◌, ◌<◌, ◌==◌,
  ◌>>=◌, ◌^◌, ◌∙◌, ◌∷◌, ◌≡◌,
}
use velocity_mcp.Bytes.{AreBytes, Bytes, codes, equal}
use velocity_mcp.Base64
use velocity_mcp.Json.{
  Json, end, member, num, obj, parse, parse_fields, put, read_field, read_list, read_object,
  read_scalar, read_text, read_value, skip_space, to_members, whole,
}
use velocity_mcp.Json.Text.{literal, next_mode, unquote}
use velocity_mcp.Json.Number.{first_is, non_negative, number}
use velocity_mcp.Json.Decode.{same_field}
use velocity_mcp.Json.Encode.{print_decimal}
use velocity_mcp.Server.Pagination.{
  encode_cursor, offset_object, set_fields, start_offset, unmarshal_offset,
}
use velocity_mcp.Json.Number.Decimal.{
  IsDigit, int64-print_decimal, number-print_decimal, print_decimal-digits, take-before,
}
use velocity_mcp.Base64.RoundTrip.{decode-encode}

IsDigit-AreBytes : (d : Bytes) → All IsDigit d → AreBytes d
IsDigit-AreBytes [] h = tt
IsDigit-AreBytes (b ∷ d) (p, h) = (omega arith, IsDigit-AreBytes d h)

print_decimal-AreBytes : (n : ℕ) → AreBytes (print_decimal n)
print_decimal-AreBytes n =
    let (b, t, e, h) = print_decimal-digits n in rw e (IsDigit-AreBytes (b ∷ t) h)

offset_object-AreBytes : (n : ℕ) → AreBytes (offset_object n)
unfolding offset_object
offset_object-AreBytes n =
    All-append (λ b. b < 256) (codes "{\"offset\":") (print_decimal n ++ codes "}") (omega arith)
      (All-append (λ b. b < 256) (print_decimal n) (codes "}") (print_decimal-AreBytes n)
        (omega arith))

skip_space-digit : (b : ℕ) (s : Bytes) → IsDigit b → skip_space (b ∷ s) ≡ b ∷ s
unfolding skip_space
skip_space-digit b s h = ground arith

read_scalar-digit :
    (b : ℕ) (s : Bytes)
    → IsDigit b
    → read_scalar (b ∷ s) ≡ (number (b ∷ s) >>= λ r. some (num r.0, r.1))
unfolding read_scalar
read_scalar-digit b s h =
    let quote_not : (b == b'"') ≡ false = ground arith in
    let t_not : (b == b't') ≡ false = ground arith in
    let f_not : (b == b'f') ≡ false = ground arith in
    let n_not : (b == b'n') ≡ false = ground arith in rw (quote_not, t_not, f_not, n_not)

read_value-digit : (k b : ℕ) (s : Bytes) → IsDigit b → read_value k (b ∷ s) ≡ read_scalar (b ∷ s)
unfolding read_value
read_value-digit zero b s h =
    let open_not : (b == b'[') ≡ false = ground arith in
    let brace_not : (b == b'{') ≡ false = ground arith in
    rw (skip_space-digit b s h, open_not, brace_not)
read_value-digit (suc k) b s h =
    let open_not : (b == b'[') ≡ false = ground arith in
    let brace_not : (b == b'{') ≡ false = ground arith in
    rw (skip_space-digit b s h, open_not, brace_not)

read-print_decimal :
    (k n : ℕ)
    → (skip_space (print_decimal n ++ 125 ∷ []) ≡ print_decimal n ++ 125 ∷ [])
      × (read_value k (print_decimal n ++ 125 ∷ []) ≡ some (num (print_decimal n), 125 ∷ []))
read-print_decimal k n =
    let (b, t, e, h) = print_decimal-digits n in
    let read =
      number-print_decimal n 125 []
        (refl, λ q. omega (arith, q), λ q. omega (arith, q), λ q. omega (arith, q)) in
    (
      rw e (skip_space-digit b (t ++ 125 ∷ []) h.0),
      rw e (
          read_value-digit k b (t ++ 125 ∷ []) h.0
          ∙ read_scalar-digit b (t ++ 125 ∷ []) h.0
          ∙ ap (λ o. o >>= λ r. some (num r.0, r.1)) (rw e at read)),
    )

read-offset :
    (k n : ℕ)
    → read_object (read_value k) (drop 1 (offset_object n))
      ≡ some (
        record { name = codes "offset"; raw = print_decimal n; val = num (print_decimal n) } ∷ [],
        [],
      )
unfolding offset_object read_object read_list read_field read_text literal next_mode unquote
    skip_space
read-offset k n =
    let (space, read) = read-print_decimal k n in
    rw (space, read) (rw (take-before (print_decimal n) (125 ∷ [])))

abbrev object_of : ℕ → Json
object_of n = obj (member (codes "offset") (num (print_decimal n)) end)

read_value-offset : (k n : ℕ) → read_value (suc k) (offset_object n) ≡ some (object_of n, [])
unfolding read_value skip_space to_members put equal
read_value-offset k n =
    let opened : skip_space (offset_object n) ≡ offset_object n = unfold offset_object in refl in
    let brace : first_is b'{' (offset_object n) ≡ true = unfold offset_object in refl in
    let bracket : first_is b'[' (offset_object n) ≡ false = unfold offset_object in refl in
    rw (opened, brace, bracket, read-offset k n)

parse-offset_object : (n : ℕ) → parse (offset_object n) ≡ some (object_of n)
unfolding parse whole skip_space equal
parse-offset_object n = rw (read_value-offset 9999 n)

parse_fields-offset_object :
    (n : ℕ)
    → parse_fields (offset_object n)
      ≡ some (
          record { name = codes "offset"; raw = print_decimal n; val = num (print_decimal n) } ∷ [])
unfolding parse_fields whole skip_space equal
parse_fields-offset_object n =
    let opened : skip_space (offset_object n) ≡ offset_object n = unfold offset_object in refl in
    let brace : first_is b'{' (offset_object n) ≡ true = unfold offset_object in refl in
    rw (opened, brace, read-offset 9999 n)

unmarshal-offset_object :
    (n : ℕ) → n < 2 ^ 63 → unmarshal_offset (offset_object n) ≡ some (non_negative n)
unfolding unmarshal_offset set_fields same_field
unmarshal-offset_object n h =
    rw (parse-offset_object n, parse_fields-offset_object n) (rw (int64-print_decimal n h))

pub equal-encode_cursor : (n : ℕ) → equal (encode_cursor n) [] ≡ false
unfolding encode_cursor offset_object Base64.encode equal
equal-encode_cursor n = refl

-- Reading a cursor gives back the offset that it was made of, if that is an `int`.
pub start_offset-encode_cursor : (n : ℕ) → n < 2 ^ 63 → start_offset (encode_cursor n) ≡ n
unfolding start_offset
start_offset-encode_cursor n h =
    let decoded : Base64.decode false (encode_cursor n) ≡ some (offset_object n) =
      unfold encode_cursor in decode-encode false (offset_object n) (offset_object-AreBytes n) in
    rw (equal-encode_cursor n, decoded, unmarshal-offset_object n h)
