-- ===== src/Transport/HeaderValue.antt =====
-- transport/headervalue.go: how a value travels in an MCP header.
pub mod Literal
pub mod RoundTrip
pub mod Canonical
pub mod Tests
use velocity_mcp.Base.{
  Bool, Option, [], false, if◌then◌else◌, leb, length, none, not, some, suc, true, ℕ, ◌&&◌, ◌++◌,
  ◌+◌, ◌-◌, ◌==◌, ◌||◌, ◌∷◌,
}
use velocity_mcp.Bytes.{Bytes, codes, equal, has_prefix, has_suffix, slice, trim}
use velocity_mcp.Base64

abbrev pub base64_prefix : Bytes
base64_prefix = codes "=?base64?"

abbrev pub base64_suffix : Bytes
base64_suffix = codes "?="

pub data HeaderError : Type 0 where
  syntax encoding : HeaderError

pub data Decoded : Type 0 where
  ok : Bytes → Decoded
  err : HeaderError → Decoded

unfoldable pub is_sentinel_wrapped : Bytes → Bool
unfolding has_prefix has_suffix
is_sentinel_wrapped value =
    leb (length base64_prefix + length base64_suffix) (length value)
    && has_prefix value base64_prefix
    && has_suffix value base64_suffix

abbrev pub visible : ℕ → Bool
visible b = leb 0x21 b && leb b 0x7E

abbrev pub spacing : ℕ → Bool
spacing b = b == b' ' || b == b'\t'

-- One round of the loop at index `i` of `n` bytes.
abbrev pub literal_byte : ℕ → ℕ → ℕ → Bool
literal_byte i n b =
    if not (visible b) && not (spacing b)
    then false
    else if spacing b && (i == 0 || i == n - 1)
    then false
    else true

unfoldable pub literal_from : ℕ → ℕ → Bytes → Bool
literal_from i n [] = true
literal_from i n (b ∷ s) = literal_byte i n b && literal_from (suc i) n s

unfoldable pub is_literal_header_value : Bytes → Bool
unfolding literal_from equal
is_literal_header_value value =
    if equal value [] then false else literal_from 0 (length value) value

unfoldable pub wrap : Bytes → Bytes
wrap value = base64_prefix ++ (Base64.encode value ++ base64_suffix)

unfoldable pub encode_header_value : Bytes → Bytes
encode_header_value value =
    if not (is_sentinel_wrapped value) && is_literal_header_value value then value else wrap value

unfoldable pub payload : Bytes → Bytes
payload header = slice header (length base64_prefix) (length header - length base64_suffix)

abbrev pub of_base64 : Option Bytes → Decoded
of_base64 none = err encoding
of_base64 (some decoded) = ok decoded

unfoldable pub decode_header_value : Bytes → Decoded
decode_header_value header =
    if not (is_literal_header_value header)
    then err syntax
    else if not (is_sentinel_wrapped header)
    then ok header
    else of_base64 (Base64.decode true (payload header))

-- `strings.Trim(value, " \t")`.
unfoldable pub trim_ows : Bytes → Bytes
unfolding trim
trim_ows value = trim spacing value
