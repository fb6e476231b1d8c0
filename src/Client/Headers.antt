-- ===== src/Client/Headers.antt =====
-- client/headers.go: the headers with which a client mirrors a request.
pub mod Delivery
pub mod Mirrored
pub mod Tests
use velocity_mcp.Base.{
  Bool, Option, [], false, if◌then◌else◌, leb, length, none, not, some, suc, true, ℕ, ◌&&◌, ◌++◌,
  ◌-◌, ◌==◌, ◌>>=◌, ◌||◌, ◌∷◌,
}
use velocity_mcp.Base64
use velocity_mcp.Assoc.{Assoc, insert, lookup}
use velocity_mcp.Bytes.{Bytes, codes, equal, has_prefix, has_suffix, index}
use velocity_mcp.Json.Decode.{or_empty, unmarshal_members, unmarshal_string}

unfoldable pub method_header : Bytes
method_header = codes "Mcp-Method"

unfoldable pub name_header : Bytes
name_header = codes "Mcp-Name"

abbrev pub base64_header_prefix : Bytes
base64_header_prefix = codes "=?base64?"

abbrev pub base64_header_suffix : Bytes
base64_header_suffix = codes "?="

unfoldable pub is_base64_header_value : Bytes → Bool
unfolding has_prefix has_suffix
is_base64_header_value value =
    has_prefix value base64_header_prefix && has_suffix value base64_header_suffix

-- One round of the loop at an index.
abbrev pub printable_byte : ℕ → ℕ → ℕ → Bool
printable_byte index n char =
    let edge = index == 0 || index == n - 1 in
    if leb 0x21 char && leb char 0x7E
    then true
    else if not edge && (char == b' ' || char == b'\t')
    then true
    else false

unfoldable pub printable_from : ℕ → ℕ → Bytes → Bool
printable_from index n [] = true
printable_from index n (char ∷ value) =
    printable_byte index n char && printable_from (suc index) n value

unfoldable pub is_printable_field_value : Bytes → Bool
unfolding printable_from equal
is_printable_field_value value =
    if equal value [] then false else printable_from 0 (length value) value

unfoldable pub client_encode_header_value : Bytes → Bytes
client_encode_header_value value =
    if not (is_base64_header_value value) && is_printable_field_value value
    then value
    else base64_header_prefix ++ (Base64.encode value ++ base64_header_suffix)

unfoldable pub name_key_for : Bytes → Bytes
unfolding equal
name_key_for method =
    if equal method (codes "tools/call") || equal method (codes "prompts/get")
    then codes "name"
    else if equal method (codes "resources/read")
    then codes "uri"
    else []

-- `mirroredName`: the params' member of the key, if it decodes into a string.
unfoldable pub mirrored_name : Bytes → Bytes → Option Bytes
mirrored_name method params =
    let key = name_key_for method in
    if length key == 0 || length params == 0
    then none
    else (unmarshal_members params >>= λ m.
        lookup key (or_empty m) >>= λ token. unmarshal_string token)

-- `mirroredHeaders`, by the name.
unfoldable pub headers_of : Bytes → Option Bytes → Assoc Bytes
headers_of method none = (method_header, method) ∷ []
headers_of method (some name) =
    insert name_header (client_encode_header_value name) ((method_header, method) ∷ [])

unfoldable pub mirrored_headers : Bytes → Bytes → Assoc Bytes
mirrored_headers method params = headers_of method (mirrored_name method params)
