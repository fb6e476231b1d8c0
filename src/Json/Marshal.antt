-- ===== src/Json/Marshal.antt =====
-- encoding/json: the encoder of decoded values, with and without the escapes of HTML.
pub mod Width
use velocity_mcp.Base.{
  Bool, List, Option, [], false, if◌then◌else◌, length, map, none, some, true, ℕ, ◌++◌, ◌>>=◌, ◌∷◌,
}
use velocity_mcp.Bytes.{Bytes, codes, equal}
use velocity_mcp.Assoc.{Assoc}
use velocity_mcp.Json.{Items, Json, Members, arr, bool, cons, end, member, nil, null, num, obj, str}
use velocity_mcp.Json.Number.{number}
use velocity_mcp.Json.Encode.{quote_text, sort_keys}

-- Texts behind commas, and texts between commas.
abbrev pub followed : List Bytes → Bytes
followed [] = []
followed (x ∷ xs) = b',' ∷ (x ++ followed xs)

abbrev pub joined : List Bytes → Bytes
joined [] = []
joined (x ∷ xs) = x ++ followed xs

abbrev pub boolean : Bool → Bytes
boolean true = codes "true"
boolean false = codes "false"

-- A `json.Number` must be spelled as a number of JSON.
unfoldable pub is_number : Bytes → Bool
unfolding equal
is_number raw = elim (number raw) [ none ↦ false | some (t, rest) ↦ equal rest [] ]

abbrev pub entry_text : Bool → Bytes × Bytes → Bytes
entry_text html e = quote_text html e.0 ++ b':' ∷ e.1

abbrev pub array_text : List Bytes → Bytes
array_text elements = b'[' ∷ (joined elements ++ b']' ∷ [])

-- An object, from the texts of its values: a map is written in the order of its keys.
abbrev pub object_text : Bool → Assoc Bytes → Bytes
object_text html entries = b'{' ∷ (joined (map (entry_text html) (sort_keys entries)) ++ b'}' ∷ [])

-- The text of a value; `none` for a value that cannot be encoded.
unfoldable mutual
  unfolding is_number quote_text sort_keys

  pub marshal : Bool → Json → Option Bytes
  marshal html null = some (codes "null")
  marshal html (bool b) = some (boolean b)
  marshal html (num raw) = if is_number raw then some raw else none
  marshal html (str s) = some (quote_text html s)
  marshal html (arr vs) = marshal_items html vs >>= λ elements. some (array_text elements)
  marshal html (obj ms) = marshal_values html ms >>= λ entries. some (object_text html entries)

  pub marshal_items : Bool → Items → Option (List Bytes)
  marshal_items html nil = some []
  marshal_items html (cons v vs) = do x ← marshal html v; xs ← marshal_items html vs; some (x ∷ xs)

  pub marshal_values : Bool → Members → Option (Assoc Bytes)
  marshal_values html end = some []
  marshal_values html (member k v ms) = do
    x ← marshal html v
    xs ← marshal_values html ms
    some ((k, x) ∷ xs)

-- The number of bytes that json.Marshal writes.
unfoldable pub wire_size : Json → Option ℕ
unfolding marshal
wire_size v = marshal true v >>= λ s. some (length s)
