-- ===== src/Server/Pagination.antt =====
-- server/pagination.go: pages of a list, and the cursor that names the next one.
pub mod Cursor
pub mod Walk
pub mod Tests
use velocity_mcp.Base.{
  List, Option, [], drop, false, if◌then◌else◌, leb, length, ltb, none, some, take, ℕ, ◌++◌, ◌+◌,
  ◌-◌, ◌==◌, ◌>>=◌, ◌^◌, ◌||◌, ◌∷◌,
}
use velocity_mcp.Bytes.{Bytes, codes, equal}
use velocity_mcp.Base64
use velocity_mcp.Json.{Field, Json, arr, bool, items, null, num, obj, parse, parse_fields, str}
use velocity_mcp.Json.Number.{Int64, int64, negative, non_negative}
use velocity_mcp.Json.Decode.{same_field}
use velocity_mcp.Json.Encode.{print_decimal}

-- A member into an `int`: a null leaves it as it is.
abbrev pub set_offset : Int64 → Json → Option Int64
set_offset old null = some old
set_offset old (num token) = int64 token
set_offset old (bool b) = none
set_offset old (str s) = none
set_offset old (arr vs) = none
set_offset old (obj ms) = none

unfoldable pub set_fields : Int64 → List Field → Option Int64
set_fields old [] = some old
set_fields old (f ∷ fs) =
    (if same_field (codes "offset") f.name then set_offset old f.val else some old) >>= λ new.
    set_fields new fs

abbrev fields_of : Option Json → Option (List Field) → Option Int64
fields_of (some null) fields = some (non_negative 0)
fields_of (some (obj ms)) (some fields) = set_fields (non_negative 0) fields
fields_of _ _ = none

-- `json.Unmarshal` into the struct with the field `Offset`.
unfoldable pub unmarshal_offset : Bytes → Option Int64
unmarshal_offset s = fields_of (parse s) (parse_fields s)

abbrev pub offset_or_zero : Option Int64 → ℕ
offset_or_zero none = 0
offset_or_zero (some (non_negative n)) = n
offset_or_zero (some (negative n)) = 0

unfoldable pub start_offset : Bytes → ℕ
start_offset cursor = if equal cursor [] then 0 else elim (Base64.decode false cursor) [
  | none ↦ 0
  | some decoded ↦ offset_or_zero (unmarshal_offset decoded)
]

unfoldable pub offset_object : ℕ → Bytes
offset_object offset = codes "{\"offset\":" ++ (print_decimal offset ++ codes "}")

unfoldable pub encode_cursor : ℕ → Bytes
encode_cursor offset = Base64.encode (offset_object offset)

-- `start + perPage` of two `int`s that are not negative: past 2^63 it wraps below zero.
unfoldable pub add_int : ℕ → ℕ → Int64
add_int a b = if ltb (a + b) (2 ^ 63) then non_negative (a + b) else negative (2 ^ 64 - (a + b))

abbrev pub page_size : Int64 → ℕ
page_size (non_negative n) = n
page_size (negative n) = 0

module _ {ℓ} {A : Type ℓ} where
  -- The slice behind the guards; a negative end is a panic, here `none`.
  unfoldable pub page_from : List A → ℕ → Int64 → Option (List A × Bytes)
  page_from items start (non_negative end') =
      let stop = if ltb (length items) end' then length items else end' in
      some (
        take (stop - start) (drop start items),
        if ltb end' (length items) then encode_cursor end' else [],
      )
  page_from items start (negative n) = none

  -- `Paginate`, by the page size and the incoming cursor.
  unfoldable pub paginate : List A → Int64 → Bytes → Option (List A × Bytes)
  paginate items per_page cursor =
      let start = start_offset cursor in
      if page_size per_page == 0 || leb (length items) start
      then some ([], [])
      else page_from items start (add_int start (page_size per_page))
