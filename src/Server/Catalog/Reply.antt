-- ===== src/Server/Catalog/Reply.antt =====
-- server/response.go, ToolResult of server/invoke.go and the contents of server/tool_catalog.go: a
-- reply as a tool result, and its size on the wire.
pub mod Size
use velocity_mcp.Base.{Bool, List, Option, [], false, map, none, some, true, ℕ, ◌∷◌}
use velocity_mcp.Bytes.{Bytes, codes}
use velocity_mcp.Json.{Json, Members, arr, bool, end, find, member, obj, put, str, to_items}
use velocity_mcp.Json.Marshal.{wire_size}

-- The contents that a reply of the catalog has: a text, an item of an inner result, and what
-- stands for such an item in the copy that is measured.
pub data Content : Type 0 where
  text : Bytes → Content
  forwarded : Members → Content
  placeholder : Content

unfoldable pub to_tool : Content → Json
to_tool (text s) =
    obj (member (codes "type") (str (codes "text")) (member (codes "text") (str s) end))
to_tool (forwarded shape) = obj shape
to_tool placeholder = obj end

pub record Response : Type 0 where
  pub contents : List Content
  pub is_error : Bool
  pub meta : Members
  pub structured : Members

abbrev pub text_response : Bytes → Response
text_response s = record { contents = text s ∷ []; is_error = false; meta = end; structured = end }

-- `Error`.
abbrev pub error_response : Bytes → Response
error_response s = record (text_response s) { is_error = true }

-- `base[key] = m` if `m` has a member and `base` none of that key.
unfoldable pub add_unless_empty : Bytes → Members → Members → Members
unfolding put
add_unless_empty key end base = base
add_unless_empty key (member k v ms) base = elim (find key base) [
  | some _ ↦ base
  | none ↦ put key (obj (member k v ms)) base
]

unfoldable pub merge_meta : Response → Members → Members
unfolding add_unless_empty
merge_meta r base =
    add_unless_empty (codes "structuredContent") r.structured
      (add_unless_empty (codes "_meta") r.meta base)

-- `ToolResult`: no content of a catalog refuses.
unfoldable pub tool_result : Response → Members
unfolding merge_meta to_tool
tool_result r = merge_meta r (
    member (codes "content") (arr (to_items (map to_tool r.contents)))
      (member (codes "isError") (bool r.is_error) end))

unfoldable pub catalog_reply_size : Response → Option ℕ
unfolding tool_result wire_size
catalog_reply_size r = wire_size (obj (tool_result r))
