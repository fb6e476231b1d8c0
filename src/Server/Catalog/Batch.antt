-- ===== src/Server/Catalog/Batch.antt =====
-- server/tool_catalog.go: the outcome of each call of a batch, and the reply that carries them.
use velocity_mcp.Base.{
  Bool, List, Option, [], any, false, if◌then◌else◌, is_some, length, none, not, some, true, ℕ,
  ◌&&◌, ◌++◌, ◌>>=◌, ◌||◌, ◌∷◌,
}
use velocity_mcp.Bytes.{Bytes, codes}
use velocity_mcp.Json.{Json, Members, arr, bool, end, find, items, member, obj}
use velocity_mcp.Json.Encode.{print_decimal, quote_text}
use velocity_mcp.Json.Marshal.{array_text, boolean, marshal, wire_size}
use velocity_mcp.Server.Catalog.Limits.{LimitError}

-- A content item with its size: an element of `content` and the one of `contentSizes` beside it.
pub record Sized : Type 0 where
  pub shape : Members
  pub size : ℕ

pub record CatalogBatchEntry : Type 0 where
  pub index : ℕ
  pub name : Bytes
  pub is_error : Bool
  pub content : List Sized
  pub structured : Members
  pub meta : Members
  pub meta_size : ℕ
  pub unencodable : Bool

-- The type assertions on a member of a result: the zero value if it has another type.
abbrev pub bool_of : Option Json → Bool
bool_of (some (bool b)) = b
bool_of _ = false

abbrev members_of : Option Json → Members
members_of (some (obj ms)) = ms
members_of _ = end

abbrev pub items_of : Option Json → List Json
items_of (some (arr vs)) = items vs
items_of _ = []

-- The size that `catalogWireSize` returns with an error or without.
abbrev pub size_or_zero : Option ℕ → ℕ
size_or_zero none = 0
size_or_zero (some n) = n

-- The items that are objects, measured.
unfoldable pub sized_items : List Json → List Sized
unfolding wire_size
sized_items [] = []
sized_items (obj shape ∷ vs) =
    record { shape = shape; size = size_or_zero (wire_size (obj shape)) } ∷ sized_items vs
sized_items (_ ∷ vs) = sized_items vs

abbrev pub can_encode : Members → Bool
can_encode ms = is_some (wire_size (obj ms))

abbrev pub is_empty : Members → Bool
is_empty end = true
is_empty (member k v ms) = false

-- `catalogBatchEntryFor`.
unfoldable pub catalog_batch_entry_for : ℕ → Bytes → Members → CatalogBatchEntry
unfolding find items sized_items wire_size
catalog_batch_entry_for index name result =
    let content = sized_items (items_of (find (codes "content") result)) in
    let meta = members_of (find (codes "_meta") result) in
    record {
      index = index;
      name = name;
      is_error = bool_of (find (codes "isError") result);
      content = content;
      structured = members_of (find (codes "structuredContent") result);
      meta = meta;
      meta_size = if is_empty meta then 0 else size_or_zero (wire_size (obj meta));
      unencodable =
          any (λ s. not (can_encode s.shape)) content
          || not (is_empty meta) && not (can_encode meta);
    }

pub record CatalogResultRecord : Type 0 where
  pub name : Bytes
  pub index : ℕ
  pub is_error : Bool
  pub content_items : ℕ
  pub structured : Members

pub record CatalogOmittedCall : Type 0 where
  pub name : Bytes
  pub index : ℕ

pub record CatalogExecuteReport : Type 0 where
  pub ok : Bool
  pub complete : Bool
  pub error : Option LimitError
  pub results : List CatalogResultRecord
  pub omitted : Option CatalogOmittedCall
  pub requested : ℕ
  pub attempted : ℕ
  pub reported : ℕ

unfoldable pub result_record : CatalogBatchEntry → CatalogResultRecord
result_record e = record {
  name = e.name;
  index = e.index;
  is_error = e.is_error;
  content_items = length e.content;
  structured = e.structured;
}

-- The JSON text of a report, as `catalogEncode` writes it: the members of a struct in their order.
unfoldable pub record_text : CatalogResultRecord → Option Bytes
unfolding quote_text marshal
record_text r = do
  structured ←
      if is_empty r.structured
      then some []
      else (marshal false (obj r.structured) >>= λ s. some (codes ",\"structuredContent\":" ++ s))
  some (
      codes "{\"name\":"
      ++ (quote_text false r.name
          ++ (codes ",\"index\":"
              ++ (print_decimal r.index
                  ++ (codes ",\"isError\":"
                      ++ (boolean r.is_error
                          ++ (codes ",\"contentItems\":"
                              ++ (print_decimal r.content_items ++ (structured ++ codes "}")))))))))

unfoldable pub record_texts : List CatalogResultRecord → Option (List Bytes)
unfolding record_text
record_texts [] = some []
record_texts (r ∷ rs) = do x ← record_text r; xs ← record_texts rs; some (x ∷ xs)

unfoldable pub error_text : Option LimitError → Bytes
unfolding quote_text
error_text none = []
error_text (some e) =
    codes ",\"error\":{\"kind\":"
    ++ (quote_text false e.kind
        ++ (codes ",\"message\":" ++ (quote_text false e.message ++ codes "}")))

unfoldable pub omitted_text : Option CatalogOmittedCall → Bytes
unfolding quote_text
omitted_text none = []
omitted_text (some c) =
    codes ",\"omittedToolCall\":{\"name\":"
    ++ (quote_text false c.name ++ (codes ",\"index\":" ++ (print_decimal c.index ++ codes "}")))

unfoldable pub counters_text : ℕ → ℕ → ℕ → Bytes
counters_text requested attempted reported =
    codes ",\"requestedToolCalls\":"
    ++ (print_decimal requested
        ++ (codes ",\"attemptedToolCalls\":"
            ++ (print_decimal attempted
                ++ (codes ",\"reportedToolCalls\":" ++ (print_decimal reported ++ codes "}")))))

unfoldable pub flags_text : Bool → Bool → Bytes
flags_text ok complete =
    codes "{\"ok\":" ++ (boolean ok ++ (codes ",\"complete\":" ++ boolean complete))

unfoldable pub report_text : CatalogExecuteReport → Option Bytes
report_text r = do
  results ← record_texts r.results
  some (
      flags_text r.ok r.complete
      ++ (error_text r.error
          ++ (codes ",\"results\":"
              ++ (array_text results
                  ++ (omitted_text r.omitted
                      ++ counters_text r.requested r.attempted r.reported)))))
