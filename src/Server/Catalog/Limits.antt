-- ===== src/Server/Catalog/Limits.antt =====
-- server/tool_catalog.go: the bounds of the catalog, and the diagnostics that name them.
use velocity_mcp.Base.{if◌then◌else◌, leb, length, max, min, negsuc, pos, ℕ, ℤ, ◌++◌, ◌+◌}
use velocity_mcp.Bytes.{Bytes, codes}
use velocity_mcp.Json.Encode.{print_decimal}

abbrev pub default_catalog_max_tool_calls : ℕ
default_catalog_max_tool_calls = 25

abbrev pub default_catalog_max_output_bytes : ℕ
default_catalog_max_output_bytes = 65536

abbrev pub min_catalog_max_tool_calls : ℕ
min_catalog_max_tool_calls = 1

abbrev pub max_catalog_max_tool_calls : ℕ
max_catalog_max_tool_calls = 100

abbrev pub max_catalog_max_output_bytes : ℕ
max_catalog_max_output_bytes = 4194304

abbrev pub min_catalog_max_output_bytes : ℕ
min_catalog_max_output_bytes = 512

abbrev pub catalog_kind_output_limit : Bytes
catalog_kind_output_limit = codes "OutputLimitExceeded"

abbrev pub catalog_kind_encode_failure : Bytes
catalog_kind_encode_failure = codes "OutputEncodingFailed"

abbrev pub catalog_encode_failure_message : Bytes
catalog_encode_failure_message = codes "The tool catalog could not encode the tool output."

abbrev pub catalog_truncation_marker : Bytes
catalog_truncation_marker = codes "..."

abbrev pub catalog_meta_key : Bytes
catalog_meta_key = codes "com.velocitykode.mcp/toolCatalog"

-- The limits of a catalog.
pub record Limits : Type 0 where
  pub max_tool_calls : ℕ
  pub max_output_bytes : ℕ

-- `min(max(floor, v), ceiling)` of an int.
unfoldable pub held_between : ℕ → ℕ → ℤ → ℕ
held_between floor ceiling (pos n) = min (max floor n) ceiling
held_between floor ceiling (negsuc n) = min floor ceiling

-- What `WithToolCatalogLimits` sets.
unfoldable pub catalog_limits : ℤ → ℤ → Limits
unfolding held_between
catalog_limits calls bytes = record {
  max_tool_calls = held_between min_catalog_max_tool_calls max_catalog_max_tool_calls calls;
  max_output_bytes = held_between min_catalog_max_output_bytes max_catalog_max_output_bytes bytes;
}

unfoldable pub limit_message : ℕ → Bytes
limit_message max_output_bytes =
    codes "The tool output exceeded " ++ (print_decimal max_output_bytes ++ codes " bytes.")

-- A kind of failure, with its message.
pub record LimitError : Type 0 where
  pub kind : Bytes
  pub message : Bytes

abbrev pub encode_failed : LimitError
encode_failed = record {
  kind = catalog_kind_encode_failure;
  message = catalog_encode_failure_message;
}

abbrev pub limit_exceeded : ℕ → LimitError
limit_exceeded max_output_bytes = record {
  kind = catalog_kind_output_limit;
  message = limit_message max_output_bytes;
}

unfoldable pub worst_failure : ℕ → LimitError
unfolding limit_message
worst_failure max_output_bytes =
    if leb (length catalog_kind_output_limit + length (limit_message max_output_bytes))
      (length catalog_kind_encode_failure + length catalog_encode_failure_message)
    then encode_failed
    else limit_exceeded max_output_bytes
