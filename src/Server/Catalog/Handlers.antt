-- ===== src/Server/Catalog/Handlers.antt =====
-- server/tool_catalog.go: the handlers of the two meta tools. What the validator of the framework
-- says of their arguments is a parameter, as are the arguments that a search has behind it.
pub mod Bounded
use velocity_mcp.Base.{
  Bool, List, Option, [], if◌then◌else◌, inl, inr, length, ltb, none, some, ℕ, ◌⊎◌,
}
use velocity_mcp.Bytes.{Bytes, codes}
use velocity_mcp.Json.{Json, Members, find, items}
use velocity_mcp.Server.Catalog.Limits.{catalog_encode_failure_message}
use velocity_mcp.Server.Catalog.Reply.{Response}
use velocity_mcp.Server.Catalog.Batch.{items_of}
use velocity_mcp.Server.Catalog.Render.{message_reply}
use velocity_mcp.Server.Catalog.Execute.{CatalogCall, CatalogTool, Parent, Run, execute, stopped}
use velocity_mcp.Server.Catalog.Terms.{TextClass, fields}
use velocity_mcp.Server.Catalog.Search.{CatalogEntry, search}
use velocity_mcp.Server.Catalog.Calls.{Fields, Validator, parse_calls, validation_message}

-- What stands in the way of any request: the errors recorded for the catalog.
pub record Faults : Type 0 where
  pub config_err : Bytes
  pub dup_err : Bytes
  pub encode_err : Bool

-- The calls of `execute_tools`, as they were sent.
unfoldable pub raw_calls : Members → List Json
unfolding find items
raw_calls arguments = items_of (find (codes "calls") arguments)

abbrev pub or_encode_failure : ℕ → Option Response → Option Response
or_encode_failure limit none = some (message_reply limit catalog_encode_failure_message)
or_encode_failure limit (some r) = some r

-- The handler of `search_tools`, with the message of its validation, if any.
unfoldable pub handle_search :
    ℕ → List CatalogEntry → TextClass → Faults → Option Bytes → Bytes → ℕ → Option Response
handle_search limit entries c faults refused query wanted =
    if ltb 0 (length faults.config_err)
    then some (message_reply limit faults.config_err)
    else elim refused [
      | some message ↦ some (message_reply limit message)
      | none ↦
          if ltb 0 (length faults.dup_err)
          then some (message_reply limit faults.dup_err)
          else if faults.encode_err
          then or_encode_failure limit none
          else or_encode_failure limit (search limit entries c query wanted)
    ]

module _ {W : Type 0} (parent : Parent) (tools : List (CatalogTool W)) (cancelled : W → Bool)
    (limit : ℕ) (v : Validator) (faults : Faults) where
  -- The handler of `execute_tools` once its calls are parsed.
  unfoldable pub handle_parsed : Fields ⊎ List CatalogCall → W → Run W (Option Response)
  handle_parsed (inl fields) w =
      stopped (some (message_reply limit (validation_message fields))) [] w
  handle_parsed (inr calls) w =
      if ltb 0 (length faults.dup_err)
      then stopped (some (message_reply limit faults.dup_err)) [] w
      else execute parent tools cancelled limit calls w

  unfoldable pub handle_execute : Option Bytes → Members → W → Run W (Option Response)
  handle_execute refused arguments w =
      if ltb 0 (length faults.config_err)
      then stopped (some (message_reply limit faults.config_err)) [] w
      else elim refused [
        | some message ↦ stopped (some (message_reply limit message)) [] w
        | none ↦ handle_parsed (parse_calls v (raw_calls arguments)) w
      ]
