-- ===== src/Server/Catalog/Execute.antt =====
-- server/tool_catalog.go and server/invoke.go: the batch that `execute_tools` runs. The tools of an
-- application, and the cancellation of its request, read and change a world of theirs.
pub mod Fitting
pub mod Traces
pub mod Within
use velocity_mcp.Base.{
  Bool, List, Option, [], if◌then◌else◌, inl, inr, length, ltb, none, not, some, true, ℕ, ◌++◌, ◌+◌,
  ◌>>=◌, ◌||◌, ◌∷◌, ◌⊎◌,
}
use velocity_mcp.Bytes.{Bytes, codes, equal, index}
use velocity_mcp.Json.{Members, find}
use velocity_mcp.Server.Results.{internal_error_message}
use velocity_mcp.Server.Catalog.Limits.{
  LimitError, catalog_encode_failure_message, encode_failed, limit_exceeded,
}
use velocity_mcp.Server.Catalog.Reply.{Response, error_response, tool_result}
use velocity_mcp.Server.Catalog.Batch.{CatalogBatchEntry, bool_of, catalog_batch_entry_for}
use velocity_mcp.Server.Catalog.Render.{batch_report, can_report, fail_reply, message_reply, render}

-- What a handler makes of a call: the result of its response, if its content can be represented,
-- a validation error with its message, or another error, with the message of a JSON-RPC error.
pub data ToolOutcome : Type 0 where
  responded : Option Members → ToolOutcome
  invalid : Bytes → ToolOutcome
  errored : Bytes → ToolOutcome

-- The result of a call, or the message of its error.
pub data Invoked : Type 0 where
  result : Members → Invoked
  failed : Bytes → Invoked

abbrev unrepresentable_content_message : Bytes
unrepresentable_content_message =
    codes "The tool returned content that cannot be represented in a tool result."

-- `InvokeTool`, from what the handler returns.
unfoldable pub invoke_tool : ToolOutcome → Invoked
unfolding tool_result
invoke_tool (responded (some m)) = result m
invoke_tool (responded none) = result (tool_result (error_response unrepresentable_content_message))
invoke_tool (invalid message) = result (tool_result (error_response message))
invoke_tool (errored message) = failed message

-- `catalogFailureMessage`: an error that carries no message of its own is told generically.
unfoldable pub catalog_failure_message : Bytes → Bytes
catalog_failure_message [] = internal_error_message
catalog_failure_message (c ∷ message) = c ∷ message

abbrev pub catalog_failed_result : Bytes → Members
unfolding tool_result
catalog_failed_result message = tool_result (error_response message)

pub record CatalogCall : Type 0 where
  pub name : Bytes
  pub arguments : Members

-- What an inner request inherits from that of the batch.
pub record Parent : Type 0 where
  pub session_id : Bytes
  pub meta : Members

-- A tool of the catalog.
pub record CatalogTool (W : Type 0) : Type 0 where
  pub name : Bytes
  pub handle : Parent → Members → W → ToolOutcome × W

-- The events that are dispatched, and the progress that is reported, in their order.
pub data CatalogEvent : Type 0 where
  tool_called : Bytes → CatalogCall → Bool → CatalogEvent
  tool_failed : Bytes → CatalogCall → Option Bytes → CatalogEvent
  progressed : ℕ → ℕ → Bytes → CatalogEvent

pub record Run (W : Type 0) (A : Type 0) : Type 0 where
  pub value : A
  pub events : List CatalogEvent
  pub world : W

abbrev pub stopped : {W A : Type 0} → A → List CatalogEvent → W → Run W A
stopped value events w = record { value = value; events = events; world = w }

-- A run behind some events.
abbrev pub after : {W A : Type 0} → List CatalogEvent → Run W A → Run W A
after events r = record { value = r.value; events = events ++ r.events; world = r.world }

-- The tool of a name: the first that has it.
unfoldable pub find_tool : {W : Type 0} → List (CatalogTool W) → Bytes → Option (CatalogTool W)
unfolding equal
find_tool [] name = none
find_tool (t ∷ tools) name = if equal t.name name then some t else find_tool tools name

module _ {W : Type 0} (parent : Parent) where
  -- `invoke` of a tool that was found, from its outcome.
  unfoldable pub conclude : CatalogCall → Invoked → W → Run W Members
  unfolding find catalog_failure_message tool_result
  conclude call (failed message) w = record {
    value = catalog_failed_result (catalog_failure_message message);
    events = tool_failed parent.session_id call (some message) ∷ [];
    world = w;
  }
  conclude call (result m) w = record {
    value = m;
    events = tool_called parent.session_id call (bool_of (find (codes "isError") m)) ∷ [];
    world = w;
  }

  -- `invoke`.
  unfoldable pub invoke : List (CatalogTool W) → CatalogCall → W → Run W Members
  unfolding find_tool conclude invoke_tool
  invoke tools call w = elim (find_tool tools call.name) [
    | none ↦ record {
      value =
          catalog_failed_result
            (codes "Tool [" ++ (call.name ++ codes "] was not found in the catalog."));
      events = tool_failed parent.session_id call none ∷ [];
      world = w;
    }
    | some t ↦
        let (handled, w') = t.handle parent call.arguments w in
        conclude call (invoke_tool handled) w'
  ]

module _ (limit requested : ℕ) where
  -- `failed`: the reply that leaves the result of a call out; `none` stands for a nil response.
  unfoldable pub failed_reply : List CatalogBatchEntry → LimitError → Bytes → ℕ → Option Response
  failed_reply entries failure name index =
      (fail_reply limit requested entries failure name index).0 >>= λ r. some r.0

  -- What a rendered reply leads to: the reply, or the failure that it cannot be sent for.
  abbrev pub settled : Option (Response × ℕ) → Option Response ⊎ LimitError
  settled none = inr encode_failed
  settled (some (next, size)) =
      if ltb limit size then inr (limit_exceeded limit) else inl (some next)

  -- The reply behind a call that was run.
  unfoldable pub settle : List CatalogBatchEntry → CatalogBatchEntry → Option Response ⊎ LimitError
  settle entries entry =
      let kept = entries ++ entry ∷ [] in
      settled (render (batch_report requested kept (not entry.is_error)) kept)

module _ {W : Type 0} (parent : Parent) (tools : List (CatalogTool W)) (cancelled : W → Bool)
    (limit requested : ℕ) where
  -- What a call that was run tells: its own event, and the progress of the batch.
  unfoldable pub run_call : ℕ → CatalogCall → W → Run W CatalogBatchEntry
  unfolding invoke catalog_batch_entry_for
  run_call i call w =
      let r = invoke parent tools call w in
      record {
        value = catalog_batch_entry_for i call.name r.value;
        events =
            r.events
            ++ progressed (i + 1) requested (codes "Ran [" ++ (call.name ++ codes "].")) ∷ [];
        world = r.world;
      }

  -- The loop of `Handle` over the calls that are left: the entries of those that were run, and
  -- the reply that is held.
  unfoldable pub run_calls :
      ℕ → List CatalogBatchEntry → Option Response → List CatalogCall → W → Run W (Option Response)
  run_calls i entries held [] w = stopped held [] w
  run_calls i entries held (call ∷ calls) w =
      let r = run_call i call w in
      let stop = λ (reply : Option Response). stopped reply r.events r.world in
      let on = λ (next : Option Response).
        after r.events (run_calls (i + 1) (entries ++ r.value ∷ []) next calls r.world) in
      if not (can_report limit requested entries call.name i)
      then stopped held [] w
      else elim (settle limit requested entries r.value) [
        | inr failure ↦ stop (failed_reply limit requested entries failure call.name i)
        | inl next ↦ if r.value.is_error || cancelled r.world then stop next else on next
      ]

  -- The batch, from the reply that it holds before its first call.
  abbrev pub run_from : Option (Response × ℕ) → List CatalogCall → W → Run W (Option Response)
  run_from none calls w = stopped (some (message_reply limit catalog_encode_failure_message)) [] w
  run_from (some (held, _)) calls w = run_calls 0 [] (some held) calls w

-- The batch of `Handle`, once its calls are read.
unfoldable pub execute :
    {W : Type 0}
    → Parent
    → List (CatalogTool W)
    → (W → Bool)
    → ℕ
    → List CatalogCall
    → W
    → Run W (Option Response)
execute parent tools cancelled limit calls w =
    run_from parent tools cancelled limit (length calls)
      (render (batch_report (length calls) [] true) []) calls w
