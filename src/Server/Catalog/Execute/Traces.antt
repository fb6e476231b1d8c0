-- ===== src/Server/Catalog/Execute/Traces.antt =====
-- Which calls of a batch are run, why it ends, and what its reply says.
use velocity_mcp.Base.{
  Bool, List, Option, [], all, false, get_elem?, length, none, not, some, take, true, ℕ, ◌++◌, ◌+◌,
  ◌<◌, ◌||◌, ◌∷◌, ◌≡◌, ◌≤◌,
}
use velocity_mcp.Server.Catalog.Limits.{LimitError, encode_failed, limit_exceeded}
use velocity_mcp.Server.Catalog.Reply.{Response}
use velocity_mcp.Server.Catalog.Batch.{CatalogBatchEntry}
use velocity_mcp.Server.Catalog.Render.{batch_report, can_report, render}
use velocity_mcp.Server.Catalog.Execute.{
  CatalogCall, CatalogTool, Parent, Run, failed_reply, run_call, stopped,
}

abbrev pub all_succeeded : List CatalogBatchEntry → Bool
all_succeeded = all (λ e. not e.is_error)

-- At most the last of the calls reports an error.
abbrev pub OnlyLastFails : List CatalogBatchEntry → Type 0
OnlyLastFails [] = Unit
OnlyLastFails (e ∷ []) = Unit
OnlyLastFails (e ∷ f ∷ es) = (e.is_error ≡ false) × OnlyLastFails (f ∷ es)

module _ (limit requested : ℕ) where
  -- The reply that carries the results of all of the calls.
  pub record Carries (entries : List CatalogBatchEntry) (sent : Option Response) : Type 0 where
    pub response : Response
    pub size : ℕ
    pub is_sent : sent ≡ some response
    pub carried :
        render (batch_report requested entries (all_succeeded entries)) entries
        ≡ some (response, size)

  -- Why no reply carries these results: it cannot be encoded, or it is over the limit.
  pub data IsTooMuch (entries : List CatalogBatchEntry) (failure : LimitError) : Type 0 where
    unencoded :
        render (batch_report requested entries (all_succeeded entries)) entries ≡ none
        → failure ≡ encode_failed
        → IsTooMuch entries failure
    oversized :
        (response : Response) (size : ℕ)
        → render (batch_report requested entries (all_succeeded entries)) entries
          ≡ some (response, size)
        → limit < size
        → failure ≡ limit_exceeded limit
        → IsTooMuch entries failure

  -- Why a batch ends behind so many of its calls, with these entries.
  pub data Ending (calls : List CatalogCall) (cancelled : Bool) (k : ℕ)
      (entries : List CatalogBatchEntry) (sent : Option Response) : Type 0 where
    finished : Carries entries sent → k ≡ length calls → Ending calls cancelled k entries sent
    no_room :
        (call : CatalogCall)
        → Carries entries sent
        → get_elem? calls k ≡ some call
        → can_report limit requested entries call.name (length entries) ≡ false
        → Ending calls cancelled k entries sent
    ended :
        (kept : List CatalogBatchEntry) (e : CatalogBatchEntry)
        → Carries entries sent
        → entries ≡ kept ++ e ∷ []
        → (e.is_error || cancelled) ≡ true
        → Ending calls cancelled k entries sent
    left_out :
        (kept : List CatalogBatchEntry) (e : CatalogBatchEntry) (failure : LimitError)
        → entries ≡ kept ++ e ∷ []
        → IsTooMuch entries failure
        → sent ≡ failed_reply limit requested kept failure e.name (length kept)
        → Ending calls cancelled k entries sent

module _ {W : Type 0} (parent : Parent) (tools : List (CatalogTool W)) (cancelled : W → Bool)
    (limit requested : ℕ) where
  -- The calls, one behind the other, as if nothing stopped the batch.
  unfoldable pub trace : ℕ → List CatalogCall → W → Run W (List CatalogBatchEntry)
  trace i [] w = stopped [] [] w
  trace i (call ∷ calls) w =
      let r = run_call parent tools cancelled limit requested i call w in
      let rest = trace (i + 1) calls r.world in
      record { value = r.value ∷ rest.value; events = r.events ++ rest.events; world = rest.world }

  -- A batch that ran so many of its calls, each once and in their order, and no other.
  pub record RanFirst (i : ℕ) (entries : List CatalogBatchEntry) (calls : List CatalogCall) (w : W)
      (run : Run W (Option Response)) : Type 0 where
    pub k : ℕ
    pub within : k ≤ length calls
    pub told : run.events ≡ (trace i (take k calls) w).events
    pub left : run.world ≡ (trace i (take k calls) w).world
    pub not_cancelled : (j : ℕ) → 0 < j → j < k → cancelled (trace i (take j calls) w).world ≡ false
    pub only_last : OnlyLastFails (trace i (take k calls) w).value
    pub ending :
        Ending limit requested calls
          (cancelled run.world)
          k
          (entries ++ (trace i (take k calls) w).value)
          run.value

  module _ (i : ℕ) (entries : List CatalogBatchEntry) (call : CatalogCall)
      (calls : List CatalogCall) (w : W) where
    abbrev first : Run W CatalogBatchEntry
    first = run_call parent tools cancelled limit requested i call w
