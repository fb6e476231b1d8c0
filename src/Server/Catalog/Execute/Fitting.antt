-- ===== src/Server/Catalog/Execute/Fitting.antt =====
-- Every reply of a batch fits the limit of the catalog.
use velocity_mcp.Base.{
  All, All-append, Bool, Bool-cases, List, Option, Option-cases, [], arith, false-ne-true, inl, inr,
  leb, length-append, ltb, not, refl, some, sym, true, ℕ, ◌++◌, ◌+◌, ◌<◌, ◌>>=◌, ◌||◌, ◌∷◌, ◌≡◌,
  ◌≤◌, ◌⊎◌,
}
use velocity_mcp.Bytes.{Bytes, codes}
use velocity_mcp.Json.Marshal.Width.{width}
use velocity_mcp.Json.Encode.{print_decimal}
use velocity_mcp.Server.Catalog.Limits.{
  LimitError, encode_failed, limit_exceeded, limit_message, worst_failure,
}
use velocity_mcp.Server.Catalog.Reply.{Response, catalog_reply_size}
use velocity_mcp.Server.Catalog.Batch.{CatalogBatchEntry, CatalogExecuteReport, error_text}
use velocity_mcp.Server.Catalog.Render.{
  batch_report, can_report, failing, fits_limit, omitting_report, render,
}
use velocity_mcp.Server.Catalog.Render.Measured.{render-catalog_reply_size}
use velocity_mcp.Server.Catalog.Render.Sizes.{IsMeasured, catalog_batch_entry_for-IsMeasured}
use velocity_mcp.Server.Catalog.Render.Widths.{length-print_decimal, width_error}
use velocity_mcp.Server.Catalog.Render.Failing.{fail_reply-fitting, fail_reply-narrower}
use velocity_mcp.Server.Catalog.Execute.{
  CatalogCall, CatalogTool, Parent, failed_reply, invoke, run_call, run_calls, settle,
}

-- A response that is serialized in at most so many bytes.
pub record FitsWithin (limit : ℕ) (sent : Option Response) : Type 0 where
  pub response : Response
  pub is_reply : sent ≡ some response
  pub bytes : ℕ
  pub serialized : catalog_reply_size response ≡ some bytes
  pub within : bytes ≤ limit

pub Sum-cases : {A B : Type 0} (s : A ⊎ B) → ((a : A) × (s ≡ inl a)) ⊎ ((b : B) × (s ≡ inr b))
Sum-cases (inl a) = inl (a, refl)
Sum-cases (inr b) = inr (b, refl)

worst_failure_lem : (m : ℕ) → m < 10000000 → worst_failure m ≡ encode_failed
unfolding worst_failure limit_message
worst_failure_lem m h =
    let few = length-print_decimal m h in
    let said = length-append (print_decimal m) (codes " bytes.") in ground (arith, few, said)

pub rendered-FitsWithin :
    (limit : ℕ) (report : CatalogExecuteReport) (kept : List CatalogBatchEntry) (resp : Response)
    (n : ℕ)
    → All IsMeasured kept
    → render report kept ≡ some (resp, n)
    → n ≤ limit
    → FitsWithin limit (some resp)
rendered-FitsWithin limit report kept resp n measured e h = record {
  response = resp;
  is_reply = refl;
  bytes = n;
  serialized = render-catalog_reply_size report kept resp n measured e;
  within = h;
}

pub inr-ne-inl : {A B : Type 0} {a : A} {b : B} → ◌≡◌ {A = A ⊎ B} (inr b) (inl a) → ⊥
inr-ne-inl h = cc

pub inl-eq : {A B : Type 0} {a a' : A} → ◌≡◌ {A = A ⊎ B} (inl a) (inl a') → a ≡ a'
inl-eq h = cc

pub inr-eq : {A B : Type 0} {b b' : B} → ◌≡◌ {A = A ⊎ B} (inr b) (inr b') → b ≡ b'
inr-eq h = cc

module _ (limit requested : ℕ) where
  -- The reply that a call leaves is one that was rendered.
  pub settle-render :
      (entries : List CatalogBatchEntry) (entry : CatalogBatchEntry) (next : Option Response)
      → settle limit requested entries entry ≡ inl next
      → (resp : Response) × (n : ℕ) × (render
            (batch_report requested (entries ++ entry ∷ []) (not entry.is_error))
            (entries ++ entry ∷ [])
          ≡ some (resp, n))
        × (next ≡ some resp)
        × (n ≤ limit)
  unfolding settle
  settle-render entries entry next h =
      let kept = entries ++ entry ∷ [] in
      elim (Option-cases (render (batch_report requested kept (not entry.is_error)) kept)) [
        | inl e ↦ absurd (inr-ne-inl (rw e at h))
        | inr ((resp, n), e) ↦ elim (Bool-cases (ltb limit n)) [
          | inl over ↦ absurd (inr-ne-inl (rw (e, over) at h))
          | inr within ↦ (resp, n, e, sym (inl-eq (rw (e, within) at h)), ground (arith, within))
        ]
      ]

  -- A result that cannot be carried is told as one of the two failures.
  pub settle-failure :
      (entries : List CatalogBatchEntry) (entry : CatalogBatchEntry) (failure : LimitError)
      → settle limit requested entries entry ≡ inr failure
      → (failure ≡ encode_failed) ⊎ (failure ≡ limit_exceeded limit)
  unfolding settle
  settle-failure entries entry failure h =
      let kept = entries ++ entry ∷ [] in
      elim (Option-cases (render (batch_report requested kept (not entry.is_error)) kept)) [
        | inl e ↦ inl (sym (inr-eq (rw e at h)))
        | inr ((resp, n), e) ↦ elim (Bool-cases (ltb limit n)) [
          | inl over ↦ inr (sym (inr-eq (rw (e, over) at h)))
          | inr within ↦ absurd (inr-ne-inl (sym (rw (e, within) at h)))
        ]
      ]

module _ (limit requested : ℕ) (bounded : limit < 10000000) where
  failure-narrower :
      (failure : LimitError)
      → (failure ≡ encode_failed) ⊎ (failure ≡ limit_exceeded limit)
      → width (error_text (some failure)) ≤ width (error_text (some (worst_failure limit)))
  failure-narrower failure h =
      rw (worst_failure_lem limit bounded)
        (elim h [ inl e ↦ rw e (omega arith) | inr e ↦ rw e (width_error limit bounded) ])

  failing-FitsWithin :
      (entries : List CatalogBatchEntry) (failure : LimitError) (name : Bytes) (i : ℕ)
      → All IsMeasured entries
      → fits_limit limit (failing limit requested entries failure i name) ≡ true
      → FitsWithin limit (failing limit requested entries failure i name >>= λ r. some r.0)
  unfolding failing fits_limit
  failing-FitsWithin entries failure name i measured h =
      let report = omitting_report requested failure name i in
      elim (Option-cases (render report entries)) [
        | inl e ↦ absurd (false-ne-true (rw e at h))
        | inr ((resp, n), e) ↦ rw e (
            rendered-FitsWithin limit report entries resp n measured e
              (ground (arith, let g : leb n limit ≡ true = rw e at h in g)))
      ]

  -- A failure of a call that was found to be reportable is reported within the limit.
  failed_reply-FitsWithin :
      (entries : List CatalogBatchEntry) (failure : LimitError) (name : Bytes) (i : ℕ)
      → All IsMeasured entries
      → can_report limit requested entries name i ≡ true
      → (failure ≡ encode_failed) ⊎ (failure ≡ limit_exceeded limit)
      → FitsWithin limit (failed_reply limit requested entries failure name i)
  unfolding failed_reply can_report
  failed_reply-FitsWithin entries failure name i measured reportable h =
      let (called, is_called, fits) = fail_reply-fitting limit requested entries failure name i (
        fail_reply-narrower limit requested entries (worst_failure limit) failure name i
          (failure-narrower failure h) reportable) in
      rw is_called (failing-FitsWithin entries failure called i measured fits)

  module _ {W : Type 0} (parent : Parent) (tools : List (CatalogTool W))
      (cancelled : W → Bool) where
    run_call-IsMeasured :
        (i : ℕ) (call : CatalogCall) (w : W)
        → IsMeasured (run_call parent tools cancelled limit requested i call w).value
    unfolding run_call
    run_call-IsMeasured i call w =
        catalog_batch_entry_for-IsMeasured i call.name (invoke parent tools call w).value

    pub run_calls-FitsWithin :
        (i : ℕ) (entries : List CatalogBatchEntry) (held : Option Response)
        (calls : List CatalogCall) (w : W)
        → All IsMeasured entries
        → FitsWithin limit held
        → FitsWithin limit
            (run_calls parent tools cancelled limit requested i entries held calls w).value
    unfolding run_calls
    run_calls-FitsWithin i entries held [] w measured h = h
    run_calls-FitsWithin i entries held (call ∷ calls) w measured h =
        elim (Bool-cases (can_report limit requested entries call.name i)) [
          | inr e ↦ rw e h
          | inl e ↦
              let r = run_call parent tools cancelled limit requested i call w in
              let kept =
                All-append IsMeasured entries (r.value ∷ []) measured
                  (run_call-IsMeasured i call w, tt) in
              elim (Sum-cases (settle limit requested entries r.value)) [
                | inr (failure, q) ↦
                    rw (e, q)
                      (failed_reply-FitsWithin entries failure call.name i measured e
                        (settle-failure limit requested entries r.value failure q))
                | inl (next, q) ↦
                    let (resp, n, made, same, within) =
                      settle-render limit requested entries r.value next q in
                    let fits : FitsWithin limit next = rw same (
                      rendered-FitsWithin limit
                        (batch_report requested (entries ++ r.value ∷ []) (not r.value.is_error))
                        (entries ++ r.value ∷ []) resp n kept made within) in
                    elim (Bool-cases (r.value.is_error || cancelled r.world)) [
                      | inl s ↦ rw (e, q, s) fits
                      | inr s ↦
                          rw (e, q, s)
                            (run_calls-FitsWithin (i + 1) (entries ++ r.value ∷ []) next calls
                              r.world kept fits)
                    ]
              ]
        ]
