-- ===== src/Server/Catalog/Handlers/Bounded.antt =====
-- Every reply of the meta tools fits the limit of the catalog.
use velocity_mcp.Base.{
  Bool, Bool-cases, List, Option, Option-cases, ap, arith, inl, inr, length, ltb, none, refl, suc,
  ℕ, ◌≡◌, ◌≤◌,
}
use velocity_mcp.Bytes.{Bytes}
use velocity_mcp.Json.{Json, Members}
use velocity_mcp.Server.Catalog.Limits.{
  catalog_encode_failure_message, max_catalog_max_output_bytes, max_catalog_max_tool_calls,
  min_catalog_max_output_bytes,
}
use velocity_mcp.Server.Catalog.Execute.{CatalogCall, CatalogTool, Parent}
use velocity_mcp.Server.Catalog.Execute.Fitting.{FitsWithin, Sum-cases}
use velocity_mcp.Server.Catalog.Execute.Within.{execute-FitsWithin, message_reply-FitsWithin}
use velocity_mcp.Server.Catalog.Terms.{TextClass, fields}
use velocity_mcp.Server.Catalog.Search.{CatalogEntry, rank, search}
use velocity_mcp.Server.Catalog.Search.Found.{
  found, none_fits, search-IsAnswer, search_reply-size, unencodable,
}
use velocity_mcp.Server.Catalog.Calls.{Validator, parse_calls, validation_message}
use velocity_mcp.Server.Catalog.Calls.Accepted.{Reads, nothing_read, one_read, parse_calls_iff}
use velocity_mcp.Server.Catalog.Handlers.{
  Faults, handle_execute, handle_parsed, handle_search, or_encode_failure, raw_calls,
}

length-Reads :
    {v : Validator} {raw : List Json} {calls : List CatalogCall}
    → Reads v raw calls
    → length calls ≡ length raw
length-Reads nothing_read = refl
length-Reads (one_read entry call raw calls e h n a r) = ap suc (length-Reads r)

search-FitsWithin :
    (limit : ℕ) (entries : List CatalogEntry) (c : TextClass) (query : Bytes) (wanted : ℕ)
    → min_catalog_max_output_bytes ≤ limit
    → limit ≤ max_catalog_max_output_bytes
    → FitsWithin limit (or_encode_failure limit (search limit entries c query wanted))
search-FitsWithin limit entries c query wanted floor ceiling =
    let (most, _, answer, (resp, n, is_report, size, within)) =
      search-IsAnswer limit entries c query wanted floor ceiling in
    elim answer [
      | found k r s _ _ rendered h _ q ↦ rw q (record {
        response = r;
        is_reply = refl;
        bytes = s;
        serialized = search_reply-size limit entries (rank c entries query) k r s rendered;
        within = h;
      })
      | none_fits _ q ↦
          rw (q, is_report)
            (record {
              response = resp;
              is_reply = refl;
              bytes = n;
              serialized = size;
              within = within;
            })
      | unencodable _ _ q ↦
          rw q (message_reply-FitsWithin limit catalog_encode_failure_message floor)
    ]

-- Every reply of `search_tools` is serialized within the limit of the catalog: its diagnostics, the
-- report of the limit, and its results.
pub handle_search-FitsWithin :
    (limit : ℕ) (entries : List CatalogEntry) (c : TextClass) (faults : Faults)
    (refused : Option Bytes) (query : Bytes) (wanted : ℕ)
    → min_catalog_max_output_bytes ≤ limit
    → limit ≤ max_catalog_max_output_bytes
    → FitsWithin limit (handle_search limit entries c faults refused query wanted)
unfolding handle_search
handle_search-FitsWithin limit entries c faults refused query wanted floor ceiling =
    let told = λ (m : Bytes). message_reply-FitsWithin limit m floor in
    elim (Bool-cases (ltb 0 (length faults.config_err))) [
      | inl e ↦ rw e (told faults.config_err)
      | inr e ↦ elim (Option-cases refused) [
        | inr (m, r) ↦ rw (e, r) (told m)
        | inl r ↦ elim (Bool-cases (ltb 0 (length faults.dup_err))) [
          | inl d ↦ rw (e, r, d) (told faults.dup_err)
          | inr d ↦ elim (Bool-cases faults.encode_err) [
            | inl f ↦ rw (e, r, d, f) (told catalog_encode_failure_message)
            | inr f ↦ rw (e, r, d, f) (search-FitsWithin limit entries c query wanted floor ceiling)
          ]
        ]
      ]
    ]

-- Every reply of `execute_tools` is serialized within the limit of the catalog, where the validator
-- holds the calls to their largest number: its diagnostics, and its reports with the contents and
-- the metadata of the results that they carry, whatever the tools return.
pub handle_execute-FitsWithin :
    {W : Type 0} (parent : Parent) (tools : List (CatalogTool W)) (cancelled : W → Bool) (limit : ℕ)
    (v : Validator) (faults : Faults) (refused : Option Bytes) (arguments : Members) (w : W)
    → min_catalog_max_output_bytes ≤ limit
    → limit ≤ max_catalog_max_output_bytes
    → (refused ≡ none → length (raw_calls arguments) ≤ max_catalog_max_tool_calls)
    → FitsWithin limit
        (handle_execute parent tools cancelled limit v faults refused arguments w).value
unfolding handle_execute handle_parsed
handle_execute-FitsWithin parent tools cancelled limit v faults refused arguments w floor ceiling
      held =
    let told = λ (m : Bytes). message_reply-FitsWithin limit m floor in
    elim (Bool-cases (ltb 0 (length faults.config_err))) [
      | inl e ↦ rw e (told faults.config_err)
      | inr e ↦ elim (Option-cases refused) [
        | inr (m, r) ↦ rw (e, r) (told m)
        | inl r ↦ elim (Sum-cases (parse_calls v (raw_calls arguments))) [
          | inl (fields, p) ↦ rw (e, r, p) (told (validation_message fields))
          | inr (calls, p) ↦ elim (Bool-cases (ltb 0 (length faults.dup_err))) [
            | inl d ↦ rw (e, r, p, d) (told faults.dup_err)
            | inr d ↦
                let few = length-Reads ((parse_calls_iff v (raw_calls arguments) calls).0 p) in
                let small = held r in
                rw (e, r, p, d)
                  (execute-FitsWithin parent tools cancelled limit calls w floor ceiling
                    (omega (arith, few, small)))
          ]
        ]
      ]
    ]
