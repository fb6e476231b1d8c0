-- ===== src/Server/Catalog/Tests.antt =====
-- The meta tools at concrete inputs.
use velocity_mcp.Server.Catalog.Render.{
  batch_meta_results, batch_reply, batch_report, can_report, catalog_batch_meta, counted,
  fail_reply, failing, fits_limit, held_bytes, held_to_limit, kept_contents, measured_contents,
  meta_object_of, omitting_report, render, stand_in,
}
use velocity_mcp.Server.Catalog.Limits.{limit_message, worst_failure}
use velocity_mcp.Server.Catalog.Fit.{
  catalog_clip, catalog_longest_fit, longest_fit_from, runes, runes_from,
}
use velocity_mcp.Server.Catalog.Execute.{
  CatalogCall, CatalogTool, Parent, catalog_failure_message, conclude, errored, execute, find_tool,
  invoke, invoke_tool, responded, run_call, run_calls, settle,
}
use velocity_mcp.Json.Marshal.{marshal, wire_size}
use velocity_mcp.Json.Encode.{
  insert_sorted, less, print_decimal, quote_ascii, quote_character, quote_from, quote_text,
  sort_keys,
}
use velocity_mcp.Base.{
  Bool, List, [], arith, false, if◌then◌else◌, inr, leb, length, none, not, refl, some, true, ℕ,
  ◌+◌, ◌↔◌, ◌∷◌, ◌≡◌, ◌≤◌,
}
use velocity_mcp.Bytes.{Bytes, codes, equal}
use velocity_mcp.Json.{
  Json, Members, arr, bool, cons, end, find, items, member, nil, obj, put, str, to_items,
}
use velocity_mcp.Server.Catalog.Execute.Fitting.{FitsWithin}
use velocity_mcp.Server.Catalog.Calls.{Validator, asserted_string, parse_calls}
use velocity_mcp.Server.Catalog.Calls.Accepted.{Reads, parse_calls_iff}
use velocity_mcp.Server.Catalog.Handlers.{Faults, handle_execute, handle_search, raw_calls}
use velocity_mcp.Server.Catalog.Handlers.Bounded.{
  handle_execute-FitsWithin, handle_search-FitsWithin,
}
use velocity_mcp.Server.Catalog.Reply.{
  Response, add_unless_empty, catalog_reply_size, merge_meta, to_tool, tool_result,
}
use velocity_mcp.Server.Catalog.Batch.{
  CatalogBatchEntry, CatalogExecuteReport, catalog_batch_entry_for, counters_text, error_text,
  flags_text, omitted_text, record_text, record_texts, report_text, result_record, sized_items,
}
use velocity_mcp.Server.Catalog.Fit.Longest.{IsLongest, catalog_longest_fit-IsLongest}
use velocity_mcp.Server.Catalog.Render.Measured.{render-catalog_reply_size}
use velocity_mcp.Server.Catalog.Render.Sizes.{IsMeasured, catalog_batch_entry_for-IsMeasured}
use velocity_mcp.Server.Catalog.Terms.{
  TextClass, catalog_distinct_terms, catalog_query_terms, catalog_terms, distinct_from, fields,
  has_term,
}
use velocity_mcp.Server.Catalog.Search.{
  CatalogEntry, CatalogToolPayload, candidates, equal_terms, insert_candidate, prepare_entry, rank,
  score, search, search_limit_exceeded, sort_candidates, term_scores,
}
use velocity_mcp.Server.Catalog.Search.Found.{IsAnswer, IsMost, search-IsAnswer}
use velocity_mcp.Server.Catalog.Search.Ranked.{IsRanked, count, found_at, rank-IsRanked}

abbrev test_parent : Parent
test_parent = record { session_id = codes "s1"; meta = end }

-- The result of a tool that tells one text.
abbrev told : Bytes → Members
told s =
    member (codes "content")
      (arr (
        cons (obj (member (codes "type") (str (codes "text")) (member (codes "text") (str s) end)))
          nil))
      (member (codes "isError") (bool false) end)

-- A tool that counts its calls in the world, and one that fails.
abbrev count_tool : CatalogTool ℕ
count_tool = record {
  name = codes "count";
  handle = λ parent args w. (responded (some (told (codes "ok"))), w + 1);
}

abbrev broken_tool : CatalogTool ℕ
broken_tool = record { name = codes "broken"; handle = λ parent args w. (errored [], w) }

abbrev test_tools : List (CatalogTool ℕ)
test_tools = count_tool ∷ broken_tool ∷ []

abbrev never : ℕ → Bool
never w = false

abbrev call_of : Bytes → CatalogCall
call_of name = record { name = name; arguments = end }

abbrev test_calls : List CatalogCall
test_calls = call_of (codes "count") ∷ call_of (codes "broken") ∷ call_of (codes "count") ∷ []

-- A validator that asks for a name.
abbrev test_validator : Validator
test_validator = record {
  name_errors = λ entry.
      if equal (asserted_string (find (codes "name") entry)) []
      then (codes "name", codes "The name field is required." ∷ []) ∷ []
      else [];
  replace_first = λ old new s. s;
}

abbrev raw_count : Json
raw_count = obj (member (codes "name") (str (codes "count")) end)

abbrev test_arguments : Members
test_arguments = member (codes "calls") (arr (cons raw_count (cons raw_count nil))) end

abbrev no_faults : Faults
no_faults = record { config_err = []; dup_err = []; encode_err = false }

test_arguments_few : length (raw_calls test_arguments) ≤ 100
unfolding raw_calls find items
test_arguments_few = omega arith

handle_execute-FitsWithin_example :
    FitsWithin 512
      (handle_execute test_parent test_tools never 512 test_validator no_faults none test_arguments
        0).value
handle_execute-FitsWithin_example =
    handle_execute-FitsWithin test_parent test_tools never 512 test_validator no_faults none
      test_arguments 0 (omega arith) (omega arith) (λ _. test_arguments_few)

parse_calls_iff_example :
    (parse_calls test_validator (raw_count ∷ []) ≡ inr (call_of (codes "count") ∷ []))
    ↔ Reads test_validator (raw_count ∷ []) (call_of (codes "count") ∷ [])
parse_calls_iff_example =
    parse_calls_iff test_validator (raw_count ∷ []) (call_of (codes "count") ∷ [])

abbrev test_entry : CatalogBatchEntry
unfolding catalog_batch_entry_for find items sized_items
test_entry = catalog_batch_entry_for 0 (codes "count") (told (codes "ok"))

abbrev test_report : CatalogExecuteReport
test_report = batch_report 3 (test_entry ∷ []) true

-- Opens the rendering of replies.
unfoldable pub renderer : Unit {0}
unfolding find items sized_items catalog_batch_entry_for wire_size marshal sort_keys insert_sorted
    less quote_text quote_from quote_character quote_ascii report_text record_texts record_text
    error_text omitted_text counters_text flags_text render batch_reply stand_in held_bytes
    kept_contents measured_contents catalog_batch_meta batch_meta_results meta_object_of counted
    result_record batch_report catalog_reply_size tool_result merge_meta add_unless_empty to_tool
    to_items print_decimal put
renderer = tt

-- A text, the text of the report beside it, and the size of both on the wire.
test_report-rendered : (resp : Response) × (render test_report (test_entry ∷ []) ≡ some (resp, 273))
unfolding renderer
test_report-rendered = (_, refl)

test_entry-IsMeasured : IsMeasured test_entry
unfolding test_entry catalog_batch_entry_for
test_entry-IsMeasured = catalog_batch_entry_for-IsMeasured 0 (codes "count") (told (codes "ok"))

render-catalog_reply_size_example : catalog_reply_size test_report-rendered.0 ≡ some 273
render-catalog_reply_size_example =
    render-catalog_reply_size test_report (test_entry ∷ []) test_report-rendered.0 273
      (test_entry-IsMeasured, tt) test_report-rendered.1

-- A class of texts without folding, whose texts contain what they equal.
abbrev test_class : TextClass
test_class = record {
  lower = λ s. s;
  contains = λ s t. equal s t;
  is_letter_or_number = λ r. not (equal r (codes " "));
}

abbrev payload_of : Bytes → CatalogToolPayload
payload_of name = record {
  name = name;
  title = name;
  description = [];
  input_schema = end;
  output_schema = end;
  annotations = end;
}

abbrev test_entries : List CatalogEntry
unfolding prepare_entry
test_entries =
    (prepare_entry test_class (payload_of (codes "count"))).0
    ∷ (prepare_entry test_class (payload_of (codes "broken"))).0
    ∷ []

rank-IsRanked_example :
    IsRanked test_class
      (catalog_query_terms test_class (codes "broken"))
      test_entries
      (rank test_class test_entries (codes "broken"))
    × ((i : ℕ)
        → count i (rank test_class test_entries (codes "broken"))
          ≡ found_at test_class (catalog_query_terms test_class (codes "broken")) test_entries i)
rank-IsRanked_example = rank-IsRanked test_class test_entries (codes "broken")

rank-test_entries : rank test_class test_entries (codes "broken") ≡ 1 ∷ []
unfolding rank candidates score term_scores equal_terms sort_candidates insert_candidate
    catalog_query_terms catalog_distinct_terms catalog_terms distinct_from has_term fields runes
    runes_from prepare_entry equal
rank-test_entries = refl

handle_search-FitsWithin_example :
    FitsWithin 512 (handle_search 512 test_entries test_class no_faults none (codes "broken") 10)
handle_search-FitsWithin_example =
    handle_search-FitsWithin 512 test_entries test_class no_faults none (codes "broken") 10
      (omega arith) (omega arith)

search-IsAnswer_example :
    (most : ℕ) × IsMost 512 test_entries 10 0 (rank test_class test_entries (codes "broken")) most
    × IsAnswer 512 test_entries
        (rank test_class test_entries (codes "broken"))
        most
        (search 512 test_entries test_class (codes "broken") 10)
    × ((resp : Response) × (n : ℕ) × (search_limit_exceeded 512 test_entries ≡ some resp)
        × (catalog_reply_size resp ≡ some n)
        × (n ≤ 512))
search-IsAnswer_example =
    search-IsAnswer 512 test_entries test_class (codes "broken") 10 (omega arith) (omega arith)

catalog_longest_fit-IsLongest_example :
    IsLongest 9 (λ n. leb n 5) (catalog_longest_fit 9 (λ n. leb n 5))
catalog_longest_fit-IsLongest_example =
    catalog_longest_fit-IsLongest 9 (λ n. leb n 5) (λ m k h e. ground (arith, h, e))

catalog_longest_fit_test : catalog_longest_fit 9 (λ n. leb n 5) ≡ 5
unfolding catalog_longest_fit longest_fit_from
catalog_longest_fit_test = refl

-- Opens the run of a batch.
unfoldable pub runner : Unit {0}
unfolding renderer velocity_mcp.Server.Results.internal_error_message execute run_calls run_call
    settle can_report fail_reply failing held_to_limit fits_limit omitting_report worst_failure
    limit_message runes runes_from catalog_clip catalog_longest_fit longest_fit_from invoke conclude
    find_tool invoke_tool catalog_failure_message equal
runner = tt

-- The call of the broken tool ends the batch, so that the last call is not run.
execute-test_calls :
    let run = execute test_parent test_tools never 65536 test_calls 0 in
    (run.world ≡ 1) × (length run.events ≡ 4)
unfolding runner
execute-test_calls = (refl, refl)
