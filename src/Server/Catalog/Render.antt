-- ===== src/Server/Catalog/Render.antt =====
-- server/tool_catalog.go: the replies of a batch, rendered, measured and held to the limit.
pub mod Texts
pub mod Sizes
pub mod Measured
pub mod Widths
pub mod Failing
use velocity_mcp.Base.{
  Bool, List, Option, [], any, false, if◌then◌else◌, leb, length, map, none, not, some, true, ℕ,
  ◌&&◌, ◌++◌, ◌+◌, ◌-◌, ◌==◌, ◌>>=◌, ◌||◌, ◌∷◌,
}
use velocity_mcp.Bytes.{Bytes, codes, index}
use velocity_mcp.Json.{Json, Members, arr, end, member, num, obj, str, to_items}
use velocity_mcp.Json.Encode.{print_decimal}
use velocity_mcp.Server.Catalog.Limits.{LimitError, catalog_meta_key, worst_failure}
use velocity_mcp.Server.Catalog.Reply.{
  Content, Response, catalog_reply_size, error_response, forwarded, placeholder, text,
}
use velocity_mcp.Server.Catalog.Batch.{
  CatalogBatchEntry, CatalogExecuteReport, Sized, is_empty, report_text, result_record,
}
use velocity_mcp.Server.Catalog.Fit.{catalog_clip, catalog_longest_fit, runes}

abbrev pub call_meta : Json → Json → Json → Json
call_meta index name meta =
    obj (member (codes "index") index (member (codes "name") name (member (codes "meta") meta end)))

-- A member of the batch's metadata for each entry that has any; the flag asks for placeholders.
unfoldable pub batch_meta_results : List CatalogBatchEntry → Bool → List Json
batch_meta_results [] placeholders = []
batch_meta_results (e ∷ kept) placeholders =
    let later = batch_meta_results kept placeholders in
    if is_empty e.meta
    then later
    else call_meta (num (print_decimal e.index)) (str e.name)
        (obj (if placeholders then end else e.meta))
      ∷ later

-- The object of such members; none if there is no member.
unfoldable pub meta_object_of : List Json → Members
unfolding to_items
meta_object_of [] = end
meta_object_of (v ∷ vs) =
    member catalog_meta_key (obj (member (codes "results") (arr (to_items (v ∷ vs))) end)) end

-- `catalogBatchMeta`, under its key.
unfoldable pub catalog_batch_meta : List CatalogBatchEntry → Bool → Members
unfolding batch_meta_results meta_object_of
catalog_batch_meta kept placeholders = meta_object_of (batch_meta_results kept placeholders)

-- What the placeholders of an entry leave out: every object takes two bytes at least.
abbrev pub held_content : List Sized → ℕ
held_content [] = 0
held_content (s ∷ content) = (s.size - 2) + held_content content

unfoldable pub held_bytes : List CatalogBatchEntry → ℕ
held_bytes [] = 0
held_bytes (e ∷ kept) =
    held_content e.content + (if is_empty e.meta then 0 else e.meta_size - 2) + held_bytes kept

-- The contents of a reply behind its report, and their placeholders.
unfoldable pub kept_contents : List CatalogBatchEntry → List Content
kept_contents [] = []
kept_contents (e ∷ kept) = map (λ s. forwarded s.shape) e.content ++ kept_contents kept

unfoldable pub measured_contents : List CatalogBatchEntry → List Content
measured_contents [] = []
measured_contents (e ∷ kept) = map (λ _. placeholder) e.content ++ measured_contents kept

-- A report with its records, and with the flag and the count that follow from them.
unfoldable pub counted : CatalogExecuteReport → List CatalogBatchEntry → CatalogExecuteReport
unfolding result_record
counted r kept = record r {
  results = map result_record kept;
  reported = length kept;
  complete = r.attempted == r.requested && length kept == r.attempted;
}

-- The reply of a report's text, and the copy of it that is measured.
unfoldable pub batch_reply : Bytes → Bool → List CatalogBatchEntry → Response
unfolding kept_contents catalog_batch_meta
batch_reply report ok kept = record {
  contents = text report ∷ kept_contents kept;
  is_error = not ok;
  meta = catalog_batch_meta kept false;
  structured = end;
}

unfoldable pub stand_in : Bytes → Bool → List CatalogBatchEntry → Response
unfolding measured_contents catalog_batch_meta
stand_in report ok kept = record {
  contents = text report ∷ measured_contents kept;
  is_error = not ok;
  meta = catalog_batch_meta kept true;
  structured = end;
}

abbrev rendered : CatalogExecuteReport → List CatalogBatchEntry → Option (Response × ℕ)
unfolding report_text stand_in batch_reply held_bytes catalog_reply_size
rendered r kept = do
  report ← report_text r
  size ← catalog_reply_size (stand_in report r.ok kept)
  some (batch_reply report r.ok kept, size + held_bytes kept)

unfoldable pub render : CatalogExecuteReport → List CatalogBatchEntry → Option (Response × ℕ)
unfolding counted rendered report_text stand_in batch_reply held_bytes catalog_reply_size
render r kept = if any (λ e. e.unencodable) kept then none else rendered (counted r kept) kept

-- `report` of a batch, before `render` counts it.
unfoldable pub batch_report : ℕ → List CatalogBatchEntry → Bool → CatalogExecuteReport
batch_report requested entries ok = record {
  ok = ok;
  complete = false;
  error = none;
  results = [];
  omitted = none;
  requested = requested;
  attempted = length entries;
  reported = 0;
}

-- The report of a call whose result is left out.
unfoldable pub omitting_report : ℕ → LimitError → Bytes → ℕ → CatalogExecuteReport
omitting_report requested failure name index = record {
  ok = false;
  complete = false;
  error = some failure;
  results = [];
  omitted = some (record { name = name; index = index });
  requested = requested;
  attempted = index + 1;
  reported = 0;
}

-- A reply that was rendered and measured, with the test of `build`: whether it fits the limit.
unfoldable pub fits_limit : ℕ → Option (Response × ℕ) → Bool
fits_limit limit none = false
fits_limit limit (some (r, size)) = leb size limit

-- The choice that `failReply` and `messageReply` make between the whole text, the longest part of
-- it that fits and no text; the test says whether a candidate fits.
unfoldable pub held_to_limit : {A : Type 0} → (A → Bool) → (Bytes → A) → Bytes → A × Bool
held_to_limit fits build name =
    let clip = catalog_clip (runes name) (
      catalog_longest_fit (length (runes name))
        (λ n. fits (build (catalog_clip (runes name) n)))) in
    let shorter =
      if fits (build clip) || length (runes name) == 0
      then (build clip, fits (build clip))
      else (build [], fits (build [])) in
    if fits (build name) then (build name, true) else shorter

-- A size that is known and within the limit.
abbrev pub size_within : ℕ → Option ℕ → Bool
size_within limit none = false
size_within limit (some n) = leb n limit

-- `messageReply`.
unfoldable pub message_reply : ℕ → Bytes → Response
message_reply limit message =
    (held_to_limit (λ r. size_within limit (catalog_reply_size r)) error_response message).0

module _ (limit requested : ℕ) (entries : List CatalogBatchEntry) where
  -- The candidate of `failReply` that names the omitted call so.
  unfoldable pub failing : LimitError → ℕ → Bytes → Option (Response × ℕ)
  failing failure index called = render (omitting_report requested failure called index) entries

  -- `failReply`: the reply, and whether it fits.
  unfoldable pub fail_reply : LimitError → Bytes → ℕ → Option (Response × ℕ) × Bool
  fail_reply failure name index = held_to_limit (fits_limit limit) (failing failure index) name

  unfoldable pub can_report : Bytes → ℕ → Bool
  can_report name index = (fail_reply (worst_failure limit) name index).1
