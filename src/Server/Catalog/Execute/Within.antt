-- ===== src/Server/Catalog/Execute/Within.antt =====
-- Every reply of `execute_tools` fits the limit of the catalog, the first one included.
use velocity_mcp.Base.{
  Bool, List, Option-cases, [], ap, append_assoc, arith, false, false-ne-true, inl, inr, leb,
  length, refl, some, true, ℕ, ◌&&◌, ◌++◌, ◌+◌, ◌<◌, ◌==◌, ◌≡◌, ◌≤◌,
}
use velocity_mcp.Bytes.{Bytes, codes}
use velocity_mcp.Json.Marshal.Width.{width}
use velocity_mcp.Json.Encode.{print_decimal, quote_ascii, quote_character, quote_from}
use velocity_mcp.Json.Marshal.{array_text}
use velocity_mcp.Server.Catalog.Limits.{
  max_catalog_max_output_bytes, max_catalog_max_tool_calls, min_catalog_max_output_bytes,
}
use velocity_mcp.Server.Catalog.Reply.{Response, catalog_reply_size, error_response}
use velocity_mcp.Server.Catalog.Batch.{
  counters_text, error_text, flags_text, omitted_text, record_texts, report_text,
}
use velocity_mcp.Server.Catalog.Render.{
  batch_meta_results, batch_reply, batch_report, catalog_batch_meta, counted, held_bytes,
  measured_contents, message_reply, meta_object_of, render, size_within, stand_in,
}
use velocity_mcp.Server.Catalog.Render.Widths.{width-print_decimal, width_add}
use velocity_mcp.Server.Catalog.Execute.{CatalogCall, CatalogTool, Parent, execute}
use velocity_mcp.Server.Catalog.Render.Failing.{
  held_to_limit-bare, held_to_limit-fitting, render-some,
}
use velocity_mcp.Server.Catalog.Execute.Fitting.{
  FitsWithin, rendered-FitsWithin, run_calls-FitsWithin,
}
use velocity_mcp.Json.{end}
use velocity_mcp.Server.Catalog.Render.Texts.{reply_size_iff}

zero_text : print_decimal 0 ≡ codes "0"
unfolding print_decimal
zero_text = refl

counters_width :
    (requested : ℕ) → width (counters_text requested 0 0) ≡ width (print_decimal requested) + 74
unfolding counters_text quote_from quote_character quote_ascii
counters_width requested =
    let rest = codes ",\"attemptedToolCalls\":0,\"reportedToolCalls\":0}" in
    let e = width_add (print_decimal requested) rest refl in rw zero_text (omega (arith, e))

abbrev opening : Bool → Bytes
unfolding flags_text
opening complete = flags_text true complete ++ (codes ",\"results\":" ++ array_text [])

width-opening : (complete : Bool) → width (opening complete) ≤ 60
unfolding opening quote_from quote_character quote_ascii
width-opening true = omega arith
width-opening false = omega arith

opening_text :
    (requested : ℕ)
    → (complete : Bool) × (report_text (counted (batch_report requested [] true) [])
        ≡ some (opening complete ++ counters_text requested 0 0))
unfolding report_text record_texts counted batch_report opening error_text omitted_text
opening_text requested = (0 == requested && true, ap some (simp append_assoc))

pub opening-FitsWithin :
    (limit requested : ℕ)
    → 512 ≤ limit
    → requested < 10000000
    → (resp : Response) × (n : ℕ) × (render (batch_report requested [] true) [] ≡ some (resp, n))
      × (FitsWithin limit (some resp))
unfolding batch_report held_bytes
opening-FitsWithin limit requested enough few =
    let (complete, is_text) = opening_text requested in
    let t = opening complete ++ counters_text requested 0 0 in
    let size : catalog_reply_size (stand_in t true []) ≡ some (width t + 55) =
      unfold stand_in measured_contents catalog_batch_meta batch_meta_results meta_object_of in
      reply_size_iff t [] false end 0 0 refl refl in
    let made = render-some (batch_report requested [] true) [] t (width t + 55) refl is_text size in
    let wide =
      width_add (opening complete) (counters_text requested 0 0) (unfold counters_text in refl) in
    let room : width t + 55 + 0 ≤ limit = omega (
      arith,
      wide,
      width-opening complete,
      counters_width requested,
      width-print_decimal requested few,
      enough,
    ) in
    (
      batch_reply t true [],
      width t + 55 + held_bytes [],
      made,
      rendered-FitsWithin limit (batch_report requested [] true) [] (batch_reply t true [])
          (width t + 55 + held_bytes []) tt made room,
    )

-- Whatever the tools return, and wherever a batch stops, its reply is serialized in at most as
-- many bytes as the catalog allows, for a limit between the floor and the ceiling.
pub execute-FitsWithin :
    {W : Type 0} (parent : Parent) (tools : List (CatalogTool W)) (cancelled : W → Bool) (limit : ℕ)
    (calls : List CatalogCall) (w : W)
    → min_catalog_max_output_bytes ≤ limit
    → limit ≤ max_catalog_max_output_bytes
    → length calls ≤ max_catalog_max_tool_calls
    → FitsWithin limit (execute parent tools cancelled limit calls w).value
unfolding execute
execute-FitsWithin parent tools cancelled limit calls w floor ceiling few =
    let (resp, n, made, fits) = opening-FitsWithin limit (length calls) floor (omega arith) in
    rw made (
      run_calls-FitsWithin limit (length calls) (omega arith) parent tools cancelled 0 []
        (some resp) calls w tt fits)

abbrev fits_alone : ℕ → Response → Bool
fits_alone limit r = size_within limit (catalog_reply_size r)

fits_alone-FitsWithin :
    (limit : ℕ) (r : Response) → fits_alone limit r ≡ true → FitsWithin limit (some r)
fits_alone-FitsWithin limit r h = elim (Option-cases (catalog_reply_size r)) [
  | inl e ↦ absurd (false-ne-true (rw e at h))
  | inr (n, e) ↦ record {
    response = r;
    is_reply = refl;
    bytes = n;
    serialized = e;
    within = (let g : leb n limit ≡ true = rw e at h in ground (arith, g));
  }
]

empty_reply_size : catalog_reply_size (error_response []) ≡ some 54
unfolding quote_from
empty_reply_size = reply_size_iff [] [] true end 0 0 refl refl

-- Every diagnostic of the catalog is clipped to what fits, whatever it says.
pub message_reply-FitsWithin :
    (limit : ℕ) (message : Bytes)
    → min_catalog_max_output_bytes ≤ limit
    → FitsWithin limit (some (message_reply limit message))
unfolding message_reply
message_reply-FitsWithin limit message floor =
    let bare : fits_alone limit (error_response []) ≡ true =
      rw empty_reply_size (ground (arith, floor)) in
    let (called, is_called, fits) =
      held_to_limit-fitting (fits_alone limit) error_response message
        (held_to_limit-bare (fits_alone limit) error_response message bare) in
    rw is_called (fits_alone-FitsWithin limit (error_response called) fits)
