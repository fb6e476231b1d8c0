-- ===== src/Server/Catalog/Render/Failing.antt =====
-- The report of a call whose result is left out: when it fits the limit.
use velocity_mcp.Base.{
  Bool, Bool-cases, List, Option-cases, [], any, ap, arith, false, false-ne-true, inl, inr, leb,
  length, ltb, none-ne-some, not, refl, some, some-eq, sym, take, true, ℕ, ◌+◌, ◌==◌, ◌||◌, ◌∙◌,
  ◌∷◌, ◌≡◌, ◌≤◌,
}
use velocity_mcp.Bytes.{Bytes, index}
use velocity_mcp.Json.Marshal.Width.{width}
use velocity_mcp.Server.Catalog.Limits.{LimitError}
use velocity_mcp.Server.Catalog.Reply.{Response, catalog_reply_size}
use velocity_mcp.Server.Catalog.Reply.Size.{flag_bytes, reply_size-meta}
use velocity_mcp.Server.Catalog.Batch.{
  CatalogBatchEntry, CatalogExecuteReport, error_text, record_texts, report_text,
}
use velocity_mcp.Server.Catalog.Render.{
  batch_reply, catalog_batch_meta, counted, fail_reply, failing, fits_limit, held_bytes,
  held_to_limit, measured_contents, omitting_report, render, stand_in,
}
use velocity_mcp.Server.Catalog.Render.Texts.{reply_size-behind_commas, reply_size_iff}
use velocity_mcp.Server.Catalog.Render.Measured.{render-IsRendered}
use velocity_mcp.Server.Catalog.Render.Widths.{report_width}
use velocity_mcp.Json.Encode.{less, quote_from}
use velocity_mcp.Json.Text.{replacement, utf8_tail}
use velocity_mcp.Server.Catalog.Fit.{catalog_clip, catalog_longest_fit, runes, runes_from}

abbrev omitting : ℕ → LimitError → Bytes → ℕ → List CatalogBatchEntry → CatalogExecuteReport
unfolding counted omitting_report
omitting requested e name index entries = counted (omitting_report requested e name index) entries

-- A reply that carries one text instead of another is wider by what the text is wider.
stand_in_size :
    (s t : Bytes) (ok : Bool) (kept : List CatalogBatchEntry) (n : ℕ)
    → catalog_reply_size (stand_in s ok kept) ≡ some n
    → (m : ℕ) × (catalog_reply_size (stand_in t ok kept) ≡ some m) × (m + width s ≡ n + width t)
unfolding stand_in
stand_in_size s t ok kept n e =
    let (b, behind) =
      reply_size-behind_commas s (measured_contents kept) (not ok) (catalog_batch_meta kept true) n
        e in
    let (m, metadata) =
      reply_size-meta s (measured_contents kept) (not ok) (catalog_batch_meta kept true) n e in
    let size = λ (u : Bytes).
      reply_size_iff u (measured_contents kept) (not ok) (catalog_batch_meta kept true) b m behind
        metadata in
    (width t + (b + m + flag_bytes (not ok) + 50), size t, omega (arith, some-eq (sym e ∙ size s)))

pub render-some :
    (report : CatalogExecuteReport) (kept : List CatalogBatchEntry) (t : Bytes) (n : ℕ)
    → any (λ e. e.unencodable) kept ≡ false
    → report_text (counted report kept) ≡ some t
    → catalog_reply_size (stand_in t report.ok kept) ≡ some n
    → render report kept ≡ some (batch_reply t report.ok kept, n + held_bytes kept)
unfolding render
render-some report kept t n e f g = rw (e, f, g) refl

report_results :
    (r : CatalogExecuteReport) (t : Bytes)
    → report_text r ≡ some t
    → (results : List Bytes) × (record_texts r.results ≡ some results)
unfolding report_text
report_results r t e = elim (Option-cases (record_texts r.results)) [
  | inl f ↦ absurd (none-ne-some (rw f at e))
  | inr p ↦ p
]

not_empty : {A : Type 0} (x : Bytes) (xs : List Bytes) → (length (x ∷ xs) == 0) ≡ true → A
not_empty x xs h = absurd (ground (arith, h))

runes-nil : (name : Bytes) → (length (runes name) == 0) ≡ true → name ≡ []
unfolding runes runes_from
runes-nil [] h = refl
runes-nil (c ∷ s) h = elim (Bool-cases (ltb c 128)) [
  | inl e ↦ not_empty (c ∷ []) (runes_from 0 s) (rw e at h)
  | inr e ↦ elim (Option-cases (utf8_tail c s)) [
    | inl f ↦ not_empty replacement (runes_from 0 s) (rw (e, f) at h)
    | inr (n, f) ↦ not_empty (c ∷ take n s) (runes_from n s) (rw (e, f) at h)
  ]
]

module _ {A : Type 0} (fits : A → Bool) (build : Bytes → A) (name : Bytes) where
  pub held_to_limit-fitting :
      (held_to_limit fits build name).1 ≡ true
      → (called : Bytes) × ((held_to_limit fits build name).0 ≡ build called)
        × (fits (build called) ≡ true)
  unfolding held_to_limit
  held_to_limit-fitting h =
      let clip = catalog_clip (runes name) (
        catalog_longest_fit (length (runes name))
          (λ n. fits (build (catalog_clip (runes name) n)))) in
      elim (Bool-cases (fits (build name))) [
        | inl e ↦ (name, rw e refl, e)
        | inr e ↦ elim (Bool-cases (fits (build clip) || length (runes name) == 0)) [
          | inl f ↦ (clip, rw (e, f) refl, rw (e, f) at h)
          | inr f ↦ ([], rw (e, f) refl, rw (e, f) at h)
        ]
      ]

  pub held_to_limit-bare : fits (build []) ≡ true → (held_to_limit fits build name).1 ≡ true
  unfolding held_to_limit
  held_to_limit-bare h =
      let clip = catalog_clip (runes name) (
        catalog_longest_fit (length (runes name))
          (λ n. fits (build (catalog_clip (runes name) n)))) in
      elim (Bool-cases (fits (build name))) [
        | inl e ↦ rw e refl
        | inr e ↦ elim (Bool-cases (fits (build clip))) [
          | inl f ↦ rw (e, f) refl
          | inr f ↦ elim (Bool-cases (length (runes name) == 0)) [
            | inl z ↦
                absurd (false-ne-true (sym e ∙ ap (λ s. fits (build s)) (runes-nil name z) ∙ h))
            | inr z ↦ rw (e, f, z) h
          ]
        ]
      ]

module _ (limit requested : ℕ) (entries : List CatalogBatchEntry) where
  -- A narrower error and no name take no more room.
  failing-shrinks :
      (f g : LimitError) (name : Bytes) (index : ℕ) (resp : Response) (n : ℕ)
      → width (error_text (some g)) ≤ width (error_text (some f))
      → failing limit requested entries f index name ≡ some (resp, n)
      → (r : Response) × (m : ℕ) × (failing limit requested entries g index [] ≡ some (r, m))
        × (m ≤ n)
  unfolding failing omitting_report counted
  failing-shrinks f g name index resp n narrower h =
      let given = render-IsRendered (omitting_report requested f name index) entries resp n h in
      let (results, encoded) =
        report_results (omitting requested f name index entries) given.written given.is_written in
      let base = omitting requested f name index entries in
      let (t, is_text, wide) = report_width base f name index results encoded in
      let (u, is_text', wide') = report_width base g [] index results encoded in
      let same = some-eq (sym given.is_written ∙ is_text) in
      let (m, sized, more) =
        stand_in_size given.written u false entries given.standing given.is_standing in
      let no_name : width (quote_from false 0 []) ≡ 0 = unfold quote_from in refl in
      let made =
        render-some (omitting_report requested g [] index) entries u m given.encodable is_text'
          sized in
      (
        batch_reply u false entries,
        m + held_bytes entries,
        made,
        omega (arith, ap width same, wide, wide', more, given.sum, narrower, no_name),
      )

  -- A failure fits if a failure that is at least as wide does, whatever name that one gives.
  shrunk-fits :
      (f g : LimitError) (name : Bytes) (index : ℕ)
      → width (error_text (some g)) ≤ width (error_text (some f))
      → fits_limit limit (failing limit requested entries f index name) ≡ true
      → fits_limit limit (failing limit requested entries g index []) ≡ true
  unfolding fits_limit
  shrunk-fits f g name index narrower h =
      elim (Option-cases (failing limit requested entries f index name)) [
        | inl e ↦ absurd (false-ne-true (rw e at h))
        | inr ((resp, n), e) ↦
            let (r, m, made, less) = failing-shrinks f g name index resp n narrower e in
            let given : leb n limit ≡ true = rw e at h in rw made (ground (arith, given, less))
      ]

  -- What `failReply` finds to fit was a candidate that does.
  pub fail_reply-fitting :
      (f : LimitError) (name : Bytes) (index : ℕ)
      → (fail_reply limit requested entries f name index).1 ≡ true
      → (called : Bytes) × ((fail_reply limit requested entries f name index).0
          ≡ failing limit requested entries f index called)
        × (fits_limit limit (failing limit requested entries f index called) ≡ true)
  unfolding fail_reply
  fail_reply-fitting f name index =
      held_to_limit-fitting (fits_limit limit) (failing limit requested entries f index) name

  -- Where a failure can be reported, a failure that is not wider can be.
  pub fail_reply-narrower :
      (f g : LimitError) (name : Bytes) (index : ℕ)
      → width (error_text (some g)) ≤ width (error_text (some f))
      → (fail_reply limit requested entries f name index).1 ≡ true
      → (fail_reply limit requested entries g name index).1 ≡ true
  fail_reply-narrower f g name index narrower h =
      let (called, _, fits) = fail_reply-fitting f name index h in
      let bare = shrunk-fits f g called index narrower fits in
      unfold fail_reply in
      held_to_limit-bare (fits_limit limit) (failing limit requested entries g index) name bare
