-- ===== src/Server/Catalog/Render/Measured.antt =====
-- The size of a batch's reply, measured on its stand-in, is the size of the reply itself.
use velocity_mcp.Base.{
  >>=-eq-some, All, Bool, Bool-cases, List, any, ap, arith, false, inl, inr, none-ne-some, not,
  some, some-eq, sym, true, ℕ, ◌+◌, ◌>>=◌, ◌∙◌, ◌≡◌,
}
use velocity_mcp.Bytes.{Bytes}
use velocity_mcp.Server.Catalog.Reply.{Response, catalog_reply_size}
use velocity_mcp.Server.Catalog.Batch.{CatalogBatchEntry, CatalogExecuteReport, report_text}
use velocity_mcp.Server.Catalog.Render.{
  batch_meta_results, batch_reply, catalog_batch_meta, counted, held_bytes, kept_contents,
  measured_contents, render, stand_in,
}
use velocity_mcp.Server.Catalog.Render.Texts.{
  around, behind_commas, meta_object_of_size, reply_size_iff,
}
use velocity_mcp.Server.Catalog.Reply.Size.{meta_bytes, reply_size-meta}
use velocity_mcp.Server.Catalog.Render.Sizes.{
  IsMeasured, all_content, all_meta, around-batch_meta_results, held_bytes_lem, kept_bytes,
  meta_results_bytes,
}

module _ (s : Bytes) (b : Bool) (kept : List CatalogBatchEntry) (measured : All IsMeasured kept)
    (fine : any (λ e. e.unencodable) kept ≡ false) where
  pub reply_size-stand_in :
      (n : ℕ)
      → catalog_reply_size (stand_in s b kept) ≡ some n
      → catalog_reply_size (batch_reply s b kept) ≡ some (n + held_bytes kept)
  unfolding stand_in batch_reply catalog_batch_meta
  reply_size-stand_in n e =
      let (c, own, others) = kept_bytes kept measured fine in
      let (m, metadata) =
        reply_size-meta s (measured_contents kept) (not b) (catalog_batch_meta kept true) n e in
      let (r, results, sum) =
        >>=-eq-some (behind_commas (batch_meta_results kept true))
          (λ n. some (n + around (batch_meta_results kept true)))
          (sym (meta_object_of_size (batch_meta_results kept true)) ∙ metadata) in
      let real : meta_bytes (catalog_batch_meta kept false) ≡ some (m + all_meta kept) =
        meta_object_of_size (batch_meta_results kept false)
        ∙ rw (meta_results_bytes kept r measured fine results)
            (ap some (omega (arith, some-eq sum, around-batch_meta_results kept))) in
      let measured_size = some-eq (
        sym e
        ∙ reply_size_iff s (measured_contents kept) (not b) (catalog_batch_meta kept true) c m
            others metadata) in
      reply_size_iff s (kept_contents kept) (not b) (catalog_batch_meta kept false)
        (c + all_content kept) (m + all_meta kept) own real
      ∙ ap some (omega (arith, measured_size, held_bytes_lem kept))

-- What a rendered reply is made of.
pub record IsRendered (report : CatalogExecuteReport) (kept : List CatalogBatchEntry)
    (resp : Response) (n : ℕ) : Type 0 where
  pub encodable : any (λ e. e.unencodable) kept ≡ false
  pub written : Bytes
  pub is_written : report_text (counted report kept) ≡ some written
  pub standing : ℕ
  pub is_standing : catalog_reply_size (stand_in written report.ok kept) ≡ some standing
  pub same : resp ≡ batch_reply written report.ok kept
  pub sum : n ≡ standing + held_bytes kept

pub render-IsRendered :
    (report : CatalogExecuteReport) (kept : List CatalogBatchEntry) (resp : Response) (n : ℕ)
    → render report kept ≡ some (resp, n)
    → IsRendered report kept resp n
unfolding render
render-IsRendered report kept resp n h = elim (Bool-cases (any (λ e. e.unencodable) kept)) [
  | inl e ↦ absurd (none-ne-some (rw e at h))
  | inr e ↦
      let (t, written, h1) =
        >>=-eq-some (report_text (counted report kept))
          (λ t. catalog_reply_size (stand_in t report.ok kept) >>= λ k.
            some (batch_reply t report.ok kept, k + held_bytes kept))
          (rw e at h) in
      let (k, standing, h2) =
        >>=-eq-some (catalog_reply_size (stand_in t report.ok kept))
          (λ k. some (batch_reply t report.ok kept, k + held_bytes kept)) h1 in
      record {
        encodable = e;
        written = t;
        is_written = written;
        standing = k;
        is_standing = standing;
        same = sym (ap (λ p. p.0) (some-eq h2));
        sum = sym (ap (λ p. p.1) (some-eq h2));
      }
]

-- The size that `render` states, measured on a stand-in without the forwarded contents and
-- metadata, is the number of bytes in which the reply that it returns is serialized.
pub render-catalog_reply_size :
    (report : CatalogExecuteReport) (kept : List CatalogBatchEntry) (resp : Response) (n : ℕ)
    → All IsMeasured kept
    → render report kept ≡ some (resp, n)
    → catalog_reply_size resp ≡ some n
render-catalog_reply_size report kept resp n measured h =
    let r = render-IsRendered report kept resp n h in
    rw (r.same, r.sum)
      (reply_size-stand_in r.written report.ok kept measured r.encodable r.standing r.is_standing)
