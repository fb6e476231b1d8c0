-- ===== src/Server/Catalog/Render/Sizes.antt =====
-- The bytes that the contents and the metadata of a batch add to its stand-in.
use velocity_mcp.Base.{
  >>=-eq-some, All, Bool, Bool-cases, List, Option-cases, [], any, ap, arith, false, false-ne-true,
  if◌then◌else◌, inl, inr, length, length-append, map, not, refl, some, some-eq, sym, true, ℕ, ◌&&◌,
  ◌*◌, ◌++◌, ◌+◌, ◌-◌, ◌>>=◌, ◌||◌, ◌∙◌, ◌∷◌, ◌≡◌, ◌≤◌,
}
use velocity_mcp.Bytes.{Bytes, codes, index}
use velocity_mcp.Json.{Json, Members, arr, bool, end, find, null, num, obj, str}
use velocity_mcp.Json.Marshal.{marshal, marshal_values, object_text, wire_size}
use velocity_mcp.Server.Catalog.Reply.{Content, forwarded, placeholder, to_tool}
use velocity_mcp.Server.Catalog.Batch.{
  CatalogBatchEntry, Sized, can_encode, catalog_batch_entry_for, is_empty, items_of, size_or_zero,
  sized_items,
}
use velocity_mcp.Server.Catalog.Render.{
  batch_meta_results, call_meta, held_bytes, held_content, kept_contents, measured_contents,
}
use velocity_mcp.Server.Catalog.Render.Texts.{
  around, behind_commas, behind_commas-append, call_meta_size,
}
use velocity_mcp.Json.Encode.{print_decimal, sort_keys}

abbrev pub AreSized : List Sized → Type 0
AreSized = All (λ s. s.size ≡ size_or_zero (wire_size (obj s.shape)))

-- An entry whose sizes are those of its items and of its metadata, and which is flagged if one of
-- these cannot be encoded.
pub record IsMeasured (e : CatalogBatchEntry) : Type 0 where
  pub contents : AreSized e.content
  pub metadata :
      e.meta_size ≡ (if is_empty e.meta then 0 else size_or_zero (wire_size (obj e.meta)))
  pub flagged : e.unencodable ≡ (
      any (λ s. not (can_encode s.shape)) e.content
      || not (is_empty e.meta) && not (can_encode e.meta))

sized_items-AreSized : (vs : List Json) → AreSized (sized_items vs)
unfolding sized_items
sized_items-AreSized [] = tt
sized_items-AreSized (null ∷ vs) = sized_items-AreSized vs
sized_items-AreSized (bool b ∷ vs) = sized_items-AreSized vs
sized_items-AreSized (num r ∷ vs) = sized_items-AreSized vs
sized_items-AreSized (str s ∷ vs) = sized_items-AreSized vs
sized_items-AreSized (arr ws ∷ vs) = sized_items-AreSized vs
sized_items-AreSized (obj ms ∷ vs) = (refl, sized_items-AreSized vs)

pub catalog_batch_entry_for-IsMeasured :
    (index : ℕ) (name : Bytes) (result : Members)
    → IsMeasured (catalog_batch_entry_for index name result)
unfolding catalog_batch_entry_for
catalog_batch_entry_for-IsMeasured index name result = record {
  contents = sized_items-AreSized (items_of (find (codes "content") result));
  metadata = refl;
  flagged = refl;
}

-- An object takes two bytes at least.
object_bytes :
    (ms : Members) → can_encode ms ≡ true → (n : ℕ) × (wire_size (obj ms) ≡ some n) × (2 ≤ n)
unfolding wire_size marshal
object_bytes ms h = elim (Option-cases (marshal_values true ms)) [
  | inl e ↦ absurd (false-ne-true (rw e at h))
  | inr (entries, e) ↦ (length (object_text true entries), rw e refl, grind (arith, length-append))
]

placeholder_size : wire_size (obj end) ≡ some 2
unfolding wire_size marshal sort_keys
placeholder_size = refl

contents_bytes :
    (content : List Sized)
    → AreSized content
    → any (λ s. not (can_encode s.shape)) content ≡ false
    → (behind_commas (map to_tool (map (λ s. forwarded s.shape) content))
        ≡ some (held_content content + 3 * length content))
      × (behind_commas (map to_tool (map (λ _. placeholder) content)) ≡ some (3 * length content))
unfolding to_tool
contents_bytes [] h k = (refl, refl)
contents_bytes (s ∷ content) (e, h) k =
    let (n, sized, two) = object_bytes s.shape (ground (arith, k)) in
    let size : s.size ≡ n = e ∙ ap size_or_zero sized in
    let (own, others) = contents_bytes content h (ground (arith, k)) in
    (
      rw (sized, own) (ap some (omega (arith, size, two))),
      rw (placeholder_size, others) (ap some (omega arith)),
    )

any-append :
    {A : Type 0} (p : A → Bool) (x : A) (xs : List A)
    → any p (x ∷ xs) ≡ false
    → (p x ≡ false) × (any p xs ≡ false)
any-append p x xs h = (ground (arith, h), ground (arith, h))

abbrev pub all_content : List CatalogBatchEntry → ℕ
all_content [] = 0
all_content (e ∷ kept) = held_content e.content + all_content kept

abbrev pub all_meta : List CatalogBatchEntry → ℕ
all_meta [] = 0
all_meta (e ∷ kept) = (if is_empty e.meta then 0 else e.meta_size - 2) + all_meta kept

pub held_bytes_lem :
    (kept : List CatalogBatchEntry) → held_bytes kept ≡ all_content kept + all_meta kept
unfolding held_bytes
held_bytes_lem [] = refl
held_bytes_lem (e ∷ kept) = omega (arith, held_bytes_lem kept)

map-append_contents :
    (cs ds : List Content) → map to_tool (cs ++ ds) ≡ map to_tool cs ++ map to_tool ds
map-append_contents [] ds = refl
map-append_contents (c ∷ cs) ds = ap (◌∷◌ (to_tool c)) (map-append_contents cs ds)

pub kept_bytes :
    (kept : List CatalogBatchEntry)
    → All IsMeasured kept
    → any (λ e. e.unencodable) kept ≡ false
    → (n : ℕ) × (behind_commas (map to_tool (kept_contents kept)) ≡ some (n + all_content kept))
      × (behind_commas (map to_tool (measured_contents kept)) ≡ some n)
unfolding kept_contents measured_contents
kept_bytes [] h k = (0, refl, refl)
kept_bytes (e ∷ kept) (m, h) k =
    let (fine, rest) = any-append (λ e. e.unencodable) e kept k in
    let (own, others) = contents_bytes e.content m.contents (ground (arith, m.flagged, fine)) in
    let (n, kept_own, kept_others) = kept_bytes kept h rest in
    (
      3 * length e.content + n,
      rw (map-append_contents (map (λ s. forwarded s.shape) e.content) (kept_contents kept))
          (behind_commas-append _ _ _ _ own kept_own ∙ ap some (omega arith)),
      rw (map-append_contents (map (λ _. placeholder) e.content) (measured_contents kept))
          (behind_commas-append _ _ _ _ others kept_others),
    )

call_meta_grows :
    (I N M : Json) (vs ws : List Json) (n k a : ℕ)
    → wire_size M ≡ some k
    → 2 ≤ k
    → ((r : ℕ) → behind_commas vs ≡ some r → behind_commas ws ≡ some (r + a))
    → behind_commas (call_meta I N (obj end) ∷ vs) ≡ some n
    → behind_commas (call_meta I N M ∷ ws) ≡ some (n + (k - 2 + a))
call_meta_grows I N M vs ws n k a sized two later e =
    let (c, own, e1) =
      >>=-eq-some (wire_size (call_meta I N (obj end)))
        (λ m. behind_commas vs >>= λ n. some (1 + m + n)) e in
    let (r, others, e2) = >>=-eq-some (behind_commas vs) (λ n. some (1 + c + n)) e1 in
    let parts = sym (call_meta_size I N (obj end)) ∙ own in
    let (i, index, e3) =
      >>=-eq-some (wire_size I)
        (λ i. wire_size N >>= λ n. wire_size (obj end) >>= λ m. some (i + n + m + 26)) parts in
    let (l, name, e4) =
      >>=-eq-some (wire_size N) (λ n. wire_size (obj end) >>= λ m. some (i + n + m + 26)) e3 in
    let total : i + l + 2 + 26 ≡ c = some-eq (rw placeholder_size at e4) in
    rw (call_meta_size I N M, index, name, sized, later r others)
      (ap some (omega (arith, total, some-eq e2, two)))

pub meta_results_bytes :
    (kept : List CatalogBatchEntry) (n : ℕ)
    → All IsMeasured kept
    → any (λ e. e.unencodable) kept ≡ false
    → behind_commas (batch_meta_results kept true) ≡ some n
    → behind_commas (batch_meta_results kept false) ≡ some (n + all_meta kept)
unfolding batch_meta_results
meta_results_bytes [] n h k e = e ∙ ap some (omega arith)
meta_results_bytes (x ∷ kept) n (m, h) k e =
    let (fine, rest) = any-append (λ e. e.unencodable) x kept k in
    elim (Bool-cases (is_empty x.meta)) [
      | inl bare ↦ rw bare (meta_results_bytes kept n h rest (rw bare at e) ∙ ap some (omega arith))
      | inr carried ↦
          let (b, sized, two) = object_bytes x.meta (ground (arith, m.flagged, fine, carried)) in
          let size : x.meta_size ≡ b = m.metadata ∙ rw carried (ap size_or_zero sized) in
          rw (carried, size)
            (call_meta_grows (num (print_decimal x.index)) (str x.name) (obj x.meta)
              (batch_meta_results kept true) (batch_meta_results kept false) n b (all_meta kept)
              sized two (λ r. meta_results_bytes kept r h rest) (rw carried at e))
    ]

pub around-batch_meta_results :
    (kept : List CatalogBatchEntry)
    → around (batch_meta_results kept true) ≡ around (batch_meta_results kept false)
unfolding batch_meta_results
around-batch_meta_results [] = refl
around-batch_meta_results (x ∷ kept) = elim (Bool-cases (is_empty x.meta)) [
  | inl e ↦ rw e (around-batch_meta_results kept)
  | inr e ↦ rw e refl
]
