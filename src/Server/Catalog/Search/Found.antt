-- ===== src/Server/Catalog/Search/Found.antt =====
-- How the reply of a search is chosen, and that it fits.
use velocity_mcp.Base.{
  >>=-eq-some, Bool-cases, List, Option, Option-cases, [], ap, arith, false, inl, inr, leb, length,
  ltb, min, none, refl, some, some-eq, subst, suc, take, true, zero, ℕ, ◌++◌, ◌+◌, ◌<◌, ◌==◌, ◌∷◌,
  ◌≡◌, ◌≤◌, ◌⊎◌,
}
use velocity_mcp.Server.Catalog.Reply.{Response, catalog_reply_size, text, text_response}
use velocity_mcp.Server.Catalog.Search.{
  CatalogEntry, entry_size, fitting_from, payloads, rank, search, search_from,
  search_limit_exceeded, search_output, search_reply, text_reply,
}
use velocity_mcp.Bytes.{Bytes, codes}
use velocity_mcp.Json.Marshal.Width.{width}
use velocity_mcp.Json.Encode.{quote_ascii, quote_character, quote_from, quote_text}
use velocity_mcp.Server.Catalog.Limits.{
  catalog_kind_output_limit, limit_message, max_catalog_max_output_bytes,
  min_catalog_max_output_bytes,
}
use velocity_mcp.Json.{end}
use velocity_mcp.Server.Catalog.Reply.Size.{reply}
use velocity_mcp.Server.Catalog.Terms.{TextClass}
use velocity_mcp.Server.Catalog.Render.Texts.{reply_size_iff}
use velocity_mcp.Server.Catalog.Render.Widths.{width-limit_tail}

up_to : (P : ℕ → Type 0) (n m : ℕ) → m ≤ suc n → P (suc n) → (m ≤ n → P m) → P m
up_to P n m h last below = elim (Bool-cases (m == suc n)) [
  | inl e ↦ let same : suc n ≡ m = ground (arith, e) in subst P same last
  | inr e ↦ below (ground (arith, e))
]

module _ (max_output_bytes : ℕ) (entries : List CatalogEntry) where
  -- The sizes of the entries in front of a place, together.
  abbrev pub own_sizes : List ℕ → ℕ → ℕ
  own_sizes [] n = 0
  own_sizes (i ∷ ranked) zero = 0
  own_sizes (i ∷ ranked) (suc n) = entry_size entries i + own_sizes ranked n

  -- As many entries as may fit by their own sizes, of so many at most: with one more, their sizes
  -- would be over the limit.
  pub record IsMost (limit lower : ℕ) (ranked : List ℕ) (most : ℕ) : Type 0 where
    pub bounded : most ≤ min limit (length ranked)
    pub fit : 0 < most → lower + own_sizes ranked most ≤ max_output_bytes
    pub over :
        most < min limit (length ranked) → max_output_bytes < lower + own_sizes ranked (suc most)

  own_sizes-nil : (ranked : List ℕ) → own_sizes ranked 0 ≡ 0
  own_sizes-nil [] = refl
  own_sizes-nil (i ∷ ranked) = refl

  fitting_from-IsMost :
      (limit lower : ℕ) (ranked : List ℕ)
      → IsMost limit lower ranked (fitting_from max_output_bytes entries limit lower ranked)
  unfolding fitting_from
  fitting_from-IsMost limit lower [] = record {
    bounded = omega arith;
    fit = λ h. absurd (omega arith);
    over = λ h. absurd (omega arith);
  }
  fitting_from-IsMost zero lower (i ∷ ranked) = record {
    bounded = omega arith;
    fit = λ h. absurd (omega arith);
    over = λ h. absurd (omega arith);
  }
  fitting_from-IsMost (suc limit) lower (i ∷ ranked) =
      let total = lower + entry_size entries i in
      let r = fitting_from-IsMost limit total ranked in
      elim (Bool-cases (ltb max_output_bytes total)) [
        | inl e ↦ rw e (record {
          bounded = omega arith;
          fit = λ h. absurd (omega arith);
          over = λ h. ground (arith, e, own_sizes-nil ranked);
        })
        | inr e ↦ rw e (record {
          bounded = omega (arith, r.bounded);
          fit = λ h. omega (arith, sizes_within total ranked _ (ground (arith, e)) r.fit);
          over = λ h. omega (arith, r.over (omega arith));
        })
      ]
    where
      sizes_within :
          (total : ℕ) (js : List ℕ) (n : ℕ)
          → total ≤ max_output_bytes
          → (0 < n → total + own_sizes js n ≤ max_output_bytes)
          → total + own_sizes js n ≤ max_output_bytes
      sizes_within total js zero h k = omega (arith, h, own_sizes-nil js)
      sizes_within total js (suc n) h k = k (omega arith)

  -- A reply that can be encoded and is too large to be sent.
  pub record TooLarge (ranked : List ℕ) (m : ℕ) : Type 0 where
    pub response : Response
    pub size : ℕ
    pub rendered : search_reply max_output_bytes entries ranked m ≡ some (response, size)
    pub over : max_output_bytes < size

  -- What a search may answer with, for at most so many of the ranked entries: the reply that
  -- carries most of them, the report of the limit, or nothing if a reply cannot be encoded.
  pub data IsAnswer (ranked : List ℕ) (most : ℕ) (sent : Option Response) : Type 0 where
    found :
        (n : ℕ) (response : Response) (size : ℕ)
        → n ≤ most
        → (0 < n) ⊎ (length ranked ≡ 0)
        → search_reply max_output_bytes entries ranked n ≡ some (response, size)
        → size ≤ max_output_bytes
        → ((m : ℕ) → n < m → m ≤ most → TooLarge ranked m)
        → sent ≡ some response
        → IsAnswer ranked most sent
    none_fits :
        ((m : ℕ) → m ≤ most → (0 < m) ⊎ (length ranked ≡ 0) → TooLarge ranked m)
        → sent ≡ search_limit_exceeded max_output_bytes entries
        → IsAnswer ranked most sent
    unencodable :
        (m : ℕ)
        → search_reply max_output_bytes entries ranked m ≡ none
        → sent ≡ none
        → IsAnswer ranked most sent

  pub search_reply-size :
      (ranked : List ℕ) (n : ℕ) (resp : Response) (size : ℕ)
      → search_reply max_output_bytes entries ranked n ≡ some (resp, size)
      → catalog_reply_size resp ≡ some size
  unfolding search_reply text_reply
  search_reply-size ranked n resp size e =
      let (s, _, made) =
        >>=-eq-some (search_output (payloads entries (take n ranked)) (ltb n (length ranked)))
          (λ s. text_reply s false) e in
      let (k, sized, same) =
        >>=-eq-some (catalog_reply_size (record (text_response s) { is_error = false }))
          (λ k. some (record (text_response s) { is_error = false }, k)) made in
      rw (← ap (λ p. p.0) (some-eq same), ← ap (λ p. p.1) (some-eq same)) sized

  one_larger :
      (ranked : List ℕ) (n : ℕ) (sent : Option Response)
      → TooLarge ranked (suc n)
      → IsAnswer ranked n sent
      → IsAnswer ranked (suc n) sent
  one_larger ranked n sent t (found k r s h o e f g q) =
      found k r s (omega (arith, h)) o e f (λ m a b. up_to (TooLarge ranked) n m b t (g m a)) q
  one_larger ranked n sent t (none_fits h q) =
      none_fits (λ m a o. up_to (TooLarge ranked) n m a t (λ b. h m b o)) q
  one_larger ranked n sent t (unencodable m e q) = unencodable m e q

  search_from-IsAnswer :
      (ranked : List ℕ) (n : ℕ) → IsAnswer ranked n (search_from max_output_bytes entries ranked n)
  unfolding search_from
  search_from-IsAnswer ranked zero = elim (Bool-cases (ltb 0 (length ranked))) [
    | inl e ↦ rw e (
        none_fits
          (λ m a o. elim o [ inl p ↦ absurd (omega arith) | inr p ↦ absurd (ground (arith, e, p)) ])
          refl)
    | inr e ↦ elim (Option-cases (search_reply max_output_bytes entries ranked 0)) [
      | inl f ↦ rw (e, f) (unencodable 0 f refl)
      | inr ((r, s), f) ↦ elim (Bool-cases (leb s max_output_bytes)) [
        | inl g ↦
            rw (e, f, g)
              (found 0 r s (omega arith) (inr (ground (arith, e))) f (ground (arith, g))
                (λ m a b. absurd (omega arith)) refl)
        | inr g ↦
            rw (e, f, g)
              (none_fits
                (λ m a o.
                  let z : 0 ≡ m = omega arith in
                  subst (TooLarge ranked) z
                    (record { response = r; size = s; rendered = f; over = ground (arith, g) }))
                refl)
      ]
    ]
  ]
  search_from-IsAnswer ranked (suc n) =
      elim (Option-cases (search_reply max_output_bytes entries ranked (suc n))) [
        | inl f ↦ rw f (unencodable (suc n) f refl)
        | inr ((r, s), f) ↦ elim (Bool-cases (leb s max_output_bytes)) [
          | inl g ↦
              rw (f, g)
                (found (suc n) r s (omega arith) (inl (omega arith)) f (ground (arith, g))
                  (λ m a b. absurd (omega arith)) refl)
          | inr g ↦
              rw (f, g)
                (one_larger ranked n (search_from max_output_bytes entries ranked n)
                  (record { response = r; size = s; rendered = f; over = ground (arith, g) })
                  (search_from-IsAnswer ranked n))
        ]
      ]

-- The report of the limit is small enough for every catalog.
limit_report : ℕ → Bytes
limit_report m =
    codes "{\"ok\":false,\"error\":{\"kind\":"
    ++ (quote_text false catalog_kind_output_limit
        ++ (codes ",\"message\":" ++ (quote_text false (limit_message m) ++ codes "}}")))

width-limit_report : (m : ℕ) → m < 10000000 → width (limit_report m) ≤ 400
unfolding limit_report limit_message quote_text quote_from quote_character quote_ascii
width-limit_report m h = omega (arith, width-limit_tail m (codes "}}") h)

limit_reply-fits :
    (m : ℕ) (entries : List CatalogEntry)
    → min_catalog_max_output_bytes ≤ m
    → m ≤ max_catalog_max_output_bytes
    → (resp : Response) × (n : ℕ) × (search_limit_exceeded m entries ≡ some resp)
      × (catalog_reply_size resp ≡ some n)
      × (n ≤ m)
unfolding search_limit_exceeded text_reply
limit_reply-fits m entries floor ceiling =
    let size = reply_size_iff (limit_report m) [] true end 0 0 refl refl in
    let few = width-limit_report m (omega arith) in
    (
      reply (text (limit_report m) ∷ []) true end,
      width (limit_report m) + 54,
      unfold limit_report in rw size refl,
      size,
      omega (arith, few),
    )

-- A search answers with the most of the ranked entries whose reply fits the limit, out of as many as
-- the client asks for at most and as fit by their own sizes, so that one more of them would not. If
-- none of these replies fits, it answers with the report of the limit, which does; the one other
-- outcome is that a reply cannot be encoded.
pub search-IsAnswer :
    (m : ℕ) (entries : List CatalogEntry) (c : TextClass) (query : Bytes) (limit : ℕ)
    → min_catalog_max_output_bytes ≤ m
    → m ≤ max_catalog_max_output_bytes
    → (most : ℕ) × IsMost m entries limit 0 (rank c entries query) most
      × IsAnswer m entries (rank c entries query) most (search m entries c query limit)
      × ((resp : Response) × (n : ℕ) × (search_limit_exceeded m entries ≡ some resp)
          × (catalog_reply_size resp ≡ some n)
          × (n ≤ m))
unfolding search
search-IsAnswer m entries c query limit floor ceiling =
    let ranked = rank c entries query in
    let most = fitting_from m entries limit 0 ranked in
    (
      most,
      fitting_from-IsMost m entries limit 0 ranked,
      search_from-IsAnswer m entries ranked most,
      limit_reply-fits m entries floor ceiling,
    )
