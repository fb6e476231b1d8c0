-- ===== src/Server/Catalog/Search/Ranked.antt =====
-- The order of the search results, and which entries they are.
use velocity_mcp.Base.{
  All, Bool, Bool-cases, List, [], ap, arith, false, get_elem?, if◌then◌else◌, inl, inr, leb,
  length, ltb, map, none, refl, some, suc, true, ℕ, ◌&&◌, ◌+◌, ◌-◌, ◌<◌, ◌==◌, ◌∙◌, ◌∷◌, ◌≡◌, ◌≤◌,
  ◌⊎◌,
}
use velocity_mcp.Bytes.{Bytes}
use velocity_mcp.Server.Catalog.Terms.{TextClass, catalog_query_terms}
use velocity_mcp.Server.Catalog.Search.{
  CatalogEntry, candidates, goes_before, insert_candidate, rank, score, sort_candidates,
}

-- How often an index stands in a list.
abbrev pub count : ℕ → List ℕ → ℕ
count i [] = 0
count i (j ∷ js) = (if i == j then 1 else 0) + count i js

-- No candidate comes in front of one that goes before it.
abbrev InOrder : List (ℕ × ℕ) → Type 0
InOrder [] = Unit
InOrder (a ∷ []) = Unit
InOrder (a ∷ b ∷ ps) = (goes_before b a ≡ false) × InOrder (b ∷ ps)

goes_before-asym : (a b : ℕ × ℕ) → goes_before b a ≡ true → goes_before a b ≡ false
goes_before-asym (i, m) (j, n) h = ground (arith, h)

insert_candidate-InOrder :
    (b : ℕ × ℕ) (a : ℕ × ℕ) (ps : List (ℕ × ℕ))
    → goes_before b a ≡ true
    → InOrder (b ∷ ps)
    → InOrder (insert_candidate a ps)
    → InOrder (b ∷ insert_candidate a ps)
unfolding insert_candidate
insert_candidate-InOrder b a [] h k l = (goes_before-asym a b h, tt)
insert_candidate-InOrder b a (c ∷ ps) h (k, k') l = elim (Bool-cases (goes_before c a)) [
  | inl e ↦ rw e (k, rw e at l)
  | inr e ↦ rw e (goes_before-asym a b h, rw e at l)
]

InOrder-tail : (b : ℕ × ℕ) (ps : List (ℕ × ℕ)) → InOrder (b ∷ ps) → InOrder ps
InOrder-tail b [] h = tt
InOrder-tail b (a ∷ ps) h = h.1

inserted-InOrder : (a : ℕ × ℕ) (ps : List (ℕ × ℕ)) → InOrder ps → InOrder (insert_candidate a ps)
unfolding insert_candidate
inserted-InOrder a [] h = tt
inserted-InOrder a (b ∷ ps) h = elim (Bool-cases (goes_before b a)) [
  | inl e ↦ rw e (insert_candidate-InOrder b a ps e h (inserted-InOrder a ps (InOrder-tail b ps h)))
  | inr e ↦ rw e (e, h)
]

sort_candidates-InOrder : (ps : List (ℕ × ℕ)) → InOrder (sort_candidates ps)
unfolding sort_candidates
sort_candidates-InOrder [] = tt
sort_candidates-InOrder (a ∷ ps) =
    inserted-InOrder a (sort_candidates ps) (sort_candidates-InOrder ps)

count-insert_candidate :
    (i : ℕ) (a : ℕ × ℕ) (ps : List (ℕ × ℕ))
    → count i (map (λ p. p.0) (insert_candidate a ps)) ≡ count i (a.0 ∷ map (λ p. p.0) ps)
unfolding insert_candidate
count-insert_candidate i a [] = refl
count-insert_candidate i a (b ∷ ps) = elim (Bool-cases (goes_before b a)) [
  | inl e ↦ rw e (omega (arith, count-insert_candidate i a ps))
  | inr e ↦ rw e refl
]

count-sort_candidates :
    (i : ℕ) (ps : List (ℕ × ℕ))
    → count i (map (λ p. p.0) (sort_candidates ps)) ≡ count i (map (λ p. p.0) ps)
unfolding sort_candidates
count-sort_candidates i [] = refl
count-sort_candidates i (a ∷ ps) =
    count-insert_candidate i a (sort_candidates ps)
    ∙ ap (λ n. (if i == a.0 then 1 else 0) + n) (count-sort_candidates i ps)

insert_candidate-All :
    (P : ℕ × ℕ → Type 0) (a : ℕ × ℕ) (ps : List (ℕ × ℕ))
    → P a
    → All P ps
    → All P (insert_candidate a ps)
unfolding insert_candidate
insert_candidate-All P a [] p h = (p, tt)
insert_candidate-All P a (b ∷ ps) p (q, h) = elim (Bool-cases (goes_before b a)) [
  | inl e ↦ rw e (q, insert_candidate-All P a ps p h)
  | inr e ↦ rw e (p, (q, h))
]

sort_candidates-All :
    (P : ℕ × ℕ → Type 0) (ps : List (ℕ × ℕ)) → All P ps → All P (sort_candidates ps)
unfolding sort_candidates
sort_candidates-All P [] h = tt
sort_candidates-All P (a ∷ ps) (p, h) =
    insert_candidate-All P a (sort_candidates ps) p (sort_candidates-All P ps h)

All-map :
    (P Q : ℕ × ℕ → Type 0) → ((p : ℕ × ℕ) → P p → Q p) → (ps : List (ℕ × ℕ)) → All P ps → All Q ps
All-map P Q f [] h = tt
All-map P Q f (p ∷ ps) (h, k) = (f p h, All-map P Q f ps k)

module _ (c : TextClass) (terms : List Bytes) where
  -- The score of the entry at an index.
  abbrev pub score_at : List CatalogEntry → ℕ → ℕ
  score_at entries i = elim (get_elem? entries i) [ none ↦ 0 | some e ↦ score c e terms ]

  -- One for an index whose entry a search finds: any if the query has no term.
  abbrev pub found_at : List CatalogEntry → ℕ → ℕ
  found_at entries i = elim (get_elem? entries i) [
    | none ↦ 0
    | some e ↦ if ltb 0 (length terms) && score c e terms == 0 then 0 else 1
  ]

  -- Each index that is found stands in the list once, the better ones and, among equals, the
  -- earlier ones first.
  abbrev pub IsRanked : List CatalogEntry → List ℕ → Type 0
  IsRanked entries [] = Unit
  IsRanked entries (i ∷ []) = Unit
  IsRanked entries (i ∷ j ∷ ranked) =
      ((score_at entries j < score_at entries i)
        ⊎ ((score_at entries j ≡ score_at entries i) × (i ≤ j)))
      × IsRanked entries (j ∷ ranked)

  abbrev skipped : CatalogEntry → Bool
  skipped e = ltb 0 (length terms) && score c e terms == 0

  count-candidates :
      (i k : ℕ) (entries : List CatalogEntry)
      → count i (map (λ p. p.0) (candidates c k entries terms))
        ≡ (if leb k i then found_at entries (i - k) else 0)
  unfolding candidates
  count-candidates i k [] = ground arith
  count-candidates i k (e ∷ entries) =
      let later = count-candidates i (k + 1) entries in
      elim (Bool-cases (ltb k i)) [
        | inl a ↦
            let s : i - k ≡ suc (i - (k + 1)) = ground (arith, a) in
            let reached : leb (k + 1) i ≡ true = ground (arith, a) in
            let same = rw reached at later in
            let here : leb k i ≡ true = ground (arith, a) in
            let other : (i == k) ≡ false = ground (arith, a) in
            elim (Bool-cases (skipped e)) [
              | inl q ↦ rw (q, s, here) same
              | inr q ↦ rw (q, s, here, other) (omega (arith, same))
            ]
        | inr a ↦
            let beyond : leb (k + 1) i ≡ false = ground (arith, a) in
            let same = rw beyond at later in
            elim (Bool-cases (i == k)) [
              | inl b ↦
                  let s : i - k ≡ 0 = ground (arith, b) in
                  let here : leb k i ≡ true = ground (arith, b) in
                  elim (Bool-cases (skipped e)) [
                    | inl q ↦ rw (q, s, here, q) same
                    | inr q ↦ rw (q, s, here, b, q) (omega (arith, same))
                  ]
              | inr b ↦
                  let here : leb k i ≡ false = ground (arith, a, b) in
                  elim (Bool-cases (skipped e)) [
                    | inl q ↦ rw (q, here) same
                    | inr q ↦ rw (q, here, b) (omega (arith, same))
                  ]
            ]
      ]

  candidates-scored :
      (k : ℕ) (entries : List CatalogEntry)
      → All (λ p. (k ≤ p.0) × (p.1 ≡ score_at entries (p.0 - k))) (candidates c k entries terms)
  unfolding candidates
  candidates-scored k [] = tt
  candidates-scored k (e ∷ entries) =
      let later =
        All-map (λ p. (k + 1 ≤ p.0) × (p.1 ≡ score_at entries (p.0 - (k + 1))))
          (λ p. (k ≤ p.0) × (p.1 ≡ score_at (e ∷ entries) (p.0 - k)))
          (λ p h.
            let s : suc (p.0 - (k + 1)) ≡ p.0 - k = omega (arith, h.0) in
            (omega (arith, h.0), h.1 ∙ ap (score_at (e ∷ entries)) s))
          (candidates c (k + 1) entries terms) (candidates-scored (k + 1) entries) in
      let first : 0 ≡ k - k = omega arith in
      elim (Bool-cases (skipped e)) [
        | inl q ↦ rw q later
        | inr q ↦ rw q ((omega arith, ap (score_at (e ∷ entries)) first), later)
      ]

  goes_before-ranks :
      (i m j n : ℕ) → goes_before (j, n) (i, m) ≡ false → (n < m) ⊎ ((n ≡ m) × (i ≤ j))
  goes_before-ranks i m j n h = ground (arith, h)

  ordered :
      (entries : List CatalogEntry) (ps : List (ℕ × ℕ))
      → InOrder ps
      → All (λ p. p.1 ≡ score_at entries p.0) ps
      → IsRanked entries (map (λ p. p.0) ps)
  ordered entries [] h k = tt
  ordered entries (a ∷ []) h k = tt
  ordered entries (a ∷ b ∷ ps) (h, h') (p, (q, k)) =
      (rw (← p, ← q) (goes_before-ranks a.0 a.1 b.0 b.1 h), ordered entries (b ∷ ps) h' (q, k))

-- A search ranks each entry that it finds once, the higher scores first and, among equal scores, the
-- earlier entries of the catalog first. It finds the entries that some term of the query scores at, and all of them for a query that
-- has no term.
pub rank-IsRanked :
    (c : TextClass) (entries : List CatalogEntry) (query : Bytes)
    → IsRanked c (catalog_query_terms c query) entries (rank c entries query)
      × ((i : ℕ)
          → count i (rank c entries query) ≡ found_at c (catalog_query_terms c query) entries i)
unfolding rank
rank-IsRanked c entries query =
    let terms = catalog_query_terms c query in
    let found = candidates c 0 entries terms in
    let scored =
      All-map (λ p. (0 ≤ p.0) × (p.1 ≡ score_at c terms entries (p.0 - 0)))
        (λ p. p.1 ≡ score_at c terms entries p.0)
        (λ p h. let s : p.0 - 0 ≡ p.0 = omega arith in h.1 ∙ ap (score_at c terms entries) s) found
        (candidates-scored c terms 0 entries) in
    (
      ordered c terms entries (sort_candidates found) (sort_candidates-InOrder found)
          (sort_candidates-All (λ p. p.1 ≡ score_at c terms entries p.0) found scored),
      λ i.
          let s : i - 0 ≡ i = omega arith in
          let reached : leb 0 i ≡ true = ground arith in
          count-sort_candidates i found
          ∙ count-candidates c terms i 0 entries
          ∙ rw reached (ap (found_at c terms entries) s),
    )
