-- ===== src/Server/Catalog/Search.antt =====
-- server/tool_catalog.go: the search of the catalog.
pub mod Ranked
pub mod Found
use velocity_mcp.Base.{
  Bool, List, Option, [], false, get_elem?, if◌then◌else◌, is_some, leb, length, ltb, map, none,
  some, suc, take, true, zero, ℕ, ◌&&◌, ◌++◌, ◌+◌, ◌==◌, ◌>>=◌, ◌∷◌,
}
use velocity_mcp.Bytes.{Bytes, codes, equal}
use velocity_mcp.Json.{Members, obj}
use velocity_mcp.Json.Encode.{quote_text}
use velocity_mcp.Json.Marshal.{array_text, boolean, marshal}
use velocity_mcp.Server.Catalog.Limits.{catalog_kind_output_limit, limit_message}
use velocity_mcp.Server.Catalog.Reply.{Response, catalog_reply_size, text_response}
use velocity_mcp.Server.Catalog.Batch.{is_empty}
use velocity_mcp.Server.Catalog.Terms.{TextClass, catalog_distinct_terms, catalog_query_terms}

-- A tool as a search result describes it; a schema or annotations that are left out are empty.
pub record CatalogToolPayload : Type 0 where
  pub name : Bytes
  pub title : Bytes
  pub description : Bytes
  pub input_schema : Members
  pub output_schema : Members
  pub annotations : Members

-- A member of an object that is left out if it is empty, behind a comma.
abbrev optional_text : Bool → Bytes → Members → Option Bytes
unfolding quote_text
optional_text html key ms =
    if is_empty ms
    then some []
    else (marshal html (obj ms) >>= λ s. some (b',' ∷ (quote_text html key ++ b':' ∷ s)))

-- A payload as JSON: the members of a struct in their order.
unfoldable pub payload_text : Bool → CatalogToolPayload → Option Bytes
unfolding quote_text marshal optional_text
payload_text html p = do
  schema ← marshal html (obj p.input_schema)
  output ← optional_text html (codes "outputSchema") p.output_schema
  annotations ← optional_text html (codes "annotations") p.annotations
  some (
      codes "{\"name\":"
      ++ (quote_text html p.name
          ++ (codes ",\"title\":"
              ++ (quote_text html p.title
                  ++ (codes ",\"description\":"
                      ++ (quote_text html p.description
                          ++ (codes ",\"inputSchema\":"
                              ++ (schema ++ (output ++ (annotations ++ codes "}"))))))))))

pub record CatalogEntry : Type 0 where
  pub payload : CatalogToolPayload
  pub size : ℕ
  pub name : Bytes
  pub title : Bytes
  pub description : Bytes
  pub schema_text : Bytes
  pub name_terms : List Bytes

abbrev text_or_empty : Option Bytes → Bytes
text_or_empty none = []
text_or_empty (some s) = s

-- The body of the second loop of `prepare`, and whether the entry could be encoded.
unfoldable pub prepare_entry : TextClass → CatalogToolPayload → CatalogEntry × Bool
unfolding payload_text marshal catalog_distinct_terms
prepare_entry c p =
    let schema = marshal false (obj p.input_schema) in
    let wire = payload_text true p in
    (
      record {
        payload = p;
        size = length (text_or_empty wire);
        name = c.lower p.name;
        title = c.lower p.title;
        description = c.lower p.description;
        schema_text = c.lower (text_or_empty schema);
        name_terms = catalog_distinct_terms c p.name;
      },
      is_some schema && is_some wire,
    )

unfoldable pub equal_terms : List Bytes → List Bytes → Bool
unfolding equal
equal_terms [] [] = true
equal_terms (s ∷ ss) (t ∷ ts) = equal s t && equal_terms ss ts
equal_terms _ _ = false

module _ (c : TextClass) where
  -- What one term adds to the score of an entry.
  abbrev term_score : CatalogEntry → Bytes → ℕ
  term_score e term =
      (if c.contains e.name term then 4 else 0)
      + (if c.contains e.title term then 3 else 0)
      + (if c.contains e.description term then 2 else 0)
      + (if c.contains e.schema_text term then 1 else 0)

  unfoldable pub term_scores : CatalogEntry → List Bytes → ℕ
  term_scores e [] = 0
  term_scores e (t ∷ terms) = term_score e t + term_scores e terms

  unfoldable pub score : CatalogEntry → List Bytes → ℕ
  unfolding term_scores equal_terms
  score e terms =
      (if ltb 0 (length terms) && equal_terms terms e.name_terms then 8 else 0)
      + term_scores e terms

  -- The candidates from the entry at an index on, each an index and a score.
  unfoldable pub candidates : ℕ → List CatalogEntry → List Bytes → List (ℕ × ℕ)
  unfolding score
  candidates i [] terms = []
  candidates i (e ∷ entries) terms =
      let later = candidates (i + 1) entries terms in
      if ltb 0 (length terms) && score e terms == 0 then later else (i, score e terms) ∷ later

-- The order of the sort.
abbrev pub goes_before : ℕ × ℕ → ℕ × ℕ → Bool
goes_before a b = if a.1 == b.1 then ltb a.0 b.0 else ltb b.1 a.1

unfoldable pub insert_candidate : ℕ × ℕ → List (ℕ × ℕ) → List (ℕ × ℕ)
insert_candidate a [] = a ∷ []
insert_candidate a (b ∷ bs) = if goes_before b a then b ∷ insert_candidate a bs else a ∷ b ∷ bs

-- `sort.SliceStable` by that order.
unfoldable pub sort_candidates : List (ℕ × ℕ) → List (ℕ × ℕ)
unfolding insert_candidate
sort_candidates [] = []
sort_candidates (a ∷ ps) = insert_candidate a (sort_candidates ps)

unfoldable pub rank : TextClass → List CatalogEntry → Bytes → List ℕ
unfolding candidates sort_candidates catalog_query_terms
rank c entries query =
    map (λ a. a.0) (sort_candidates (candidates c 0 entries (catalog_query_terms c query)))

-- The payloads of entries, by their indexes; `rank` yields no other.
unfoldable pub payloads : List CatalogEntry → List ℕ → List CatalogToolPayload
payloads entries [] = []
payloads entries (i ∷ indexes) = elim (get_elem? entries i) [
  | none ↦ payloads entries indexes
  | some e ↦ e.payload ∷ payloads entries indexes
]

unfoldable pub payload_texts : List CatalogToolPayload → Option (List Bytes)
unfolding payload_text
payload_texts [] = some []
payload_texts (p ∷ ps) = do x ← payload_text false p; xs ← payload_texts ps; some (x ∷ xs)

-- The text of a search result.
unfoldable pub search_output : List CatalogToolPayload → Bool → Option Bytes
unfolding payload_texts
search_output tools has_more = do
  texts ← payload_texts tools
  some (
      codes "{\"ok\":true,\"tools\":"
      ++ (array_text texts ++ (codes ",\"hasMore\":" ++ (boolean has_more ++ codes "}"))))

-- `catalogTextReply` of a text that was encoded.
unfoldable pub text_reply : Bytes → Bool → Option (Response × ℕ)
unfolding catalog_reply_size
text_reply s is_error =
    let resp = record (text_response s) { is_error = is_error } in
    catalog_reply_size resp >>= λ n. some (resp, n)

-- The size of the entry at an index.
abbrev pub entry_size : List CatalogEntry → ℕ → ℕ
entry_size entries i = elim (get_elem? entries i) [ none ↦ 0 | some e ↦ e.size ]

module _ (max_output_bytes : ℕ) (entries : List CatalogEntry) where
  -- The first loop of `search`: how many entries may fit, by their own sizes.
  unfoldable pub fitting_from : ℕ → ℕ → List ℕ → ℕ
  fitting_from limit lower [] = 0
  fitting_from zero lower (i ∷ ranked) = 0
  fitting_from (suc limit) lower (i ∷ ranked) =
      let total = lower + entry_size entries i in
      let more = suc (fitting_from limit total ranked) in
      if ltb max_output_bytes total then 0 else more

  -- The reply that carries so many of the ranked entries.
  unfoldable pub search_reply : List ℕ → ℕ → Option (Response × ℕ)
  search_reply ranked n =
      search_output (payloads entries (take n ranked)) (ltb n (length ranked)) >>= λ s.
      text_reply s false

  unfoldable pub search_limit_exceeded : Option Response
  search_limit_exceeded =
      text_reply
        (codes "{\"ok\":false,\"error\":{\"kind\":"
          ++ (quote_text false catalog_kind_output_limit
              ++ (codes ",\"message\":"
                  ++ (quote_text false (limit_message max_output_bytes) ++ codes "}}"))))
        true
      >>= λ r. some r.0

  -- The second loop of `search`, from so many entries down; `none` stands for an encoding error.
  unfoldable pub search_from : List ℕ → ℕ → Option Response
  search_from ranked zero =
      if ltb 0 (length ranked)
      then search_limit_exceeded
      else (search_reply ranked 0 >>= λ r.
          if leb r.1 max_output_bytes then some r.0 else search_limit_exceeded)
  search_from ranked (suc n) = search_reply ranked (suc n) >>= λ r.
      if leb r.1 max_output_bytes then some r.0 else search_from ranked n

  unfoldable pub search : TextClass → Bytes → ℕ → Option Response
  search c query limit =
      let ranked = rank c entries query in search_from ranked (fitting_from limit 0 ranked)
