-- ===== src/Server/Catalog/Terms.antt =====
-- server/tool_catalog.go: the search terms of a text. The case folding of the framework and the
-- classes of letters and numbers are parameters; a character is given by its bytes.
use velocity_mcp.Base.{Bool, List, [], any, if◌then◌else◌, length, ltb, take, ℕ, ◌++◌, ◌∷◌}
use velocity_mcp.Bytes.{Bytes, equal}
use velocity_mcp.Server.Catalog.Fit.{runes}

abbrev pub max_catalog_query_terms : ℕ
max_catalog_query_terms = 32

-- What a search asks of the framework and of `unicode`.
pub record TextClass : Type 0 where
  pub lower : Bytes → Bytes
  pub contains : Bytes → Bytes → Bool
  pub is_letter_or_number : Bytes → Bool

abbrev flushed : Bytes → List Bytes → List Bytes
flushed [] terms = terms
flushed (c ∷ term) terms = (c ∷ term) ∷ terms

-- `strings.FieldsFunc`, behind what it has of a term. A byte that begins no character is none of
-- a letter, so that no term holds one.
unfoldable pub fields : (Bytes → Bool) → Bytes → List Bytes → List Bytes
fields in_term term [] = flushed term []
fields in_term term (r ∷ rs) =
    let longer = fields in_term (term ++ r) rs in
    let next = flushed term (fields in_term [] rs) in if in_term r then longer else next

unfoldable pub catalog_terms : TextClass → Bytes → List Bytes
unfolding fields runes
catalog_terms c text = fields c.is_letter_or_number [] (runes (c.lower text))

unfoldable pub has_term : List Bytes → Bytes → Bool
unfolding equal
has_term seen t = any (λ s. equal s t) seen

-- The loop of `catalogDistinctTerms`, behind the terms seen.
unfoldable pub distinct_from : List Bytes → List Bytes → List Bytes
unfolding has_term
distinct_from seen [] = []
distinct_from seen (t ∷ terms) =
    let known = distinct_from seen terms in
    let new = t ∷ distinct_from (t ∷ seen) terms in if has_term seen t then known else new

unfoldable pub catalog_distinct_terms : TextClass → Bytes → List Bytes
unfolding catalog_terms distinct_from
catalog_distinct_terms c text = distinct_from [] (catalog_terms c text)

unfoldable pub catalog_query_terms : TextClass → Bytes → List Bytes
unfolding catalog_distinct_terms
catalog_query_terms c query =
    let terms = catalog_distinct_terms c query in
    if ltb max_catalog_query_terms (length terms) then take max_catalog_query_terms terms else terms
