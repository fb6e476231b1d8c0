-- ===== src/Server/UriTemplate.antt =====
-- server/uritemplate.go: matching a uri against a template with `{name}` placeholders.
pub mod Parsing
pub mod Filling
pub mod Matching
pub mod Tests
use velocity_mcp.Base.{
  List, Option, [], drop, if◌then◌else◌, length, none, not, some, suc, take, zero, ℕ, ◌+◌, ◌==◌,
  ◌∷◌,
}
use velocity_mcp.Bytes.{Bytes, codes, contains_byte, equal, has_prefix, index, last_index, slice}
use velocity_mcp.Assoc.{Assoc, insert}

abbrev pub open_brace : Bytes
open_brace = codes "{"

abbrev pub close_brace : Bytes
close_brace = codes "}"

-- The loop of `parseTemplate` on what is left of the template; each round takes a placeholder,
-- so the length of the template bounds the rounds.
unfoldable pub parse_from : ℕ → Bytes → List Bytes × List Bytes
parse_from zero rest = (rest ∷ [], [])
parse_from (suc f) rest = elim (index rest open_brace) [
  | none ↦ (rest ∷ [], [])
  | some open' ↦ elim (index (drop open' rest) close_brace) [
    | none ↦ (rest ∷ [], [])
    | some c ↦
        let r = parse_from f (drop (c + open' + 1) rest) in
        (take open' rest ∷ r.0, slice rest (open' + 1) (c + open') ∷ r.1)
  ]
]

unfoldable pub parse_template : Bytes → List Bytes × List Bytes
unfolding parse_from
parse_template template = parse_from (suc (length template)) template

-- `literals[i]`; the source indexes within bounds.
abbrev pub head_or_empty : List Bytes → Bytes
head_or_empty [] = []
head_or_empty (l ∷ ls) = l

-- The last placeholder, whose value may hold slashes.
unfoldable pub match_last : Bytes → Bytes → Bytes → Assoc Bytes → Option (Assoc Bytes)
match_last name next_literal rest vars =
    if not (equal next_literal [])
    then elim (last_index rest next_literal) [
      | none ↦ none
      | some idx ↦
          if not (idx + length next_literal == length rest)
          then none
          else if equal (take idx rest) []
          then none
          else some (insert name (take idx rest) vars)
    ]
    else if equal rest []
    then none
    else some (insert name rest vars)

-- The loop over the placeholders; `rest` is `uri[pos:]`.
unfoldable pub match_names : List Bytes → List Bytes → Bytes → Assoc Bytes → Option (Assoc Bytes)
match_names literals [] rest vars = some vars
match_names literals (name ∷ []) rest vars = match_last name (head_or_empty literals) rest vars
match_names literals (name ∷ next ∷ names) rest vars = elim (index rest (head_or_empty literals)) [
  | none ↦ none
  | some idx ↦
      if idx == 0
      then none
      else if contains_byte (take idx rest) b'/'
      then none
      else match_names (drop 1 literals) (next ∷ names)
          (drop (idx + length (head_or_empty literals)) rest) (insert name (take idx rest) vars)
]

unfoldable pub match_parsed : List Bytes → List Bytes → Bytes → Option (Assoc Bytes)
match_parsed literals names uri =
    if not (has_prefix uri (head_or_empty literals))
    then none
    else match_names (drop 1 literals) names (drop (length (head_or_empty literals)) uri) []

unfoldable pub match_uri_template : Bytes → Bytes → Option (Assoc Bytes)
match_uri_template template uri =
    let parsed = parse_template template in
    if length parsed.1 == 0
    then (if equal template uri then some [] else none)
    else match_parsed parsed.0 parsed.1 uri
