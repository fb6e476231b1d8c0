-- ===== src/Server/ArgPath.antt =====
-- server/argpath.go: dotted paths into the arguments of a request, as they are decoded from JSON.
-- Containers that an application builds in Go, which the code reads by reflection, are left out.
pub mod Walk
pub mod Indices
pub mod Tests
use velocity_mcp.Base.{
  Bool, List, Option, [], all, any, false, get_elem?, if◌then◌else◌, is_some, leb, length, ltb, map,
  none, not, some, suc, true, zero, ℕ, ◌&&◌, ◌++◌, ◌==◌, ◌>>=◌, ◌^◌, ◌||◌, ◌∷◌,
}
use velocity_mcp.Bytes.{Bytes, codes, equal}
use velocity_mcp.Assoc.{Assoc}
use velocity_mcp.Json.{
  Json, Members, arr, bool, end, find, items, member, null, num, obj, str, to_items,
}
use velocity_mcp.Json.Number.{decimal, first_is}
use velocity_mcp.Json.Text.{is_digit}
use velocity_mcp.Json.Encode.{sort_keys}

-- `strings.Cut(s, ".")`.
pub record Cut : Type 0 where
  pub before : Bytes
  pub after : Bytes
  pub found : Bool

unfoldable pub cut : Bytes → Cut
cut [] = record { before = []; after = []; found = false }
cut (c ∷ s) =
    let r = cut s in
    if c == b'.'
    then record { before = []; after = s; found = true }
    else record { before = c ∷ r.before; after = r.after; found = r.found }

abbrev onto_first : ℕ → List Bytes → List Bytes
onto_first c [] = (c ∷ []) ∷ []
onto_first c (part ∷ parts) = (c ∷ part) ∷ parts

-- `strings.Split(s, ".")`.
unfoldable pub split : Bytes → List Bytes
split [] = [] ∷ []
split (c ∷ s) = let parts = split s in if c == b'.' then [] ∷ parts else onto_first c parts

unfoldable pub is_star : Bytes → Bool
unfolding equal
is_star segment = equal segment (codes "*")

-- The loop of `hasWildcardSegment`; the number bounds its turns.
unfoldable pub has_wildcard_from : ℕ → Bytes → Bool
has_wildcard_from zero path = false
has_wildcard_from (suc n) path =
    let c = cut path in
    let later = has_wildcard_from n c.after in
    if equal path [] then false else if is_star c.before then true else later

unfoldable pub has_wildcard_segment : Bytes → Bool
has_wildcard_segment path = has_wildcard_from (suc (length path)) path

-- A canonical decimal number below the length.
unfoldable pub slice_index : Bytes → ℕ → Option ℕ
slice_index segment n =
    if equal segment []
    then none
    else if ltb 1 (length segment) && first_is b'0' segment
    then none
    else if not (all is_digit segment)
    then none
    else if leb (2 ^ 63) (decimal segment) || leb n (decimal segment)
    then none
    else some (decimal segment)

-- `member`: a value of an object by its key, or of an array by its index.
unfoldable pub named_member : Json → Bytes → Option Json
named_member (obj ms) name = find name ms
named_member (arr vs) name = slice_index name (length (items vs)) >>= λ i. get_elem? (items vs) i
named_member null name = none
named_member (bool b) name = none
named_member (num token) name = none
named_member (str s) name = none

unfoldable pub entries : Members → Assoc Json
entries end = []
entries (member k v ms) = (k, v) ∷ entries ms

unfoldable pub elements : Json → Option (List Json)
elements (arr vs) = some (items vs)
elements (obj ms) = some (map (λ e. e.1) (sort_keys (entries ms)))
elements null = none
elements (bool b) = none
elements (num token) = none
elements (str s) = none

abbrev pub nested : Json → List Json
nested (arr vs) = items vs
nested null = []
nested (bool b) = []
nested (num token) = []
nested (str s) = []
nested (obj ms) = []

unfoldable pub collapse : List Json → List Json
collapse [] = []
collapse (v ∷ vs) = nested v ++ collapse vs

abbrev pub or_null : Option Json → Json
or_null none = null
or_null (some v) = v

-- `collect`, by the walk of the rest of the path from an element.
unfoldable pub collect : (Json → Bytes → Option Json) → Json → Bytes → Bool → Option Json
collect walk target rest more = elements target >>= λ elems.
    let out = map (λ e. if more then or_null (walk e rest) else e) elems in
    some (arr (to_items (if has_wildcard_segment rest then collapse out else out)))

abbrev pub step : (Json → Bytes → Option Json) → Cut → Option Json → Option Json
step walk c none = none
step walk c (some v) = if c.found then walk v c.after else some v

-- The loop of `resolvePath`; the number bounds its turns.
unfoldable pub resolve_from : ℕ → Json → Bytes → Option Json
resolve_from zero target path = none
resolve_from (suc n) target path =
    let c = cut path in
    if is_star c.before
    then collect (resolve_from n) target c.after c.found
    else step (resolve_from n) c (named_member target c.before)

unfoldable pub resolve_path : Json → Bytes → Option Json
resolve_path target path = resolve_from (suc (length path)) target path

abbrev pub object_members : Json → Option Members
object_members (obj ms) = some ms
object_members null = none
object_members (bool b) = none
object_members (num token) = none
object_members (str s) = none
object_members (arr vs) = none

-- The loop of `engineValue` over the parts of a field.
unfoldable pub engine_parts : Members → List Bytes → Option Json
engine_parts current [] = none
engine_parts current (part ∷ []) = find part current
engine_parts current (part ∷ next ∷ parts) =
    find part current >>= object_members >>= λ ms. engine_parts ms (next ∷ parts)

unfoldable pub engine_value : Members → Bytes → Option Json
engine_value args field = engine_parts args (split field)

-- The arguments of a request, which may be nil, and the names that a template bound.
pub record Arguments : Type 0 where
  pub args : Option Members
  pub uri_vars : List Bytes

unfoldable pub lookup_argument : Arguments → Bytes → Option Json
lookup_argument r key = r.args >>= λ args.
    if any (λ name. equal name key) r.uri_vars
    then find key args
    else elim (resolve_path (obj args) key) [ some v ↦ some v | none ↦ find key args ]

unfoldable pub has_argument : Arguments → Bytes → Bool
has_argument r key = is_some (lookup_argument r key)
