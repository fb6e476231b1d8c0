-- ===== src/Server/Caching.antt =====
-- server/caching.go: how long a result may be cached, and by whom.
use velocity_mcp.Base.{
  Bool, Option, [], if◌then◌else◌, length, ltb, none, not, some, ℕ, ◌++◌, ◌/◌, ◌==◌, ◌>>=◌, ◌||◌,
  ◌∷◌,
}
use velocity_mcp.Bytes.{Bytes, codes, equal}
use velocity_mcp.Assoc.{has, lookup}
use velocity_mcp.Json.Number.{negative, non_negative}
use velocity_mcp.Json.Decode.{RawMembers, or_empty, unmarshal_members, unmarshal_string}
use velocity_mcp.Json.Encode.{print_decimal}
use velocity_mcp.Jsonrpc.{Request}
use velocity_mcp.Jsonrpc.Parse.{raw}
use velocity_mcp.Server.Context.{CacheHint, CacheScope, Context, private, public, resolve_resource}

-- `CacheHint{}`: the empty scope reads as private.
abbrev pub zero_hint : CacheHint
zero_hint = record { ttl = non_negative 0; scope = private }

unfoldable pub ttl_ms : CacheHint → ℕ
ttl_ms h = elim h.ttl [ non_negative n ↦ if ltb n 1000000 then 0 else n / 1000000 | negative n ↦ 0 ]

unfoldable pub scope_name : CacheScope → Bytes
scope_name private = codes "private"
scope_name public = codes "public"

-- The raw members `ttlMs` and `cacheScope`.
unfoldable pub members : CacheHint → Bytes × Bytes
members h = (print_decimal (ttl_ms h), b'"' ∷ (scope_name h.scope ++ b'"' ∷ []))

unfoldable pub is_cacheable : Bytes → Bool
is_cacheable method =
    equal method (codes "server/discover")
    || equal method (codes "tools/list")
    || equal method (codes "prompts/list")
    || equal method (codes "resources/list")
    || equal method (codes "resources/templates/list")
    || equal method (codes "resources/read")

-- The params' members; none where they are no object.
unfoldable pub param_members : Bytes → RawMembers
param_members token =
    if length token == 0
    then []
    else elim (unmarshal_members token) [ none ↦ [] | some m ↦ or_empty m ]

unfoldable pub raw_string : Bytes → Bytes
raw_string token =
    if length token == 0 then [] else elim (unmarshal_string token) [ none ↦ [] | some s ↦ s ]

-- The hint that the resource which a read addresses declares.
unfoldable pub declared_hint : Context → Request → RawMembers → Option CacheHint
declared_hint c req ms =
    if equal req.method (codes "resources/read")
    then (resolve_resource c (raw_string (raw (codes "uri") ms)) >>= λ r. r.0.hint)
    else none

abbrev configured_hint : Context → Bytes → CacheHint
configured_hint c method = elim (lookup method c.method_cache_hints) [
  | some h ↦ h
  | none ↦ elim c.cache_hint [ some h ↦ h | none ↦ zero_hint ]
]

abbrev pub is_retry : RawMembers → Bool
is_retry ms = has (codes "inputResponses") ms || has (codes "requestState") ms

unfoldable pub cache_hint_for : Context → Request → Option CacheHint
cache_hint_for c req =
    let ms = param_members req.params in
    if not (is_cacheable req.method)
    then none
    else if is_retry ms
    then some zero_hint
    else elim (declared_hint c req ms) [
      | some h ↦ some h
      | none ↦ some (configured_hint c req.method)
    ]
