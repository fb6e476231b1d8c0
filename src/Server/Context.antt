-- ===== src/Server/Context.antt =====
-- server/context.go: what a request is answered from, with the lookups that handlers make.
-- The primitives are seen as far as the server itself reads them: a resource by its uri or
-- template, and by the cache hint that it declares, if any.
use velocity_mcp.Base.{
  Bool, List, Option, [], false, if◌then◌else◌, ltb, none, not, some, ◌&&◌, ◌==◌, ◌∷◌,
}
use velocity_mcp.Bytes.{Bytes, equal}
use velocity_mcp.Assoc.{Assoc}
use velocity_mcp.Json.Number.{Int64, negative, non_negative}
use velocity_mcp.Server.UriTemplate.{match_uri_template}

pub data CacheScope : Type 0 where
  private public : CacheScope

-- A time to live in nanoseconds, which may be negative, and a scope.
pub record CacheHint : Type 0 where
  pub ttl : Int64
  pub scope : CacheScope

pub record Resource : Type 0 where
  pub uri : Bytes
  pub hint : Option CacheHint

pub record Context : Type 0 where
  -- `Implementation().ToMap()` and the capabilities, as JSON.
  pub server_info : Bytes
  pub capabilities : Bytes
  pub instructions : Bytes
  pub versions : List Bytes
  pub resources : List Resource
  -- A template is a resource whose uri is a template.
  pub templates : List Resource
  pub max_page_size : Int64
  pub default_page_size : Int64
  pub cache_hint : Option CacheHint
  pub method_cache_hints : Assoc CacheHint
  pub session_id : Bytes
  pub negotiated : Bytes

abbrev pub set_negotiated_version : Bytes → Context → Context
set_negotiated_version v c = record c { negotiated = v }

unfoldable pub find_resource : List Resource → Bytes → Option Resource
find_resource [] uri = none
find_resource (r ∷ rs) uri = if equal r.uri uri then some r else find_resource rs uri

-- The first template that is the uri itself or matches it, with the variables.
unfoldable pub find_template : List Resource → Bytes → Option (Resource × Assoc Bytes)
find_template [] uri = none
find_template (t ∷ ts) uri =
    if equal t.uri uri then some (t, []) else elim (match_uri_template t.uri uri) [
      | some vars ↦ some (t, vars)
      | none ↦ find_template ts uri
    ]

unfoldable pub resolve_resource : Context → Bytes → Option (Resource × Assoc Bytes)
resolve_resource c uri = if equal uri [] then none else elim (find_resource c.resources uri) [
  | some r ↦ some (r, [])
  | none ↦ find_template c.templates uri
]

-- `a < b` on `int`.
unfoldable pub less_int : Int64 → Int64 → Bool
less_int (non_negative a) (non_negative b) = ltb a b
less_int (non_negative a) (negative b) = false
less_int (negative a) (non_negative b) = not (a == 0 && b == 0)
less_int (negative a) (negative b) = ltb b a

unfoldable pub per_page : Context → Option Int64 → Int64
unfolding less_int
per_page c requested =
    let size : Int64 = elim requested [ none ↦ c.default_page_size | some n ↦ n ] in
    if less_int c.max_page_size size then c.max_page_size else size
