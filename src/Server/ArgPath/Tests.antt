-- ===== src/Server/ArgPath/Tests.antt =====
-- Paths at concrete inputs.
use velocity_mcp.Base.{[], false, none, refl, some, ◌≡◌}
use velocity_mcp.Bytes.{codes, equal}
use velocity_mcp.Json.{
  Json, Members, arr, cons, end, find, items, member, nil, null, obj, str, to_items,
}
use velocity_mcp.Json.Number.{decimal, decimal_from}
use velocity_mcp.Server.ArgPath.{
  collapse, collect, cut, elements, engine_parts, engine_value, has_wildcard_from,
  has_wildcard_segment, is_star, lookup_argument, named_member, resolve_from, resolve_path,
  slice_index, split,
}
use velocity_mcp.Server.ArgPath.Walk.{lookup_argument-engine_value, resolve_path-walk, walk}

abbrev user : Members
user = member (codes "id") (str (codes "42")) end

abbrev users : Json
users = arr (cons (obj user) (cons null nil))

abbrev test_args : Members
test_args = member (codes "users") users (member (codes "user") (obj user) end)

-- Opens the walk.
walker : Unit {0}
unfolding resolve_path resolve_from cut collect elements items to_items has_wildcard_segment
    has_wildcard_from is_star named_member slice_index find equal decimal decimal_from collapse
    split engine_value engine_parts lookup_argument
walker = tt

resolves :
    (resolve_path (obj test_args) (codes "users.*.id")
      ≡ some (arr (cons (str (codes "42")) (cons null nil))))
    × (resolve_path (obj test_args) (codes "users.1") ≡ some null)
    × (resolve_path (obj test_args) (codes "users.01") ≡ none)
unfolding walker
resolves = (refl, refl, refl)

resolve_path-walk_example :
    resolve_path (obj test_args) (codes "users.*.id")
    ≡ walk (obj test_args) (split (codes "users.*.id"))
resolve_path-walk_example = resolve_path-walk (obj test_args) (codes "users.*.id")

plain_field : has_wildcard_segment (codes "user.id") ≡ false
unfolding walker
plain_field = refl

engine_finds : engine_value test_args (codes "user.id") ≡ some (str (codes "42"))
unfolding walker
engine_finds = refl

lookup_argument-engine_value_example :
    lookup_argument (record { args = some test_args; uri_vars = [] }) (codes "user.id")
    ≡ some (str (codes "42"))
lookup_argument-engine_value_example =
    lookup_argument-engine_value test_args [] (codes "user.id") (str (codes "42")) refl plain_field
      engine_finds
