-- ===== src/Server/Catalog/Registry/Tests.antt =====
-- Registries at concrete inputs.
use velocity_mcp.Server.Catalog.Terms.{has_term}
use velocity_mcp.Base.{List, [], none, pos, refl, some, ◌∷◌, ◌≡◌}
use velocity_mcp.Bytes.{codes, equal}
use velocity_mcp.Server.Catalog.Registry.{
  ToolOption, add_to_catalog, apply, apply_all, execute_tool, finalize_tool_catalog,
  first_collision, first_repeat, new_registry, own, present, search_tool, shared_name,
  with_tool_catalog, with_tool_catalog_limits, with_tools,
}
use velocity_mcp.Server.Catalog.Registry.Filled.{IsFilled, apply_all-new_registry}
use velocity_mcp.Server.Catalog.Registry.Names.{IsReported, finalize_tool_catalog-IsReported}

-- A tool beside the catalog, limits out of range, and two tools of the catalog, one of them nil.
abbrev test_options : List ToolOption
test_options =
    with_tools (some (codes "a") ∷ [])
    ∷ with_tool_catalog_limits (pos 0) (pos 5000000)
    ∷ with_tool_catalog (none ∷ some (codes "b") ∷ [])
    ∷ with_tool_catalog (some (codes "c") ∷ [])
    ∷ []

apply_all-new_registry_example :
    IsFilled
      (apply_all new_registry test_options).tools
      (apply_all new_registry test_options).catalog
apply_all-new_registry_example = apply_all-new_registry test_options

apply_all-test_options :
    (apply_all new_registry test_options).tools ≡ own (codes "a") ∷ search_tool ∷ execute_tool ∷ []
unfolding apply_all apply add_to_catalog present
apply_all-test_options = refl

shared_name-test :
    shared_name (codes "a" ∷ codes "b" ∷ []) (codes "c" ∷ codes "b" ∷ []) ≡ some (codes "b")
unfolding shared_name first_repeat first_collision has_term equal
shared_name-test = refl

finalize_tool_catalog-IsReported_example :
    IsReported
      (apply_all new_registry test_options)
      (finalize_tool_catalog (apply_all new_registry test_options))
finalize_tool_catalog-IsReported_example =
    finalize_tool_catalog-IsReported (apply_all new_registry test_options)
