-- ===== src/Server/Catalog/Registry.antt =====
-- server/tool_catalog.go and WithTools of server/options.go: how options fill the catalog, and the
-- checks of the tool names behind them. A tool is seen by its name.
pub mod Filled
pub mod Names
pub mod Tests
use velocity_mcp.Base.{
  Bool, List, Option, [], false, if◌then◌else◌, length, ltb, map, none, not, some, true, ℤ, ◌&&◌,
  ◌++◌, ◌∷◌,
}
use velocity_mcp.Bytes.{Bytes, codes}
use velocity_mcp.Server.Catalog.Limits.{
  Limits, catalog_limits, default_catalog_max_output_bytes, default_catalog_max_tool_calls,
}
use velocity_mcp.Server.Catalog.Terms.{has_term}

abbrev pub catalog_search_tool_name : Bytes
catalog_search_tool_name = codes "search_tools"

abbrev pub catalog_execute_tool_name : Bytes
catalog_execute_tool_name = codes "execute_tools"

-- A tool of an application, or one of the two meta tools.
pub data ServerTool : Type 0 where
  own : Bytes → ServerTool
  search_tool execute_tool : ServerTool

abbrev pub name_of_tool : ServerTool → Bytes
name_of_tool (own name) = name
name_of_tool search_tool = catalog_search_tool_name
name_of_tool execute_tool = catalog_execute_tool_name

-- `requestedLimits` is what the last WithToolCatalogLimits was given.
pub record ToolCatalog : Type 0 where
  pub tools : List Bytes
  pub limits : Limits
  pub requested : Option (ℤ × ℤ)
  pub installed : Bool
  pub dup_err : Bytes
  pub config_err : Bytes

pub record Registry : Type 0 where
  pub tools : List ServerTool
  pub catalog : Option ToolCatalog

abbrev pub new_tool_catalog : ToolCatalog
new_tool_catalog = record {
  tools = [];
  limits = record {
    max_tool_calls = default_catalog_max_tool_calls;
    max_output_bytes = default_catalog_max_output_bytes;
  };
  requested = none;
  installed = false;
  dup_err = [];
  config_err = [];
}

abbrev pub new_registry : Registry
new_registry = record { tools = []; catalog = none }

abbrev pub catalog_or_new : Option ToolCatalog → ToolCatalog
catalog_or_new none = new_tool_catalog
catalog_or_new (some c) = c

abbrev pub catalog_for : Registry → ToolCatalog
catalog_for s = catalog_or_new s.catalog

-- The arguments that are not nil.
unfoldable pub present : List (Option Bytes) → List Bytes
present [] = []
present (none ∷ tools) = present tools
present (some t ∷ tools) = t ∷ present tools

pub data ToolOption : Type 0 where
  with_tools : List (Option Bytes) → ToolOption
  with_tool_catalog : List (Option Bytes) → ToolOption
  with_tool_catalog_limits : ℤ → ℤ → ToolOption

-- The body of `WithToolCatalog` on the catalog of the server.
unfoldable pub add_to_catalog : Registry → ToolCatalog → List Bytes → Registry
add_to_catalog s c tools =
    let filled = record c { tools = c.tools ++ tools } in
    if ltb 0 (length (c.tools ++ tools)) && not c.installed
    then record {
      tools = s.tools ++ search_tool ∷ execute_tool ∷ [];
      catalog = some (record filled { installed = true });
    }
    else record { tools = s.tools; catalog = some filled }

unfoldable pub apply : Registry → ToolOption → Registry
apply s (with_tools tools) = record s { tools = s.tools ++ map own (present tools) }
apply s (with_tool_catalog tools) = add_to_catalog s (catalog_for s) (present tools)
apply s (with_tool_catalog_limits calls bytes) = record s {
  catalog = some (record (catalog_for s) {
    limits = catalog_limits calls bytes;
    requested = some (calls, bytes);
  });
}

-- The options of `New`, in their order.
unfoldable pub apply_all : Registry → List ToolOption → Registry
unfolding apply
apply_all s [] = s
apply_all s (opt ∷ opts) = apply_all (apply s opt) opts

-- The first name that was seen before.
unfoldable pub first_repeat : List Bytes → List Bytes → Option Bytes
unfolding has_term
first_repeat seen [] = none
first_repeat seen (name ∷ names) =
    let later = first_repeat (name ∷ seen) names in if has_term seen name then some name else later

-- The second loop of `finalizeToolCatalog`: the first name of the catalog that was seen before;
-- a name that the catalog repeats is passed over.
unfoldable pub first_collision : List Bytes → List Bytes → List Bytes → Option Bytes
unfolding has_term
first_collision in_catalog seen [] = none
first_collision in_catalog seen (name ∷ names) =
    let repeated = first_collision in_catalog seen names in
    let later = first_collision (name ∷ in_catalog) (name ∷ seen) names in
    if has_term in_catalog name then repeated else if has_term seen name then some name else later

abbrev pub or_else : Option Bytes → Option Bytes → Option Bytes
or_else none later = later
or_else (some name) later = some name

-- The name that two tools of the server share, if any.
unfoldable pub shared_name : List Bytes → List Bytes → Option Bytes
shared_name server_names catalog_names =
    or_else (first_repeat [] server_names) (first_collision [] server_names catalog_names)

abbrev pub duplicate_error : Bytes → Option Bytes → Bytes → Bytes
duplicate_error before none behind = []
duplicate_error before (some name) behind = before ++ (name ++ behind)

-- `finalizeToolCatalog`, with the check that `prepare` makes.
unfoldable pub finalize_tool_catalog : Registry → Registry
finalize_tool_catalog s = elim s.catalog [
  | none ↦ s
  | some c ↦ if not c.installed then s else record s {
    catalog = some (record c {
      dup_err =
          duplicate_error (codes "Duplicate tool name [") (first_repeat [] c.tools)
            (codes "] in the tool catalog.");
      config_err =
          duplicate_error (codes "Duplicate server tool name [")
            (shared_name (map name_of_tool s.tools) c.tools) (codes "].");
    });
  }
]
