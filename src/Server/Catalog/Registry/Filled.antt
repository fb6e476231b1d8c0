-- ===== src/Server/Catalog/Registry/Filled.antt =====
-- What holds of a catalog, whatever options fill it.
use velocity_mcp.Base.{
  Bool-cases, List, Option, [], ap, append-nil, arith, false, if◌then◌else◌, inl, inr, length,
  length-append, ltb, map, negsuc, none, not, pos, refl, some, true, ℤ, ◌&&◌, ◌++◌, ◌∙◌, ◌∷◌, ◌≡◌,
  ◌≤◌,
}
use velocity_mcp.Bytes.{Bytes}
use velocity_mcp.Server.Catalog.Limits.{
  Limits, catalog_limits, max_catalog_max_output_bytes, max_catalog_max_tool_calls,
  min_catalog_max_output_bytes, min_catalog_max_tool_calls,
}
use velocity_mcp.Server.Catalog.Registry.{
  Registry, ServerTool, ToolCatalog, ToolOption, add_to_catalog, apply, apply_all, catalog_for,
  catalog_or_new, execute_tool, new_registry, own, present, search_tool, with_tool_catalog,
  with_tool_catalog_limits, with_tools,
}

-- The meta tools of a list.
abbrev pub metas : List ServerTool → List ServerTool
metas [] = []
metas (own name ∷ tools) = metas tools
metas (search_tool ∷ tools) = search_tool ∷ metas tools
metas (execute_tool ∷ tools) = execute_tool ∷ metas tools

pub record IsBounded (l : Limits) : Type 0 where
  pub some_calls : min_catalog_max_tool_calls ≤ l.max_tool_calls
  pub few_calls : l.max_tool_calls ≤ max_catalog_max_tool_calls
  pub some_bytes : min_catalog_max_output_bytes ≤ l.max_output_bytes
  pub few_bytes : l.max_output_bytes ≤ max_catalog_max_output_bytes

-- The meta tools are listed once each if the catalog has an entry, and not at all if it has none;
-- the limits lie between the floors and the ceilings.
abbrev pub IsFilled : List ServerTool → Option ToolCatalog → Type 0
IsFilled tools none = metas tools ≡ []
IsFilled tools (some c) =
    (metas tools ≡ (if ltb 0 (length c.tools) then search_tool ∷ execute_tool ∷ [] else []))
    × (c.installed ≡ ltb 0 (length c.tools))
    × IsBounded c.limits

metas-append : (xs ys : List ServerTool) → metas (xs ++ ys) ≡ metas xs ++ metas ys
metas-append [] ys = refl
metas-append (own name ∷ xs) ys = metas-append xs ys
metas-append (search_tool ∷ xs) ys = ap (◌∷◌ search_tool) (metas-append xs ys)
metas-append (execute_tool ∷ xs) ys = ap (◌∷◌ execute_tool) (metas-append xs ys)

metas-own : (names : List Bytes) → metas (map own names) ≡ []
metas-own [] = refl
metas-own (name ∷ names) = metas-own names

catalog_limits-IsBounded : (calls bytes : ℤ) → IsBounded (catalog_limits calls bytes)
unfolding catalog_limits
catalog_limits-IsBounded (pos m) (pos n) = ground arith
catalog_limits-IsBounded (pos m) (negsuc n) = ground arith
catalog_limits-IsBounded (negsuc m) (pos n) = ground arith
catalog_limits-IsBounded (negsuc m) (negsuc n) = ground arith

-- The catalog that an option finds: the server's, or a new one.
IsFilled-catalog_or_new :
    (tools : List ServerTool) (o : Option ToolCatalog)
    → IsFilled tools o
    → IsFilled tools (some (catalog_or_new o))
IsFilled-catalog_or_new tools none h = (h, refl, omega arith)
IsFilled-catalog_or_new tools (some c) h = h

IsFilled-metas :
    (tools more : List ServerTool) (o : Option ToolCatalog)
    → metas more ≡ metas tools
    → IsFilled tools o
    → IsFilled more o
IsFilled-metas tools more none e h = e ∙ h
IsFilled-metas tools more (some c) e h = (e ∙ h.0, h.1, h.2)

add_to_catalog-IsFilled :
    (s : Registry) (c : ToolCatalog) (tools : List Bytes)
    → IsFilled s.tools (some c)
    → IsFilled (add_to_catalog s c tools).tools (add_to_catalog s c tools).catalog
unfolding add_to_catalog
add_to_catalog-IsFilled s c tools (h, i, b) =
    let more = length-append c.tools tools in
    elim (Bool-cases (ltb 0 (length (c.tools ++ tools)) && not c.installed)) [
      | inl e ↦
          let none_yet : ltb 0 (length c.tools) ≡ false = ground (arith, i, e) in
          let some_now : ltb 0 (length (c.tools ++ tools)) ≡ true = ground (arith, e) in
          let listed : metas s.tools ≡ [] = rw none_yet at h in
          rw (e, some_now)
            (
              metas-append s.tools (search_tool ∷ execute_tool ∷ [])
                  ∙ ap (λ l. l ++ search_tool ∷ execute_tool ∷ []) listed,
              refl,
              b,
            )
      | inr e ↦
          let same : ltb 0 (length (c.tools ++ tools)) ≡ ltb 0 (length c.tools) =
            ground (arith, i, e, more) in
          rw (e, same) (h, i, b)
    ]

apply-IsFilled :
    (s : Registry) (opt : ToolOption)
    → IsFilled s.tools s.catalog
    → IsFilled (apply s opt).tools (apply s opt).catalog
unfolding apply
apply-IsFilled s (with_tools tools) h =
    IsFilled-metas s.tools (s.tools ++ map own (present tools)) s.catalog
      (metas-append s.tools (map own (present tools))
        ∙ ap (λ l. metas s.tools ++ l) (metas-own (present tools))
        ∙ append-nil (metas s.tools))
      h
apply-IsFilled s (with_tool_catalog tools) h =
    add_to_catalog-IsFilled s (catalog_for s) (present tools)
      (IsFilled-catalog_or_new s.tools s.catalog h)
apply-IsFilled s (with_tool_catalog_limits calls bytes) h =
    let (listed, installed, _) = IsFilled-catalog_or_new s.tools s.catalog h in
    (listed, installed, catalog_limits-IsBounded calls bytes)

apply_all-IsFilled :
    (opts : List ToolOption) (s : Registry)
    → IsFilled s.tools s.catalog
    → IsFilled (apply_all s opts).tools (apply_all s opts).catalog
unfolding apply_all
apply_all-IsFilled [] s h = h
apply_all-IsFilled (opt ∷ opts) s h = apply_all-IsFilled opts (apply s opt) (apply-IsFilled s opt h)

-- Whatever the options, and in whatever order they come, a server lists the two meta tools once
-- each if its catalog has an entry and not at all if it has none, and the limits of the catalog
-- lie between their floors and ceilings.
pub apply_all-new_registry :
    (opts : List ToolOption)
    → IsFilled (apply_all new_registry opts).tools (apply_all new_registry opts).catalog
apply_all-new_registry opts = apply_all-IsFilled opts new_registry refl
