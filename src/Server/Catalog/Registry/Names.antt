-- ===== src/Server/Catalog/Registry/Names.antt =====
-- Which names collide.
use velocity_mcp.Base.{
  All, Bool-cases, List, Option, Option-cases, [], arith, false, inl, inr, map, none, none-ne-some,
  not, refl, some, sym, true, ℕ, ◌||◌, ◌↔◌, ◌∙◌, ◌∷◌, ◌≡◌,
}
use velocity_mcp.Bytes.{Bytes, codes, equal}
use velocity_mcp.Bytes.Laws.{equal-eq, equal_sym}
use velocity_mcp.Server.Catalog.Terms.{has_term}
use velocity_mcp.Server.Catalog.Registry.{
  Registry, ToolCatalog, duplicate_error, finalize_tool_catalog, first_collision, first_repeat,
  name_of_tool, shared_name,
}

-- No name stands in the list twice.
abbrev pub Distinct : List Bytes → Type 0
Distinct [] = Unit
Distinct (name ∷ names) = (has_term names name ≡ false) × Distinct names

-- No name of the first list stands in the second.
abbrev pub Disjoint : List Bytes → List Bytes → Type 0
Disjoint names others = All (λ name. has_term others name ≡ false) names

-- A name that is not seen behind others is neither one of these nor the name itself.
Disjoint-cons :
    (name : Bytes) (seen names : List Bytes)
    → Disjoint names (name ∷ seen) ↔ (Disjoint names seen × (has_term names name ≡ false))
unfolding has_term
Disjoint-cons name seen [] = (λ h. (tt, refl), λ h. tt)
Disjoint-cons name seen (x ∷ names) =
    let (to, from) = Disjoint-cons name seen names in
    (
      λ h.
          let (others, new) = to h.1 in
          ((ground (arith, h.0), others), ground (arith, h.0, new, equal_sym name x)),
      λ h. (ground (arith, h.0.0, h.1, equal_sym name x), from (h.0.1, ground (arith, h.1))),
    )

first_repeat_iff :
    (seen names : List Bytes)
    → (first_repeat seen names ≡ none) ↔ (Distinct names × Disjoint names seen)
unfolding first_repeat
first_repeat_iff seen [] = (λ h. (tt, tt), λ h. refl)
first_repeat_iff seen (name ∷ names) =
    let (to, from) = first_repeat_iff (name ∷ seen) names in
    let (split, join) = Disjoint-cons name seen names in
    elim (Bool-cases (has_term seen name)) [
      | inl e ↦ (λ h. absurd (none-ne-some (sym (rw e at h))), λ h. cc (e, h.1.0))
      | inr e ↦ (
        λ h.
            let (listed, apart) = to (rw e at h) in
            let (others, new) = split apart in ((new, listed), (e, others)),
        λ h. rw e (from (h.0.1, join (h.1.1, h.0.0))),
      )
    ]

-- What the second loop passes over: the names that the catalog had before, and those that the
-- server's listed tools have not.
abbrev Passed : List Bytes → List Bytes → List Bytes → Type 0
Passed in_catalog listed names =
    All (λ name. (has_term in_catalog name || not (has_term listed name)) ≡ true) names

Passed-cons :
    (in_catalog listed : List Bytes) (name : Bytes) (names : List Bytes)
    → has_term listed name ≡ false
    → Passed (name ∷ in_catalog) listed names ↔ Passed in_catalog listed names
unfolding has_term
Passed-cons in_catalog listed name [] h = (λ p. tt, λ p. tt)
Passed-cons in_catalog listed name (x ∷ names) h =
    let (to, from) = Passed-cons in_catalog listed name names h in
    elim (Bool-cases (equal name x)) [
      | inl e ↦
          let same = equal-eq name x e in
          let free : has_term listed x ≡ false = rw (← same) h in
          (λ p. (ground (arith, free), to p.1), λ p. (ground (arith, e), from p.1))
      | inr e ↦ (λ p. (ground (arith, e, p.0), to p.1), λ p. (ground (arith, e, p.0), from p.1))
    ]

first_collision_iff :
    (in_catalog seen listed names : List Bytes)
    → ((name : Bytes) → has_term seen name ≡ (has_term in_catalog name || has_term listed name))
    → (first_collision in_catalog seen names ≡ none) ↔ Passed in_catalog listed names
unfolding first_collision
first_collision_iff in_catalog seen listed [] known = (λ h. tt, λ h. refl)
first_collision_iff in_catalog seen listed (name ∷ names) known =
    elim (Bool-cases (has_term in_catalog name)) [
      | inl e ↦
          let (to, from) = first_collision_iff in_catalog seen listed names known in
          (λ h. (ground (arith, e), to (rw e at h)), λ h. rw e (from h.1))
      | inr e ↦ elim (Bool-cases (has_term listed name)) [
        | inl f ↦
            let seen_before : has_term seen name ≡ true = ground (arith, known name, e, f) in
            (
              λ h. absurd (none-ne-some (sym (rw (e, seen_before) at h))),
              λ h. absurd (ground (arith, h.0, e, f)),
            )
        | inr f ↦
            let new : has_term seen name ≡ false = ground (arith, known name, e, f) in
            let (to, from) =
              first_collision_iff (name ∷ in_catalog) (name ∷ seen) listed names
                (λ x. unfold has_term in ground (arith, known x)) in
            let (fewer, more) = Passed-cons in_catalog listed name names f in
            (
              λ h. (ground (arith, f), fewer (to (rw (e, new) at h))),
              λ h. rw (e, new) (from (more h.1)),
            )
      ]
    ]

Passed-Disjoint :
    (server_names names : List Bytes) → Passed [] server_names names ↔ Disjoint names server_names
unfolding has_term
Passed-Disjoint server_names [] = (λ h. tt, λ h. tt)
Passed-Disjoint server_names (name ∷ names) =
    let (to, from) = Passed-Disjoint server_names names in
    (λ h. (ground (arith, h.0), to h.1), λ h. (ground (arith, h.0), from h.1))

Disjoint-nil : (names : List Bytes) → Disjoint names []
unfolding has_term
Disjoint-nil [] = tt
Disjoint-nil (name ∷ names) = (refl, Disjoint-nil names)

-- No name is shared exactly when those of the listed tools of a server differ from each other and
-- from those of the catalog.
shared_name_iff :
    (server_names catalog_names : List Bytes)
    → (shared_name server_names catalog_names ≡ none)
      ↔ (Distinct server_names × Disjoint catalog_names server_names)
unfolding shared_name
shared_name_iff server_names catalog_names =
    let (to, from) = first_repeat_iff [] server_names in
    let (pass, stop) =
      first_collision_iff [] server_names server_names catalog_names
        (λ name. unfold has_term in refl) in
    let apart : Passed [] server_names catalog_names ↔ Disjoint catalog_names server_names =
      Passed-Disjoint server_names catalog_names in
    elim (Option-cases (first_repeat [] server_names)) [
      | inl e ↦ (λ h. ((to e).0, apart.0 (pass (rw e at h))), λ h. rw e (stop (apart.1 h.1)))
      | inr (name, e) ↦ (
        λ h. absurd (none-ne-some (sym (rw e at h))),
        λ h. absurd (none-ne-some (sym (from (h.0, Disjoint-nil server_names)) ∙ e)),
      )
    ]

first_repeat-Distinct : (names : List Bytes) → (first_repeat [] names ≡ none) ↔ Distinct names
first_repeat-Distinct names =
    let (to, from) = first_repeat_iff [] names in (λ h. (to h).0, λ h. from (h, Disjoint-nil names))

duplicate_error-nil :
    (c : ℕ) (before : Bytes) (o : Option Bytes) (behind : Bytes)
    → (duplicate_error (c ∷ before) o behind ≡ []) ↔ (o ≡ none)
duplicate_error-nil c before none behind = (λ h. refl, λ h. refl)
duplicate_error-nil c before (some name) behind =
    (λ h. absurd cc, λ h. absurd (none-ne-some (sym h)))

-- What the check of the names makes of a server: nothing without a catalog whose meta tools are
-- installed, and otherwise two reports in its catalog, each empty or not.
pub data IsReported (s out : Registry) : Type 0 where
  no_catalog : s.catalog ≡ none → out ≡ s → IsReported s out
  not_installed :
      (c : ToolCatalog) → s.catalog ≡ some c → c.installed ≡ false → out ≡ s → IsReported s out
  checked :
      (c : ToolCatalog) (dup config : Bytes)
      → s.catalog ≡ some c
      → c.installed ≡ true
      → out ≡ record s { catalog = some (record c { dup_err = dup; config_err = config }) }
      → (dup ≡ []) ↔ Distinct c.tools
      → (config ≡ [])
        ↔ (Distinct (map name_of_tool s.tools) × Disjoint c.tools (map name_of_tool s.tools))
      → IsReported s out

-- The check of the names leaves a server without a catalog, or whose catalog is not installed, as it
-- is. Otherwise its catalog reports no duplicate exactly when the names of its tools differ from
-- each other, and no misconfiguration exactly when the names of the listed tools of the server, its
-- meta tools included, differ from each other and from those of the catalog.
pub finalize_tool_catalog-IsReported : (s : Registry) → IsReported s (finalize_tool_catalog s)
unfolding finalize_tool_catalog
finalize_tool_catalog-IsReported s = elim (Option-cases s.catalog) [
  | inl e ↦ no_catalog e (ground (arith, e))
  | inr (c, e) ↦ elim (Bool-cases c.installed) [
    | inr f ↦ not_installed c e f (ground (arith, e, f))
    | inl f ↦
        let names = map name_of_tool s.tools in
        let (dup_to, dup_from) =
          duplicate_error-nil b'D' (codes "uplicate tool name [") (first_repeat [] c.tools)
            (codes "] in the tool catalog.") in
        let (config_to, config_from) =
          duplicate_error-nil b'D' (codes "uplicate server tool name [") (shared_name names c.tools)
            (codes "].") in
        let (distinct, repeated) = first_repeat-Distinct c.tools in
        let (apart, shared) = shared_name_iff names c.tools in
        checked c _ _ e f (rw (e, finalize_tool_catalog, f) refl)
          (λ h. distinct (dup_to h), λ h. dup_from (repeated h))
          (λ h. apart (config_to h), λ h. config_from (shared h))
  ]
]
