-- ===== src/Server/Catalog/Fit.antt =====
-- server/tool_catalog.go: clipping a text to what fits.
pub mod Longest
use velocity_mcp.Base.{
  Bool, List, [], if◌then◌else◌, leb, length, ltb, none, some, suc, take, zero, ℕ, ◌++◌, ◌+◌, ◌-◌,
  ◌/◌, ◌∷◌,
}
use velocity_mcp.Bytes.{Bytes}
use velocity_mcp.Json.Text.{replacement, utf8_tail}
use velocity_mcp.Server.Catalog.Limits.{catalog_truncation_marker}

-- `[]rune(s)`, each character as its bytes; the number counts bytes that are taken already.
unfoldable pub runes_from : ℕ → Bytes → List Bytes
unfolding utf8_tail
runes_from n [] = []
runes_from (suc n) (c ∷ s) = runes_from n s
runes_from zero (c ∷ s) = if ltb c 0x80 then (c ∷ []) ∷ runes_from 0 s else elim (utf8_tail c s) [
  | none ↦ replacement ∷ runes_from 0 s
  | some n ↦ (c ∷ take n s) ∷ runes_from n s
]

unfoldable pub runes : Bytes → List Bytes
unfolding runes_from
runes s = runes_from 0 s

-- `string(runes)`.
abbrev pub concat : List Bytes → Bytes
concat [] = []
concat (r ∷ rs) = r ++ concat rs

unfoldable pub catalog_clip : List Bytes → ℕ → Bytes
catalog_clip rs n =
    if leb (length rs) n then concat rs else concat (take n rs) ++ catalog_truncation_marker

-- The loop of `catalogLongestFit`; the number bounds its turns.
unfoldable pub longest_fit_from : ℕ → (ℕ → Bool) → ℕ → ℕ → ℕ
longest_fit_from zero fits lo hi = lo
longest_fit_from (suc turns) fits lo hi =
    let mid = (lo + hi + 1) / 2 in
    let higher = longest_fit_from turns fits mid hi in
    let lower = longest_fit_from turns fits lo (mid - 1) in
    if ltb lo hi then (if fits mid then higher else lower) else lo

unfoldable pub catalog_longest_fit : ℕ → (ℕ → Bool) → ℕ
unfolding longest_fit_from
catalog_longest_fit length fits = longest_fit_from length fits 0 length
