-- ===== src/Server/Pagination/Walk.antt =====
-- Following the cursors from page to page.
use velocity_mcp.Base.{
  Bool-cases, List, Option, [], ap, arith, drop, drop-drop, false, if◌then◌else◌, inl, inr, leb,
  length, length-drop, ltb, none, refl, some, suc, sym, take, take-append-drop, take_all, true,
  zero, ℕ, ◌++◌, ◌+◌, ◌-◌, ◌<◌, ◌==◌, ◌>>=◌, ◌^◌, ◌||◌, ◌∙◌, ◌∷◌, ◌≡◌, ◌≤◌,
}
use velocity_mcp.Bytes.{Bytes, equal}
use velocity_mcp.Json.Number.{Int64, non_negative}
use velocity_mcp.Server.Pagination.{add_int, encode_cursor, page_from, paginate, start_offset}
use velocity_mcp.Server.Pagination.Cursor.{equal-encode_cursor, start_offset-encode_cursor}
use velocity_mcp.Bytes.Laws.{equal_refl}

start_offset-nil : start_offset [] ≡ 0
unfolding start_offset equal
start_offset-nil = refl

module _ {ℓ} {A : Type ℓ} where
  -- A client that asks for the next page while there is a cursor; the number bounds its requests.
  unfoldable pub walk : ℕ → List A → Int64 → Bytes → Option (List A)
  walk zero items per_page cursor = none
  walk (suc f) items per_page cursor = elim (paginate items per_page cursor) [
    | none ↦ none
    | some (page, next) ↦ elim (equal next []) [
      | true ↦ some page
      | false ↦ walk f items per_page next >>= λ rest. some (page ++ rest)
    ]
  ]

  -- The code cuts the end of a page back to the end of the list.
  take-stop :
      (s p : ℕ) (items : List A)
      → take ((if ltb (length items) (s + p) then length items else s + p) - s) (drop s items)
        ≡ take p (drop s items)
  take-stop s p items = elim (Bool-cases (ltb (length items) (s + p))) [
    | inl e ↦
        let short : length (drop s items) ≤ p = ground (arith, e, length-drop s items) in
        rw e (
          take_all (length items - s) (drop s items) (omega (arith, length-drop s items))
          ∙ sym (take_all p (drop s items) short))
    | inr e ↦ rw e (ap (λ k. take k (drop s items)) (let k : s + p - s ≡ p = omega arith in k))
  ]

  -- A page is the slice of its size at its offset. The cursor names the slice behind it, and is
  -- empty when there is none.
  pub paginate-slice :
      (items : List A) (p : ℕ) (cursor : Bytes)
      → 0 < p
      → p + length items < 2 ^ 63
      → start_offset cursor < length items
      → paginate items (non_negative p) cursor
        ≡ some (
          take p (drop (start_offset cursor) items),
          if ltb (start_offset cursor + p) (length items)
              then encode_cursor (start_offset cursor + p)
              else [],
        )
  unfolding paginate add_int page_from
  paginate-slice items p cursor positive bound inside =
      let s = start_offset cursor in
      let guard : (p == 0 || leb (length items) s) ≡ false = ground arith in
      let fits : ltb (s + p) (2 ^ 63) ≡ true = ground arith in
      rw (guard, fits)
        (ap (λ t. some (t, if ltb (s + p) (length items) then encode_cursor (s + p) else []))
          (take-stop s p items))

  walk_from :
      (f : ℕ) (items : List A) (p : ℕ) (cursor : Bytes)
      → 0 < p
      → p + length items < 2 ^ 63
      → start_offset cursor < length items
      → length items - start_offset cursor < f
      → walk f items (non_negative p) cursor ≡ some (drop (start_offset cursor) items)
  unfolding walk
  walk_from zero items p cursor positive bound inside fuel = elim fuel [ ]
  walk_from (suc f) items p cursor positive bound inside fuel =
      let s = start_offset cursor in
      let page = paginate-slice items p cursor positive bound inside in
      elim (Bool-cases (ltb (s + p) (length items))) [
        | inl e ↦
            let next = start_offset-encode_cursor (s + p) (ground (arith, e)) in
            let later =
              walk_from f items p (encode_cursor (s + p)) positive bound
                (rw next (ground (arith, e))) (rw next (omega (arith, fuel, inside))) in
            rw (rw e at page, walk, equal-encode_cursor (s + p), later, next)
              (ap some (
                ap (λ t. take p (drop s items) ++ t) (sym (drop-drop p s items))
                ∙ take-append-drop p (drop s items)))
        | inr e ↦
            let rest : length (drop s items) ≤ p = ground (arith, e, length-drop s items) in
            rw (rw e at page, walk, equal_refl []) (ap some (take_all p (drop s items) rest))
      ]

  paginate_nothing :
      (items : List A) (p : ℕ) (cursor : Bytes)
      → length items ≤ start_offset cursor
      → paginate items (non_negative p) cursor ≡ some ([], [])
  unfolding paginate
  paginate_nothing items p cursor h =
      let guard : (p == 0 || leb (length items) (start_offset cursor)) ≡ true = ground arith in
      rw guard

  -- Asking for the next page from the first on, while there is a cursor, gives the whole list,
  -- each item once and in order, in no more requests than there are items and one more.
  pub walk_all :
      (items : List A) (p : ℕ)
      → 0 < p
      → p + length items < 2 ^ 63
      → walk (suc (length items)) items (non_negative p) [] ≡ some items
  unfolding walk
  walk_all [] p positive bound =
      rw (paginate_nothing [] p [] (omega (arith, start_offset-nil)), walk, equal_refl []) refl
  walk_all (x ∷ xs) p positive bound =
      walk_from (suc (length (x ∷ xs))) (x ∷ xs) p [] positive bound
        (rw start_offset-nil (omega arith)) (rw start_offset-nil (omega arith))
      ∙ rw start_offset-nil refl
