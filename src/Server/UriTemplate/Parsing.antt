-- ===== src/Server/UriTemplate/Parsing.antt =====
-- What `parseTemplate` reads.
use velocity_mcp.Base.{
  List, Option-cases, [], ap, ap₂, arith, drop, drop-drop, false, inl, inr, length, length-append,
  length-drop, none, refl, some, suc, sym, take, zero, ℕ, ◌++◌, ◌+◌, ◌-◌, ◌<◌, ◌∙◌, ◌∷◌, ◌≡◌,
}
use velocity_mcp.Bytes.{Bytes, contains_byte, index, slice}
use velocity_mcp.Bytes.Search.{index-cons, index-first, index-prefix, index-split}
use velocity_mcp.Server.UriTemplate.{close_brace, open_brace, parse_from, parse_template}
use velocity_mcp.Bytes.Laws.{has_prefix-split}

-- A template as literals around the names of its placeholders. An opening brace that none
-- closes belongs to the last literal.
pub data Template : Bytes → List Bytes → List Bytes → Type 0 where
  bare : {rest : Bytes} → index rest open_brace ≡ none → Template rest (rest ∷ []) []
  unterminated :
      {rest : Bytes} {i : ℕ}
      → index rest open_brace ≡ some i
      → index (drop i rest) close_brace ≡ none
      → Template rest (rest ∷ []) []
  placeholder :
      {rest before name after : Bytes} {literals names : List Bytes}
      → rest ≡ before ++ (open_brace ++ (name ++ (close_brace ++ after)))
      → contains_byte before b'{' ≡ false
      → contains_byte name b'}' ≡ false
      → Template after literals names
      → Template rest (before ∷ literals) (name ∷ names)

-- The text of the first placeholder, cut where the code cuts it.
cut :
    (rest : Bytes) (o c : ℕ)
    → index rest open_brace ≡ some o
    → index (drop o rest) close_brace ≡ some c
    → (rest
        ≡ take o rest
          ++ (open_brace ++ (slice rest (o + 1) (c + o) ++ (close_brace ++ drop (c + o + 1) rest))))
      × (contains_byte (slice rest (o + 1) (c + o)) b'}' ≡ false)
      × (length (drop (c + o + 1) rest) < length rest)
cut rest o c ho hc =
    let x = drop (o + 1) rest in
    let opened : drop o rest ≡ open_brace ++ x =
      has_prefix-split (drop o rest) open_brace (index-prefix rest open_brace ho)
      ∙ ap (λ t. open_brace ++ t) (drop-drop 1 o rest) in
    let (j, hj, e) = index-cons b'{' b'}' x refl (rw opened at hc) in
    let inner : slice rest (o + 1) (c + o) ≡ take j x =
      ap (λ k. take k x) (let k : c + o - (o + 1) ≡ j = omega arith in k) in
    let outer : drop (c + o + 1) rest ≡ drop (j + 1) x =
      ap (λ k. drop k rest) (let k : c + o + 1 ≡ o + 1 + (j + 1) = omega arith in k)
      ∙ sym (drop-drop (j + 1) (o + 1) rest) in
    let closed = index-split x close_brace hj in
    let whole = index-split rest open_brace ho in
    (
      whole
          ∙ ap (λ t. take o rest ++ (open_brace ++ t)) closed
          ∙ ap₂ (λ t u. take o rest ++ (open_brace ++ (t ++ (close_brace ++ u)))) (sym inner)
              (sym outer),
      rw inner (index-first x b'}' hj),
      omega (
        arith,
        length-drop (c + o + 1) rest,
        ap length whole,
        length-append (take o rest) (open_brace ++ drop (o + 1) rest),
      ),
    )

parse_from-Template :
    (f : ℕ) (rest : Bytes)
    → length rest < f
    → Template rest (parse_from f rest).0 (parse_from f rest).1
unfolding parse_from
parse_from-Template zero rest h = elim h [ ]
parse_from-Template (suc f) rest h = elim (Option-cases (index rest open_brace)) [
  | inl e ↦ rw (e, parse_from) (bare e)
  | inr (o, e) ↦ elim (Option-cases (index (drop o rest) close_brace)) [
    | inl g ↦ rw (e, parse_from, g) (unterminated e g)
    | inr (c, g) ↦
        let (text, name, shorter) = cut rest o c e g in
        rw (e, parse_from, g)
          (placeholder text (index-first rest b'{' e) name
            (parse_from-Template f (drop (c + o + 1) rest) (omega arith)))
  ]
]

-- The literals and names of a template, put together, are the template.
pub parse_template-Template :
    (template : Bytes) → Template template (parse_template template).0 (parse_template template).1
unfolding parse_template
parse_template-Template template =
    parse_from-Template (suc (length template)) template (omega arith)
