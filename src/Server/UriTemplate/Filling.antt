-- ===== src/Server/UriTemplate/Filling.antt =====
-- The values of a match, and the text that they fill.
use velocity_mcp.Base.{
  ==_iff, Bool-cases, List, Option, Option-cases, [], ap, append-nil, arith, drop, drop_all, false,
  if◌then◌else◌, inl, inr, length, none, none-ne-some, not, refl, some, some-eq, suc, sym, take,
  zero, ℕ, ◌++◌, ◌+◌, ◌==◌, ◌∙◌, ◌∷◌, ◌≡◌, ◌≢◌,
}
use velocity_mcp.Bytes.{Bytes, contains_byte, equal, has_prefix, index, last_index}
use velocity_mcp.Bytes.Laws.{equal-eq, equal_iff, has_prefix-split}
use velocity_mcp.Assoc.{Assoc, insert}
use velocity_mcp.Server.UriTemplate.{head_or_empty, match_last, match_names, match_parsed}
use velocity_mcp.Bytes.Search.{index-nil, index-split, last_index-split}

-- The values, each with the literal behind it.
abbrev pub fill : List Bytes → List Bytes → Bytes
fill literals [] = []
fill literals (v ∷ vs) = v ++ (head_or_empty literals ++ fill (drop 1 literals) vs)

-- No value is empty, and only the last may hold a slash.
abbrev pub AreSegments : List Bytes → Type 0
AreSegments [] = Unit
AreSegments (v ∷ []) = v ≢ []
AreSegments (v ∷ w ∷ vs) = (v ≢ []) × (contains_byte v b'/' ≡ false) × AreSegments (w ∷ vs)

-- The variables after each name took its value, in order.
abbrev pub bind : List Bytes → List Bytes → Assoc Bytes → Assoc Bytes
bind [] vs m = m
bind (n ∷ ns) [] m = m
bind (n ∷ ns) (v ∷ vs) m = bind ns vs (insert n v m)

pub record Filled (literals names : List Bytes) (rest : Bytes) (vars found : Assoc Bytes)
    : Type 0 where
  pub values : List Bytes
  pub count : length values ≡ length names
  pub text : rest ≡ fill literals values
  pub segments : AreSegments values
  pub bound : found ≡ bind names values vars

not_empty : (s : Bytes) → equal s [] ≡ false → s ≢ []
not_empty s h e = cc (h, (equal_iff s []).1 e)

nonempty_if :
    (s : Bytes) {o : Option (Assoc Bytes)} {found : Assoc Bytes}
    → (if equal s [] then none else o) ≡ some found
    → (s ≢ []) × (o ≡ some found)
nonempty_if s h = elim (Bool-cases (equal s [])) [
  | inl e ↦ absurd (none-ne-some (rw e at h))
  | inr e ↦ (not_empty s e, rw e at h)
]

-- A value in front of a literal that ends the uri.
match_suffix :
    (name l rest : Bytes) (idx : ℕ) (vars found : Assoc Bytes)
    → last_index rest l ≡ some idx
    → (if not (idx + length l == length rest)
        then none
        else if equal (take idx rest) []
        then none
        else some (insert name (take idx rest) vars))
      ≡ some found
    → (rest ≡ take idx rest ++ l)
      × (take idx rest ≢ [])
      × (found ≡ insert name (take idx rest) vars)
match_suffix name l rest idx vars found e h = elim (Bool-cases (idx + length l == length rest)) [
  | inr b ↦ absurd (none-ne-some (rw b at h))
  | inl b ↦
      let ends : idx + length l ≡ length rest = (==_iff _ _).0 b in
      let (ne, k) = nonempty_if (take idx rest) (rw b at h) in
      (
        last_index-split rest l e
            ∙ ap (λ t. take idx rest ++ (l ++ t)) (drop_all (idx + length l) rest (omega arith))
            ∙ ap (λ t. take idx rest ++ t) (append-nil l),
        ne,
        sym (some-eq k),
      )
]

match_last-Filled :
    (literals : List Bytes) (name rest : Bytes) (vars found : Assoc Bytes)
    → match_last name (head_or_empty literals) rest vars ≡ some found
    → Filled literals (name ∷ []) rest vars found
unfolding match_last
match_last-Filled literals name rest vars found h =
    elim (Bool-cases (equal (head_or_empty literals) [])) [
      | inl e ↦
          let (ne, k) = nonempty_if rest (rw e at h) in
          let no_literal = equal-eq (head_or_empty literals) [] e in
          record {
            values = rest ∷ [];
            count = refl;
            text = sym (append-nil rest) ∙ ap (λ t. rest ++ (t ++ [])) (sym no_literal);
            segments = ne;
            bound = sym (some-eq k);
          }
      | inr e ↦ elim (Option-cases (last_index rest (head_or_empty literals))) [
        | inl f ↦ absurd (none-ne-some (rw (e, f) at h))
        | inr (idx, f) ↦
            let (text, ne, k) =
              match_suffix name (head_or_empty literals) rest idx vars found f (rw (e, f) at h) in
            record {
              values = take idx rest ∷ [];
              count = refl;
              text =
                  text ∙ ap (λ t. take idx rest ++ t) (sym (append-nil (head_or_empty literals)));
              segments = ne;
              bound = k;
            }
      ]
    ]

-- One round of the loop, before the last placeholder.
round :
    (rest l : Bytes) (idx : ℕ) {o : Option (Assoc Bytes)} {found : Assoc Bytes}
    → index rest l ≡ some idx
    → (if idx == 0 then none else if contains_byte (take idx rest) b'/' then none else o)
      ≡ some found
    → (take idx rest ≢ []) × (contains_byte (take idx rest) b'/' ≡ false) × (o ≡ some found)
round rest l zero e h = absurd (none-ne-some h)
round [] l (suc idx) e h = absurd (omega (arith, index-nil l e))
round (x ∷ s) l (suc idx) e h =
    let z : (suc idx == 0) ≡ false = ground arith in
    elim (Bool-cases (contains_byte (take (suc idx) (x ∷ s)) b'/')) [
      | inl f ↦ absurd (none-ne-some (rw (z, f) at h))
      | inr f ↦ (λ q. cc q, f, rw (z, f) at h)
    ]

AreSegments-cons :
    (v : Bytes) (ws : List Bytes) {n : ℕ}
    → v ≢ []
    → contains_byte v b'/' ≡ false
    → length ws ≡ suc n
    → AreSegments ws
    → AreSegments (v ∷ ws)
AreSegments-cons v [] ne segment count rest = absurd (omega arith)
AreSegments-cons v (w ∷ ws) ne segment count rest = (ne, segment, rest)

match_names-Filled :
    (literals : List Bytes) (name : Bytes) (names : List Bytes) (rest : Bytes)
    (vars found : Assoc Bytes)
    → match_names literals (name ∷ names) rest vars ≡ some found
    → Filled literals (name ∷ names) rest vars found
unfolding match_names
match_names-Filled literals name [] rest vars found h =
    match_last-Filled literals name rest vars found h
match_names-Filled literals name (next ∷ names) rest vars found h =
    elim (Option-cases (index rest (head_or_empty literals))) [
      | inl f ↦ absurd (none-ne-some (rw (f, match_names) at h))
      | inr (idx, f) ↦
          let (ne, segment, k) =
            round rest (head_or_empty literals) idx f (rw (f, match_names) at h) in
          let later =
            match_names-Filled (drop 1 literals) next names
              (drop (idx + length (head_or_empty literals)) rest) (insert name (take idx rest) vars)
              found k in
          record {
            values = take idx rest ∷ later.values;
            count = ap suc later.count;
            text =
                index-split rest (head_or_empty literals) f
                ∙ ap (λ t. take idx rest ++ (head_or_empty literals ++ t)) later.text;
            segments =
                AreSegments-cons (take idx rest) later.values ne segment later.count later.segments;
            bound = later.bound;
          }
    ]

pub match_parsed-Filled :
    (literals : List Bytes) (name : Bytes) (names : List Bytes) (uri : Bytes) (found : Assoc Bytes)
    → match_parsed literals (name ∷ names) uri ≡ some found
    → (uri ≡ head_or_empty literals ++ drop (length (head_or_empty literals)) uri)
      × Filled
          (drop 1 literals)
          (name ∷ names)
          (drop (length (head_or_empty literals)) uri)
          []
          found
unfolding match_parsed
match_parsed-Filled literals name names uri found h =
    elim (Bool-cases (has_prefix uri (head_or_empty literals))) [
      | inr e ↦ absurd (none-ne-some (rw e at h))
      | inl e ↦ (
        has_prefix-split uri (head_or_empty literals) e,
        match_names-Filled _ name names _ [] found (rw e at h),
      )
    ]
