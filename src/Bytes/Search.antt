-- ===== src/Bytes/Search.antt =====
-- Where one string occurs in another.
use velocity_mcp.Base.{
  ==_refl, Bool, Bool-cases, Option, Option-cases, [], ap, arith, drop, drop-drop, false,
  if◌then◌else◌, inl, inr, length, none, none-ne-some, refl, some, some-eq, subst, suc, sym, take,
  take-append-drop, true, ℕ, ◌++◌, ◌+◌, ◌==◌, ◌||◌, ◌∙◌, ◌∷◌, ◌≡◌,
}
use velocity_mcp.Bytes.{Bytes, contains_byte, equal, has_prefix, index, last_index}
use velocity_mcp.Bytes.Laws.{has_prefix-split}

later-some :
    (o : Option ℕ) {i : ℕ}
    → ◌≡◌ {A = Option ℕ} (elim o [ none ↦ none | some j ↦ some (suc j) ]) (some i)
    → (j : ℕ) × (o ≡ some j) × (i ≡ suc j)
later-some none h = absurd (none-ne-some h)
later-some (some j) h = (j, refl, sym (some-eq h))

here-some :
    (b : Bool) {i : ℕ}
    → ◌≡◌ {A = Option ℕ} (if b then some 0 else none) (some i)
    → (b ≡ true) × (i ≡ 0)
here-some true h = (refl, sym (some-eq h))
here-some false h = absurd (none-ne-some h)

-- Where `index` finds a string, it stands.
pub index-prefix : (s p : Bytes) {i : ℕ} → index s p ≡ some i → has_prefix (drop i s) p ≡ true
unfolding index
index-prefix [] p {i} h = let (e, z) = here-some (has_prefix [] p) h in rw z e
index-prefix (x ∷ s) p {i} h = elim (Bool-cases (has_prefix (x ∷ s) p)) [
  | inl e ↦
      let z : 0 ≡ i = some-eq (rw e at h) in subst (λ k. has_prefix (drop k (x ∷ s)) p ≡ true) z e
  | inr e ↦ let (j, f, z) = later-some (index s p) (rw e at h) in rw z (index-prefix s p f)
]

last_index-prefix : (s p : Bytes) {i : ℕ} → last_index s p ≡ some i → has_prefix (drop i s) p ≡ true
unfolding last_index
last_index-prefix [] p {i} h = let (e, z) = here-some (has_prefix [] p) h in rw z e
last_index-prefix (x ∷ s) p {i} h = elim (Option-cases (last_index s p)) [
  | inl f ↦ let (e, z) = here-some (has_prefix (x ∷ s) p) (rw f at h) in rw z e
  | inr (j, f) ↦
      let z : suc j ≡ i = some-eq (rw f at h) in
      subst (λ k. has_prefix (drop k (x ∷ s)) p ≡ true) z (last_index-prefix s p f)
]

prefix-split :
    (s p : Bytes) (i : ℕ)
    → has_prefix (drop i s) p ≡ true
    → s ≡ take i s ++ (p ++ drop (i + length p) s)
prefix-split s p i h =
    sym (take-append-drop i s)
    ∙ ap (λ t. take i s ++ t) (has_prefix-split (drop i s) p h)
    ∙ ap (λ t. take i s ++ (p ++ t)) (drop-drop (length p) i s)

-- An occurrence splits the text around it.
pub index-split :
    (s p : Bytes) {i : ℕ} → index s p ≡ some i → s ≡ take i s ++ (p ++ drop (i + length p) s)
index-split s p {i} h = prefix-split s p i (index-prefix s p h)

pub last_index-split :
    (s p : Bytes) {i : ℕ} → last_index s p ≡ some i → s ≡ take i s ++ (p ++ drop (i + length p) s)
last_index-split s p {i} h = prefix-split s p i (last_index-prefix s p h)

contains_byte-cons : (x c : ℕ) (s : Bytes) → contains_byte (x ∷ s) c ≡ (x == c || contains_byte s c)
unfolding contains_byte
contains_byte-cons x c s = refl

-- What stands in front of the first occurrence of a byte does not hold it.
pub index-first :
    (s : Bytes) (c : ℕ) {i : ℕ} → index s (c ∷ []) ≡ some i → contains_byte (take i s) c ≡ false
unfolding index contains_byte
index-first [] c {i} h = let (e, z) = here-some (has_prefix [] (c ∷ [])) h in rw z refl
index-first (x ∷ s) c {i} h = elim (Bool-cases (has_prefix (x ∷ s) (c ∷ []))) [
  | inl e ↦
      let z : 0 ≡ i = some-eq (rw e at h) in
      subst (λ k. contains_byte (take k (x ∷ s)) c ≡ false) z refl
  | inr e ↦
      let (j, f, z) = later-some (index s (c ∷ [])) (rw e at h) in
      let other : (x == c) ≡ false = unfold has_prefix in ground (arith, e) in
      rw z (rw other (index-first s c f))
]

-- A search passes over a first byte that is another.
pub index-cons :
    (x c : ℕ) (s : Bytes) {i : ℕ}
    → (x == c) ≡ false
    → index (x ∷ s) (c ∷ []) ≡ some i
    → (j : ℕ) × (index s (c ∷ []) ≡ some j) × (i ≡ suc j)
unfolding index
index-cons x c s ne h =
    let away : has_prefix (x ∷ s) (c ∷ []) ≡ false = unfold has_prefix in ground (arith, ne) in
    later-some (index s (c ∷ [])) (rw away at h)

pub index-nil : (p : Bytes) {i : ℕ} → index [] p ≡ some i → i ≡ 0
unfolding index
index-nil p h = (here-some (has_prefix [] p) h).1

-- A byte that does not occur is found nowhere.
last_index-absent : (t : Bytes) (c : ℕ) → contains_byte t c ≡ false → last_index t (c ∷ []) ≡ none
unfolding last_index has_prefix contains_byte equal
last_index-absent [] c h = refl
last_index-absent (x ∷ t) c h =
    let later : last_index t (c ∷ []) ≡ none = last_index-absent t c (ground arith) in
    let other : (x == c) ≡ false = ground arith in rw (later, last_index) (ground (arith, other))

-- The last occurrence of a byte is the one that none follows.
pub last_index-at :
    (s t : Bytes) (c : ℕ)
    → contains_byte t c ≡ false
    → last_index (s ++ c ∷ t) (c ∷ []) ≡ some (length s)
unfolding last_index has_prefix equal
last_index-at [] t c h = rw (last_index-absent t c h, last_index) (ground (arith, ==_refl c))
last_index-at (x ∷ s) t c h = rw (last_index-at s t c h, last_index) refl
