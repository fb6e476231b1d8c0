-- ===== src/Bytes/Laws.antt =====
-- Equality, prefixes and suffixes of byte strings.
use velocity_mcp.Base.{
  ==_refl, Bool, Bool-cases, [], ap, arith, drop, drop-drop, drop-length_append, false, inl, inr,
  length, length-append, refl, sym, take, take-append-drop, take-length_append, true, ℕ, ◌++◌, ◌+◌,
  ◌-◌, ◌↔◌, ◌∙◌, ◌∷◌, ◌≡◌, ◌≢◌, ◌≤◌, ◌⊎◌,
}
use velocity_mcp.Bytes.{Bytes, equal, has_prefix, has_suffix, slice, trim, trim_left, trim_right}

pub equal-eq : (xs ys : Bytes) → equal xs ys ≡ true → xs ≡ ys
unfolding equal
equal-eq [] [] h = refl
equal-eq [] (y ∷ ys) h = cc
equal-eq (x ∷ xs) [] h = cc
equal-eq (x ∷ xs) (y ∷ ys) h = ground (arith, equal-eq xs ys)

pub equal_refl : (xs : Bytes) → equal xs xs ≡ true
unfolding equal
equal_refl [] = refl
equal_refl (x ∷ xs) = rw (==_refl x) (equal_refl xs)

pub equal_iff : (xs ys : Bytes) → (equal xs ys ≡ true) ↔ (xs ≡ ys)
equal_iff xs ys = (equal-eq xs ys, λ e. rw e (equal_refl ys))

pub equal_ne : (xs ys : Bytes) → xs ≢ ys → equal xs ys ≡ false
equal_ne xs ys h = elim (Bool-cases (equal xs ys)) [
  | inl e ↦ absurd (h (equal-eq xs ys e))
  | inr e ↦ e
]

pub equal_sym : (xs ys : Bytes) → equal xs ys ≡ equal ys xs
equal_sym xs ys = elim (Bool-cases (equal xs ys)) [
  | inl e ↦ e ∙ sym ((equal_iff ys xs).1 (sym (equal-eq xs ys e)))
  | inr e ↦ e ∙ sym (equal_ne ys xs (λ q. cc (e, (equal_iff xs ys).1 (sym q))))
]

pub has_prefix-append : (p s : Bytes) → has_prefix (p ++ s) p ≡ true
unfolding has_prefix
has_prefix-append p s =
    rw (take-length_append p s) (ground (arith, length-append p s, equal_refl p))

pub has_suffix-append : (s p : Bytes) → has_suffix (s ++ p) p ≡ true
unfolding has_suffix
has_suffix-append s p =
    let e : length (s ++ p) - length p ≡ length s = omega (arith, length-append s p) in
    rw e (rw (drop-length_append s p) (ground (arith, length-append s p, equal_refl p)))

-- A string with a prefix is the prefix and what follows it.
pub has_prefix-split : (s p : Bytes) → has_prefix s p ≡ true → s ≡ p ++ drop (length p) s
unfolding has_prefix
has_prefix-split s p h =
    let e : take (length p) s ≡ p = equal-eq (take (length p) s) p (ground arith) in
    sym (take-append-drop (length p) s) ∙ ap (λ t. t ++ drop (length p) s) e

has_suffix-split : (s p : Bytes) → has_suffix s p ≡ true → s ≡ take (length s - length p) s ++ p
unfolding has_suffix
has_suffix-split s p h =
    let n = length s - length p in
    let e : drop n s ≡ p = equal-eq (drop n s) p (ground arith) in
    sym (take-append-drop n s) ∙ ap (λ t. take n s ++ t) e

-- The bytes between two delimiters.
pub slice-append :
    (p e q : Bytes) → slice (p ++ (e ++ q)) (length p) (length (p ++ (e ++ q)) - length q) ≡ e
slice-append p e q =
    let n : length (p ++ (e ++ q)) - length q - length p ≡ length e =
      omega (arith, length-append p (e ++ q), length-append e q) in
    rw (n, drop-length_append p (e ++ q)) (take-length_append e q)

has_suffix-drop : (s p : Bytes) → has_suffix s p ≡ true → drop (length s - length p) s ≡ p
unfolding has_suffix
has_suffix-drop s p h = equal-eq (drop (length s - length p) s) p (ground arith)

-- A string that is long enough for both of its delimiters is cut at them.
pub slice-split :
    (s p q : Bytes)
    → length p + length q ≤ length s
    → has_prefix s p ≡ true
    → has_suffix s q ≡ true
    → s ≡ p ++ (slice s (length p) (length s - length q) ++ q)
slice-split s p q n starts ends =
    let k = length s - length q - length p in
    let e : length p + k ≡ length s - length q = omega arith in
    let tail : drop k (drop (length p) s) ≡ q =
      drop-drop k (length p) s ∙ ap (λ i. drop i s) e ∙ has_suffix-drop s q ends in
    let body : drop (length p) s ≡ take k (drop (length p) s) ++ q =
      sym (take-append-drop k (drop (length p) s))
      ∙ ap (λ t. take k (drop (length p) s) ++ t) tail in
    has_prefix-split s p starts ∙ ap (λ t. p ++ t) body

Bytes-cases : (s : Bytes) → (s ≡ []) ⊎ ((c : ℕ) × (t : Bytes) × (s ≡ c ∷ t))
Bytes-cases [] = inl refl
Bytes-cases (c ∷ t) = inr (c, t, refl)

module _ (p : ℕ → Bool) where
  -- What is trimmed on the left is empty or begins with a byte that is kept.
  trim_left-cases :
      (s : Bytes)
      → (trim_left p s ≡ []) ⊎ ((c : ℕ) × (t : Bytes) × (trim_left p s ≡ c ∷ t) × (p c ≡ false))
  unfolding trim_left
  trim_left-cases [] = inl refl
  trim_left-cases (c ∷ s) = elim (Bool-cases (p c)) [
    | inl e ↦ rw e (trim_left-cases s)
    | inr e ↦ rw e (inr (c, s, refl, e))
  ]

  trim_right_twice : (s : Bytes) → trim_right p (trim_right p s) ≡ trim_right p s
  unfolding trim_right
  trim_right_twice [] = refl
  trim_right_twice (c ∷ s) = elim (Bytes-cases (trim_right p s)) [
    | inl e ↦ elim (Bool-cases (p c)) [ inl f ↦ rw (e, f) refl | inr f ↦ rw (e, f) (rw f refl) ]
    | inr (d, t, e) ↦
        let twice = trim_right_twice s in
        let again : trim_right p (d ∷ t) ≡ d ∷ t = rw e at twice in rw (e, again) refl
  ]

  -- A byte that is kept stays in front.
  trim_right-kept : (c : ℕ) (t : Bytes) → p c ≡ false → (r : Bytes) × (trim_right p (c ∷ t) ≡ c ∷ r)
  unfolding trim_right
  trim_right-kept c t e = elim (Bytes-cases (trim_right p t)) [
    | inl f ↦ ([], rw (f, e) refl)
    | inr (d, r, f) ↦ (d ∷ r, rw f refl)
  ]

  pub trim_twice : (s : Bytes) → trim p (trim p s) ≡ trim p s
  unfolding trim
  trim_twice s = elim (trim_left-cases s) [
    | inl e ↦ rw e (unfold trim_right in unfold trim_left in refl)
    | inr (c, t, e, f) ↦
        let (r, g) = trim_right-kept c t f in
        let left : trim_left p (c ∷ r) ≡ c ∷ r = unfold trim_left in rw f refl in
        let right : trim_right p (c ∷ r) ≡ c ∷ r = rw (← g) (trim_right_twice (c ∷ t)) in
        rw (e, g, left) right
  ]
