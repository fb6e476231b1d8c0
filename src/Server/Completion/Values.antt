-- ===== src/Server/Completion/Values.antt =====
-- What a completion lists.
use velocity_mcp.Base.{
  Bool, Bool-cases, List, [], ap, append-nil, arith, drop, false, inl, inr, length, length-drop,
  length-take, ltb, refl, sym, take, take-append-drop, true, ℕ, ◌++◌, ◌<◌, ◌∷◌, ◌≡◌, ◌≢◌, ◌≤◌, ◌⊎◌,
}
use velocity_mcp.Bytes.{Bytes}
use velocity_mcp.Server.Completion.{Completion, complete_values, completes, matches}

-- The candidates that are chosen, in order, out of a list.
pub data Chosen (P : Bytes → Bool) : List Bytes → List Bytes → Type 0 where
  done : Chosen P [] []
  keep : {c : Bytes} {cs vs : List Bytes} → P c ≡ true → Chosen P cs vs → Chosen P (c ∷ cs) (c ∷ vs)
  skip : {c : Bytes} {cs vs : List Bytes} → P c ≡ false → Chosen P cs vs → Chosen P (c ∷ cs) vs

ltb-true : (a b : ℕ) → ltb a b ≡ true → a < b
ltb-true a b h = ground arith

ltb-false : (a b : ℕ) → ltb a b ≡ false → b ≤ a
ltb-false a b h = ground arith

first_hundred :
    (vs : List Bytes) → 100 < length vs → (length (take 100 vs) ≡ 100) × (drop 100 vs ≢ [])
first_hundred vs h =
    (omega (arith, length-take 100 vs), λ q. omega (arith, length-drop 100 vs, ap length q))

module _ (lower : Bytes → Bytes) (starts_with : Bytes → Bytes → Bool) where
  -- A completion: all matching candidates in their order, or the first hundred of them.
  pub record IsCompletion (value : Bytes) (candidates : List Bytes) (r : Completion) : Type 0 where
    pub matched : List Bytes
    pub chosen : Chosen (completes lower starts_with value) candidates matched
    pub total_is : r.total ≡ length matched
    pub rest : List Bytes
    pub listed : matched ≡ r.values ++ rest
    pub bounded : length r.values ≤ 100
    pub ends :
        ((r.has_more ≡ false) × (rest ≡ []))
        ⊎ ((r.has_more ≡ true) × (length r.values ≡ 100) × (rest ≢ []))

  matches-Chosen :
      (value : Bytes) (candidates : List Bytes)
      → Chosen
          (completes lower starts_with value)
          candidates
          (matches lower starts_with value candidates)
  unfolding matches
  matches-Chosen value [] = done
  matches-Chosen value (c ∷ cs) = elim (Bool-cases (completes lower starts_with value c)) [
    | inl e ↦ rw e (keep e (matches-Chosen value cs))
    | inr e ↦ rw e (skip e (matches-Chosen value cs))
  ]

  -- `CompleteValues` lists the candidates that complete the value, in their order and at most a
  -- hundred; it counts all of them, and says that there are more exactly when it lists fewer.
  pub complete_values-IsCompletion :
      (value : Bytes) (candidates : List Bytes)
      → IsCompletion value candidates (complete_values lower starts_with value candidates)
  unfolding complete_values
  complete_values-IsCompletion value candidates =
      let all_matched = matches lower starts_with value candidates in
      elim (Bool-cases (ltb 100 (length all_matched))) [
        | inl e ↦
            let (cut, left) = first_hundred all_matched (ltb-true 100 (length all_matched) e) in
            rw e (record {
              matched = all_matched;
              chosen = matches-Chosen value candidates;
              total_is = refl;
              rest = drop 100 all_matched;
              listed = sym (take-append-drop 100 all_matched);
              bounded = omega (arith, cut);
              ends = inr (refl, cut, left);
            })
        | inr e ↦ rw e (record {
          matched = all_matched;
          chosen = matches-Chosen value candidates;
          total_is = refl;
          rest = [];
          listed = sym (append-nil all_matched);
          bounded = ltb-false 100 (length all_matched) e;
          ends = inl (refl, refl);
        })
      ]
