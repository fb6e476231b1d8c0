-- ===== src/Server/Catalog/Fit/Longest.antt =====
-- The bisection of `catalogLongestFit`.
use velocity_mcp.Base.{
  Bool, Bool-cases, arith, false, inl, inr, ltb, refl, suc, true, zero, ℕ, ◌+◌, ◌-◌, ◌/◌, ◌<◌, ◌≡◌,
  ◌≤◌, ◌⊎◌,
}
use velocity_mcp.Server.Catalog.Fit.{catalog_longest_fit, longest_fit_from}

-- The largest number up to a bound at which a test holds; zero if it holds at none.
pub record IsLongest (top : ℕ) (fits : ℕ → Bool) (n : ℕ) : Type 0 where
  pub within : n ≤ top
  pub fitting : (n ≡ 0) ⊎ (fits n ≡ true)
  pub longest : (m : ℕ) → n < m → m ≤ top → fits m ≡ false

module _ (top : ℕ) (fits : ℕ → Bool)
    (closed : (m k : ℕ) → m ≤ k → fits k ≡ true → fits m ≡ true) where
  not_above : (mid : ℕ) → fits mid ≡ false → (m : ℕ) → mid ≤ m → fits m ≡ false
  not_above mid e m h = elim (Bool-cases (fits m)) [ inl f ↦ cc (e, closed mid m h f) | inr f ↦ f ]

  longest_fit_from-IsLongest :
      (turns lo hi : ℕ)
      → hi ≤ lo + turns
      → lo ≤ hi
      → hi ≤ top
      → (lo ≡ 0) ⊎ (fits lo ≡ true)
      → ((m : ℕ) → hi < m → m ≤ top → fits m ≡ false)
      → IsLongest top fits (longest_fit_from turns fits lo hi)
  unfolding longest_fit_from
  longest_fit_from-IsLongest zero lo hi enough order inside low high =
      let same : hi ≡ lo = omega arith in
      record {
        within = omega arith;
        fitting = low;
        longest = λ m h k. high m (omega (arith, same)) k;
      }
  longest_fit_from-IsLongest (suc turns) lo hi enough order inside low high =
      let mid = (lo + hi + 1) / 2 in
      elim (Bool-cases (ltb lo hi)) [
        | inr e ↦ rw e (record {
          within = omega arith;
          fitting = low;
          longest = λ m h k. high m (ground (arith, e)) k;
        })
        | inl e ↦
            let apart : lo < hi = ground (arith, e) in
            elim (Bool-cases (fits mid)) [
              | inl f ↦
                  rw (e, f)
                    (longest_fit_from-IsLongest turns mid hi (omega arith) (omega arith) inside
                      (inr f) high)
              | inr f ↦
                  rw (e, f)
                    (longest_fit_from-IsLongest turns lo (mid - 1) (omega arith) (omega arith)
                      (omega arith) low (λ m h k. not_above mid f m (omega arith)))
            ]
      ]

  -- For a test that holds below every number at which it holds, the bisection ends within as many
  -- turns as there are characters, at the largest number at which the test holds.
  pub catalog_longest_fit-IsLongest : IsLongest top fits (catalog_longest_fit top fits)
  unfolding catalog_longest_fit
  catalog_longest_fit-IsLongest =
      longest_fit_from-IsLongest top 0 top (omega arith) (omega arith) (omega arith) (inl refl)
        (λ m h k. absurd (omega arith))
