-- ===== src/Client/Act.antt =====
-- Methods of the client, which change its state and may fail; what was written before a failure
-- stays written.
use velocity_mcp.Base.{Bool, Option, false, if◌then◌else◌, none, refl, some, true, ◌≡◌}
use velocity_mcp.Client.Errors.{Failure, Result, err, ok}

abbrev pub Act : Type 0 → Type 0 → Type 0
Act S A = S → Result A × S

abbrev pub pure : {S A : Type 0} → A → Act S A
pure a s = (ok a, s)

abbrev pub raise : {S A : Type 0} → Failure → Act S A
raise f s = (err f, s)

abbrev pub gets : {S A : Type 0} → (S → A) → Act S A
gets f s = (ok (f s), s)

abbrev pub modify : {S : Type 0} → (S → S) → Act S (Unit {0})
modify f s = (ok tt, f s)

abbrev pub or_raise : {S A : Type 0} → Option A → Failure → Act S A
or_raise none f s = (err f, s)
or_raise (some a) f s = (ok a, s)

module _ {S A B : Type 0} where
  abbrev pub continue : Result A → (A → Act S B) → Act S B
  continue (ok a) k s = k a s
  continue (err f) k s = (err f, s)

  infixl 5 ◌>>=◌ ◌>>◌
  unfoldable pub ◌>>=◌ : Act S A → (A → Act S B) → Act S B
  ◌>>=◌ m k s = let (r, s') = m s in continue r k s'

  abbrev pub ◌>>◌ : Act S A → Act S B → Act S B
  m >> n = m >>= λ _. n

module _ {S A : Type 0} where
  abbrev pub handled : Result A → (Failure → Act S A) → Act S A
  handled (ok a) h s = (ok a, s)
  handled (err f) h s = h f s

  -- An action, and what is done about its failure.
  unfoldable pub rescue : Act S A → (Failure → Act S A) → Act S A
  rescue m h s = let (r, s') = m s in handled r h s'

  -- What an action leaves: a value, or a failure.
  abbrev pub Post : (A → S → Type 0) → (S → Type 0) → Result A × S → Type 0
  Post Q E (ok a, s) = Q a s
  Post Q E (err f, s) = E s

  -- From a state with `P`, an action returns with `Q` or fails with `E`.
  pub record Meets (P : S → Type 0) (Q : A → S → Type 0) (E : S → Type 0) (m : Act S A)
      : Type 0 where
    pub at : (s : S) → P s → Post Q E (m s)

module _ {S A : Type 0} {Q : A → S → Type 0} {E : S → Type 0} where
  Post-handled :
      (h : Failure → Act S A) (F : S → Type 0) (r : Result A) (s : S)
      → Post Q F (r, s)
      → ((f : Failure) → Meets F Q E (h f))
      → Post Q E (handled r h s)
  Post-handled h F (ok a) s p k = p
  Post-handled h F (err f) s p k = (k f).at s p

module _ {S A : Type 0} {P : S → Type 0} {Q : A → S → Type 0} {E : S → Type 0} where
  pub Meets-pure : (a : A) → ((s : S) → P s → Q a s) → Meets P Q E (pure a)
  Meets-pure a h = record { at = h }

  -- A fact that does not depend on the state is taken out of the precondition.
  pub Meets-given : {F : Type 0} (m : Act S A) → (F → Meets P Q E m) → Meets (λ s. P s × F) Q E m
  Meets-given m k = record { at = λ s h. (k h.1).at s h.0 }

  pub Meets-gets : (f : S → A) → ((s : S) → P s → Q (f s) s) → Meets P Q E (gets f)
  Meets-gets f h = record { at = h }

  pub Meets-raise : (f : Failure) → ((s : S) → P s → E s) → Meets P Q E (raise {A = A} f)
  Meets-raise f h = record { at = h }

  pub Meets-or_raise :
      (o : Option A) (f : Failure)
      → ((a : A) → o ≡ some a → (s : S) → P s → Q a s)
      → ((s : S) → P s → E s)
      → Meets P Q E (or_raise o f)
  Meets-or_raise none f h k = record { at = k }
  Meets-or_raise (some a) f h k = record { at = h a refl }

  pub Meets-if :
      (b : Bool) (m n : Act S A)
      → (b ≡ true → Meets P Q E m)
      → (b ≡ false → Meets P Q E n)
      → Meets P Q E (if b then m else n)
  Meets-if true m n h k = h refl
  Meets-if false m n h k = k refl

  pub Meets-rescue :
      (F : S → Type 0) (m : Act S A) (h : Failure → Act S A)
      → Meets P Q F m
      → ((f : Failure) → Meets F Q E (h f))
      → Meets P Q E (rescue m h)
  unfolding rescue
  Meets-rescue F m h meets k = record {
    at = λ s p. let (r, s') = m s in Post-handled h F r s' (meets.at s p) k;
  }

module _ {S A : Type 0} (P : S → Type 0) where
  pub Post-both : (r : Result A) (s : S) → P s → Post (λ (_ : A). P) P (r, s)
  Post-both (ok a) s h = h
  Post-both (err f) s h = h

module _ {S A : Type 0} {Q R : A → S → Type 0} {E F : S → Type 0} where
  pub Post-map :
      (r : Result A × S)
      → ((a : A) (s : S) → Q a s → R a s)
      → ((s : S) → E s → F s)
      → Post Q E r
      → Post R F r
  Post-map (ok a, s) k l h = k a s h
  Post-map (err f, s) k l h = l s h

module _ {S A : Type 0} {P : S → Type 0} {Q R : A → S → Type 0} {E : S → Type 0} where
  pub Meets-post : {m : Act S A} → ((a : A) (s : S) → Q a s → R a s) → Meets P Q E m → Meets P R E m
  Meets-post {m = m} k h = record { at = λ s p. Post-map (m s) k (λ _ e. e) (h.at s p) }

module _ {S A B : Type 0} {R : B → S → Type 0} {E : S → Type 0} where
  Post-continue :
      (k : A → Act S B) (Q : A → S → Type 0) (r : Result A) (s : S)
      → Post Q E (r, s)
      → ((a : A) → Meets (Q a) R E (k a))
      → Post R E (continue r k s)
  Post-continue k Q (ok a) s p h = (h a).at s p
  Post-continue k Q (err f) s p h = p

module _ {S A B : Type 0} {P : S → Type 0} {R : B → S → Type 0} {E : S → Type 0} where
  pub Meets-bind :
      (Q : A → S → Type 0) (m : Act S A) (k : A → Act S B)
      → Meets P Q E m
      → ((a : A) → Meets (Q a) R E (k a))
      → Meets P R E (m >>= k)
  unfolding ◌>>=◌
  Meets-bind Q m k meets h = record {
    at = λ s p. let (r, s') = m s in Post-continue k Q r s' (meets.at s p) h;
  }
