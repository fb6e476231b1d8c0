-- ===== src/Json/Shrinks.antt =====
-- The reader consumes text.
use velocity_mcp.Base.{
  Bool, List, Option, Option-cases, [], arith, drop, false, if◌then◌else◌, inl, inr, length,
  length-drop, none, none-ne-some, refl, some, some-eq, subst, suc, true, zero, ℕ, ◌<◌, ◌>>=◌, ◌∷◌,
  ◌≡◌, ◌≤◌,
}
use velocity_mcp.Bytes.{Bytes}
use velocity_mcp.Json.{Reader, read_list, skip_space}

-- What is left behind a value is shorter than what was read.
abbrev pub Shrinks : {A : Type 0} → Reader A → Type 0
Shrinks {A} val = (s : Bytes) (r : A × Bytes) → val s ≡ some r → length r.1 < length s

pub skip_space_le : (s : Bytes) → length (skip_space s) ≤ length s
unfolding skip_space
skip_space_le [] = omega arith
skip_space_le (c ∷ s) = ground (arith, skip_space_le s)

pub drop_le : (n : ℕ) (s : Bytes) → length (drop n s) ≤ length s
drop_le n s = omega (arith, length-drop n s)

more-short :
    {A : Type 0} (comma bracket : Bool) (more : Option (List A × Bytes)) (x : A) (end' : Bytes)
    (n : ℕ) (r : List A × Bytes)
    → ((q : List A × Bytes) → more ≡ some q → length q.1 < n)
    → length end' < n
    → ◌≡◌ {A = Option (List A × Bytes)}
        (if comma
          then (more >>= λ q. some (x ∷ q.0, q.1))
          else if bracket
          then some (x ∷ [], end')
          else none)
        (some r)
    → length r.1 < n
more-short true b none x e n r f g h = absurd (none-ne-some h)
more-short true b (some q) x e n r f g h =
    subst (λ (p : List _ × Bytes). length p.1 < n) (some-eq h) (f q refl)
more-short false true more x e n r f g h =
    subst (λ (p : List _ × Bytes). length p.1 < n) (some-eq h) g
more-short false false more x e n r f g h = absurd (none-ne-some h)

pub mapped-short :
    {A B : Type 0} (o : Option (A × Bytes)) (f : A → B) (n : ℕ) (q : B × Bytes)
    → ((r : A × Bytes) → o ≡ some r → length r.1 < n)
    → ◌≡◌ {A = Option (B × Bytes)} (o >>= λ r. some (f r.0, r.1)) (some q)
    → length q.1 < n
mapped-short none f n q h e = absurd (none-ne-some e)
mapped-short (some r) f n q h e = subst (λ (p : _ × Bytes). length p.1 < n) (some-eq e) (h r refl)

-- The loop over the elements or members: what stands behind one is shorter.
module _ {A : Type 0} (close : ℕ) (val : Reader A) (shrinks : Shrinks val) where
  pub behind :
      (s : Bytes) (v : A × Bytes) → val s ≡ some v → length (drop 1 (skip_space v.1)) < length s
  behind s v h = omega (arith, shrinks s v h, skip_space_le v.1, drop_le 1 (skip_space v.1))

  pub read_list-Shrinks : (n : ℕ) → Shrinks (read_list close val n)
  unfolding read_list
  read_list-Shrinks zero s r h = absurd (none-ne-some h)
  read_list-Shrinks (suc n) s r h = elim (Option-cases (val s)) [
    | inl e ↦ absurd (none-ne-some (rw (e, read_list) at h))
    | inr (v, e) ↦
        let b = behind s v e in
        more-short _ _ _ v.0 _ (length s) r
          (λ q k. let q_short = read_list-Shrinks n (drop 1 (skip_space v.1)) q k in omega arith) b
          (rw (e, read_list) at h)
  ]
