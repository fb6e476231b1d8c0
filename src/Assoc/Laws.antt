-- ===== src/Assoc/Laws.antt =====
-- Reading a map after a write.
use velocity_mcp.Base.{Bool-cases, [], false, inl, inr, refl, some, ◌∷◌, ◌≡◌}
use velocity_mcp.Bytes.{Bytes, equal}
use velocity_mcp.Bytes.Laws.{equal-eq, equal_refl}
use velocity_mcp.Assoc.{Assoc, insert, lookup}

module _ {ℓ} {V : Type ℓ} where
  pub lookup-insert_self : (k : Bytes) (v : V) (m : Assoc V) → lookup k (insert k v m) ≡ some v
  unfolding lookup insert
  lookup-insert_self k v [] = rw (equal_refl k)
  lookup-insert_self k v ((i, w) ∷ m) = elim (Bool-cases (equal i k)) [
    | inl e ↦ rw (e, e)
    | inr e ↦ rw (e, e) (lookup-insert_self k v m)
  ]

  pub lookup-insert_ne :
      (k j : Bytes) (v : V) (m : Assoc V) → equal k j ≡ false → lookup j (insert k v m) ≡ lookup j m
  unfolding lookup insert
  lookup-insert_ne k j v [] h = rw h
  lookup-insert_ne k j v ((i, w) ∷ m) h = elim (Bool-cases (equal i k)) [
    | inl e ↦ let same : equal i j ≡ false = rw (equal-eq i k e) h in rw (e, same) refl
    | inr e ↦ elim (Bool-cases (equal i j)) [
      | inl f ↦ rw (e, f) refl
      | inr f ↦ rw (e, f) (lookup-insert_ne k j v m h)
    ]
  ]
