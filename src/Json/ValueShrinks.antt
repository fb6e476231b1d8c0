-- ===== src/Json/ValueShrinks.antt =====
-- Arrays, objects and values consume text.
use velocity_mcp.Base.{
  Bool-cases, List, Option, [], ap, arith, drop, inl, inr, length, length-drop, none-ne-some, some,
  some-eq, suc, true, zero, ℕ, ◌<◌, ◌||◌, ◌≡◌,
}
use velocity_mcp.Bytes.{Bytes}
use velocity_mcp.Json.{
  Json, Reader, arr, end, obj, read_array, read_field, read_object, read_value, skip_space,
  to_items, to_members,
}
use velocity_mcp.Json.Number.{first_is}
use velocity_mcp.Json.Shrinks.{Shrinks, drop_le, mapped-short, read_list-Shrinks, skip_space_le}
use velocity_mcp.Json.ScalarShrinks.{first_is-length, read_field-Shrinks, read_scalar-Shrinks}

closed_short :
    {A : Type 0} (c : ℕ) (s : Bytes) (r : List A × Bytes)
    → first_is c (skip_space s) ≡ true
    → ◌≡◌ {A = Option (List A × Bytes)} (some ([], drop 1 (skip_space s))) (some r)
    → length r.1 < length s
closed_short c s r e h =
    let same : drop 1 (skip_space s) ≡ r.1 = ap (λ p. p.1) (some-eq h) in
    omega (
      arith,
      ap length same,
      length-drop 1 (skip_space s),
      first_is-length c (skip_space s) e,
      skip_space_le s,
    )

read_array-Shrinks : (val : Reader Json) → Shrinks val → Shrinks (read_array val)
unfolding read_array
read_array-Shrinks val shrinks s r h = elim (Bool-cases (first_is b']' (skip_space s))) [
  | inl e ↦ closed_short b']' s r e (rw e at h)
  | inr e ↦ read_list-Shrinks b']' val shrinks (suc (length s)) s r (rw e at h)
]

read_object-Shrinks : (val : Reader Json) → Shrinks val → Shrinks (read_object val)
unfolding read_object
read_object-Shrinks val shrinks s r h = elim (Bool-cases (first_is b'}' (skip_space s))) [
  | inl e ↦ closed_short b'}' s r e (rw e at h)
  | inr e ↦
      read_list-Shrinks b'}' (read_field val) (read_field-Shrinks val shrinks) (suc (length s)) s r
        (rw e at h)
]

inner_short : (s r : Bytes) → length r < length (drop 1 (skip_space s)) → length r < length s
inner_short s r h = omega (arith, h, drop_le 1 (skip_space s), skip_space_le s)

pub read_value-Shrinks : (d : ℕ) → Shrinks (read_value d)
unfolding read_value
read_value-Shrinks zero s r h =
    elim (Bool-cases (first_is b'[' (skip_space s) || first_is b'{' (skip_space s))) [
      | inl e ↦ absurd (none-ne-some (rw e at h))
      | inr e ↦ omega (arith, read_scalar-Shrinks (skip_space s) r (rw e at h), skip_space_le s)
    ]
read_value-Shrinks (suc d) s r h =
    let t = skip_space s in
    elim (Bool-cases (first_is b'[' t)) [
      | inl e ↦ inner_short s r.1 (
          mapped-short (read_array (read_value d) (drop 1 t)) (λ v. arr (to_items v)) _ r
            (read_array-Shrinks (read_value d) (read_value-Shrinks d) (drop 1 t))
            (rw (e, read_value) at h))
      | inr e ↦ elim (Bool-cases (first_is b'{' t)) [
        | inl f ↦ inner_short s r.1 (
            mapped-short (read_object (read_value d) (drop 1 t)) (λ v. obj (to_members end v)) _ r
              (read_object-Shrinks (read_value d) (read_value-Shrinks d) (drop 1 t))
              (rw (e, f, read_value) at h))
        | inr f ↦
            omega (arith, read_scalar-Shrinks t r (rw (e, f, read_value) at h), skip_space_le s)
      ]
    ]
