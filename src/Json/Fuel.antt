-- ===== src/Json/Fuel.antt =====
-- The number which bounds the loops of the reader is never what stops it.
use velocity_mcp.Base.{Option-cases, arith, drop, inl, inr, length, refl, suc, zero, ℕ, ◌<◌, ◌≡◌}
use velocity_mcp.Bytes.{Bytes}
use velocity_mcp.Json.{Reader, read_field, read_list, read_value, skip_space}
use velocity_mcp.Json.ScalarShrinks.{read_field-Shrinks}
use velocity_mcp.Json.ValueShrinks.{read_value-Shrinks}
use velocity_mcp.Json.Shrinks.{Shrinks, behind}

module _ {A : Type 0} (close : ℕ) (val : Reader A) (shrinks : Shrinks val) where
  read_list-fuel :
      (n m : ℕ) (s : Bytes)
      → length s < n
      → length s < m
      → read_list close val n s ≡ read_list close val m s
  unfolding read_list
  read_list-fuel zero m s h k = elim h [ ]
  read_list-fuel (suc n) zero s h k = elim k [ ]
  read_list-fuel (suc n) (suc m) s h k = elim (Option-cases (val s)) [
    | inl e ↦ rw (e, read_list) refl
    | inr (v, e) ↦
        let b = behind close val shrinks s v e in
        let same = read_list-fuel n m (drop 1 (skip_space v.1)) (omega arith) (omega arith) in
        rw (e, read_list, same) refl
  ]

-- With any number above the length of the text, the elements and members of a value are read alike.
read_list-enough :
    (d n : ℕ) (s : Bytes)
    → length s < n
    → (read_list b']' (read_value d) n s ≡ read_list b']' (read_value d) (suc (length s)) s)
      × (read_list b'}' (read_field (read_value d)) n s
          ≡ read_list b'}' (read_field (read_value d)) (suc (length s)) s)
read_list-enough d n s h =
    let value = read_value-Shrinks d in
    (
      read_list-fuel b']' (read_value d) value n (suc (length s)) s h (omega arith),
      read_list-fuel b'}' (read_field (read_value d)) (read_field-Shrinks (read_value d) value) n
          (suc (length s)) s h (omega arith),
    )
