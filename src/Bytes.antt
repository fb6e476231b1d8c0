-- ===== src/Bytes.antt =====
-- Go strings and byte slices as lists of byte values, with the functions of the packages
pub mod Search
-- `strings` and `bytes` that the source calls.
pub mod Laws
use Prim.Native.Char.{code}
use velocity_mcp.Base.{
  All, Bool, List, Option, String, [], any, drop, false, if◌then◌else◌, leb, length, none, some,
  suc, take, true, ℕ, ◌&&◌, ◌-◌, ◌<◌, ◌==◌, ◌||◌, ◌∷◌,
}

abbrev pub Bytes : Type 0
Bytes = List ℕ

-- Every element is the value of a byte.
abbrev pub AreBytes : Bytes → Type 0
AreBytes = All (λ b. b < 256)

-- The bytes of a literal, which is ASCII wherever this is used.
abbrev pub codes : String → Bytes
codes String.[] = []
codes (String.◌∷◌ c s) = code c ∷ codes s

-- `==` on strings, `bytes.Equal`.
unfoldable pub equal : Bytes → Bytes → Bool
equal [] [] = true
equal (x ∷ xs) (y ∷ ys) = x == y && equal xs ys
equal _ _ = false

-- `s[i:j]`.
abbrev pub slice : Bytes → ℕ → ℕ → Bytes
slice s i j = take (j - i) (drop i s)

-- `strings.HasPrefix`.
unfoldable pub has_prefix : Bytes → Bytes → Bool
unfolding equal
has_prefix s p = leb (length p) (length s) && equal (take (length p) s) p

-- `strings.HasSuffix`.
unfoldable pub has_suffix : Bytes → Bytes → Bool
unfolding equal
has_suffix s p = leb (length p) (length s) && equal (drop (length s - length p) s) p

-- `strings.Index`: the first position at which `p` starts; `none` for -1.
unfoldable pub index : Bytes → Bytes → Option ℕ
index [] p = if has_prefix [] p then some 0 else none
index (x ∷ s) p =
    let later = index s p in
    if has_prefix (x ∷ s) p then some 0 else elim later [ none ↦ none | some i ↦ some (suc i) ]

-- `strings.LastIndex`: the last such position.
unfoldable pub last_index : Bytes → Bytes → Option ℕ
last_index [] p = if has_prefix [] p then some 0 else none
last_index (x ∷ s) p = elim (last_index s p) [
  | some i ↦ some (suc i)
  | none ↦ if has_prefix (x ∷ s) p then some 0 else none
]

-- `strings.Contains` for a single byte.
unfoldable pub contains_byte : Bytes → ℕ → Bool
contains_byte s c = any (λ b. b == c) s

-- The space that `bytes.TrimSpace` removes from ASCII text.
abbrev pub is_space : ℕ → Bool
is_space c = c == b' ' || leb 9 c && leb c 13

unfoldable pub trim_left : (ℕ → Bool) → Bytes → Bytes
trim_left p [] = []
trim_left p (c ∷ s) = let shorter = trim_left p s in if p c then shorter else c ∷ s

unfoldable pub trim_right : (ℕ → Bool) → Bytes → Bytes
trim_right p [] = []
trim_right p (c ∷ s) = elim (trim_right p s) [ [] ↦ if p c then [] else c ∷ [] | d ∷ r ↦ c ∷ d ∷ r ]

unfoldable pub trim : (ℕ → Bool) → Bytes → Bytes
unfolding trim_left trim_right
trim p s = trim_right p (trim_left p s)
