-- ===== src/Json/Decode.antt =====
-- json.Unmarshal into `any`, `string` and `map[string]json.RawMessage`.
use velocity_mcp.Base.{
  Bool, List, Option, [], if◌then◌else◌, leb, none, some, true, ℕ, ◌&&◌, ◌+◌, ◌==◌, ◌>>=◌, ◌∷◌,
}
use velocity_mcp.Bytes.{Bytes, equal}
use velocity_mcp.Assoc.{Assoc, insert}
use velocity_mcp.Json.{
  Field, Items, Json, Members, arr, bool, cons, end, member, nil, null, num, obj, parse,
  parse_fields, str,
}
use velocity_mcp.Json.Number.{in_float_range}

-- Whether every number can be held by a float64.
unfoldable mutual
  pub fits : Json → Bool
  fits null = true
  fits (bool b) = true
  fits (num token) = in_float_range token
  fits (str s) = true
  fits (arr vs) = fits_items vs
  fits (obj ms) = fits_members ms

  pub fits_items : Items → Bool
  fits_items nil = true
  fits_items (cons v vs) = fits v && fits_items vs

  pub fits_members : Members → Bool
  fits_members end = true
  fits_members (member k v ms) = fits v && fits_members ms

unfoldable pub unmarshal_any : Bytes → Option Json
unmarshal_any s = parse s >>= λ v. if fits v then some v else none

-- Into a string: a null leaves the destination, which is empty.
abbrev pub as_string : Json → Option Bytes
as_string null = some []
as_string (str s) = some s
as_string (bool b) = none
as_string (num token) = none
as_string (arr vs) = none
as_string (obj ms) = none

unfoldable pub unmarshal_string : Bytes → Option Bytes
unmarshal_string s = parse s >>= as_string

abbrev pub RawMembers : Type 0
RawMembers = Assoc Bytes

unfoldable pub raw_members : RawMembers → List Field → RawMembers
unfolding insert
raw_members m [] = m
raw_members m (f ∷ fs) = raw_members (insert f.name f.raw m) fs

abbrev raw_of : Json → Option (List Field) → Option (Option RawMembers)
raw_of null fields = some none
raw_of (obj ms) none = none
raw_of (obj ms) (some fields) = some (some (raw_members [] fields))
raw_of (bool b) fields = none
raw_of (num token) fields = none
raw_of (str s) fields = none
raw_of (arr vs) fields = none

-- Into a map of raw members: `some none` is the nil map, which a null gives.
unfoldable pub unmarshal_members : Bytes → Option (Option RawMembers)
unmarshal_members s = parse s >>= λ v. raw_of v (parse_fields s)

-- Reading from a nil map is reading from an empty one.
abbrev pub or_empty {ℓ} : {V : Type ℓ} → Option (Assoc V) → Assoc V
or_empty none = []
or_empty (some m) = m

-- A field of a struct is matched by a name without regard to case, and to the Kelvin sign and
-- the long s, which fold to letters.
abbrev lower : ℕ → ℕ
lower c = if leb b'A' c && leb c b'Z' then c + 32 else c

unfoldable pub fold_name : Bytes → Bytes
fold_name [] = []
fold_name (a ∷ []) = lower a ∷ []
fold_name (a ∷ b ∷ []) =
    let plain = lower a ∷ fold_name (b ∷ []) in if a == 0xC5 && b == 0xBF then b's' ∷ [] else plain
fold_name (a ∷ b ∷ c ∷ s) =
    let plain = lower a ∷ fold_name (b ∷ c ∷ s) in
    let long_s = b's' ∷ fold_name (c ∷ s) in
    let kelvin = b'k' ∷ fold_name s in
    if a == 0xE2 && b == 0x84 && c == 0xAA
    then kelvin
    else if a == 0xC5 && b == 0xBF
    then long_s
    else plain

unfoldable pub same_field : Bytes → Bytes → Bool
unfolding equal fold_name
same_field field name = equal (fold_name name) (fold_name field)
