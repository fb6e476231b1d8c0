-- ===== src/Json.antt =====
-- encoding/json, as far as the source calls it: the values, the reader and the decoders into
-- `any`, `string` and `map[string]json.RawMessage`.
pub mod Text
pub mod Number
pub mod Decode
pub mod Encode
pub mod Marshal
pub mod Shrinks
pub mod ScalarShrinks
pub mod ValueShrinks
pub mod Fuel
pub mod Tests
use velocity_mcp.Base.{
  Bool, List, Option, [], drop, false, if◌then◌else◌, is_some, length, none, some, suc, take, true,
  zero, ℕ, ◌-◌, ◌==◌, ◌>>=◌, ◌||◌, ◌∷◌,
}
use velocity_mcp.Bytes.{Bytes, codes, equal, has_prefix}
use velocity_mcp.Json.Text.{literal, plain, unquote}
use velocity_mcp.Json.Number.{first_is, number}

-- A decoded value. A number is kept as its literal.
mutual
  pub data Json : Type 0 where
    null : Json
    bool : Bool → Json
    num : Bytes → Json
    str : Bytes → Json
    arr : Items → Json
    obj : Members → Json

  pub data Items : Type 0 where
    nil : Items
    cons : Json → Items → Items

  pub data Members : Type 0 where
    end : Members
    member : Bytes → Json → Members → Members

unfoldable pub items : Items → List Json
items nil = []
items (cons v vs) = v ∷ items vs

-- `m[key]` of a decoded object.
unfoldable pub find : Bytes → Members → Option Json
unfolding equal
find key end = none
find key (member k v ms) = if equal k key then some v else find key ms

-- `m[key] = v`: a key stands once.
unfoldable pub put : Bytes → Json → Members → Members
unfolding equal
put key v end = member key v end
put key v (member k w ms) = if equal k key then member k v ms else member k w (put key v ms)

-- A member as it is read: its name, the bytes of its value, and the value.
pub record Field : Type 0 where
  pub name : Bytes
  pub raw : Bytes
  pub val : Json

unfoldable pub to_items : List Json → Items
to_items [] = nil
to_items (v ∷ vs) = cons v (to_items vs)

-- The object of the members read, in order: the last of a name wins.
unfoldable pub to_members : Members → List Field → Members
unfolding put
to_members ms [] = ms
to_members ms (f ∷ fs) = to_members (put f.name f.val ms) fs

abbrev pub is_json_space : ℕ → Bool
is_json_space c = c == 32 || c == 9 || c == 13 || c == 10

unfoldable pub skip_space : Bytes → Bytes
skip_space [] = []
skip_space (c ∷ s) = let shorter = skip_space s in if is_json_space c then shorter else c ∷ s

abbrev pub Reader : Type 0 → Type 0
Reader A = Bytes → Option (A × Bytes)

-- What stands in an array or object, from behind a bracket or a comma to the closing bracket; the
-- number bounds the count.
unfoldable pub read_list : {A : Type 0} → ℕ → Reader A → ℕ → Reader (List A)
read_list close val zero s = none
read_list close val (suc n) s = do
  v ← val s
  let t = skip_space v.1
  let more = read_list close val n (drop 1 t) >>= λ r. some (v.0 ∷ r.0, r.1)
  if first_is b',' t then more else if first_is close t then some (v.0 ∷ [], drop 1 t) else none

-- A string literal, its first quote included.
unfoldable pub read_text : Reader Bytes
unfolding literal unquote
read_text s =
    if first_is b'"' s then (literal plain (drop 1 s) >>= λ r. some (unquote r.0, r.1)) else none

unfoldable pub read_field : Reader Json → Reader Field
read_field val s = do
  k ← read_text (skip_space s)
  let t = skip_space k.1
  let u = skip_space (drop 1 t)
  v ← if first_is b':' t then val u else none
  some (record { name = k.0; raw = take (length u - length v.1) u; val = v.0 }, v.1)

-- An array or object, from behind its opening bracket.
unfoldable pub read_array : Reader Json → Reader (List Json)
read_array val s =
    if first_is b']' (skip_space s)
    then some ([], drop 1 (skip_space s))
    else read_list b']' val (suc (length s)) s

unfoldable pub read_object : Reader Json → Reader (List Field)
read_object val s =
    if first_is b'}' (skip_space s)
    then some ([], drop 1 (skip_space s))
    else read_list b'}' (read_field val) (suc (length s)) s

unfoldable pub read_word : Bytes → Json → Reader Json
unfolding has_prefix
read_word w v s = if has_prefix s w then some (v, drop (length w) s) else none

-- A value that holds no other.
unfoldable pub read_scalar : Reader Json
read_scalar s =
    if first_is b'"' s
    then (read_text s >>= λ r. some (str r.0, r.1))
    else if first_is b't' s
    then read_word (codes "true") (bool true) s
    else if first_is b'f' s
    then read_word (codes "false") (bool false) s
    else if first_is b'n' s
    then read_word (codes "null") null s
    else (number s >>= λ r. some (num r.0, r.1))

-- A value, in at most so many nested arrays and objects.
unfoldable pub read_value : ℕ → Reader Json
read_value zero s =
    let t = skip_space s in if first_is b'[' t || first_is b'{' t then none else read_scalar t
read_value (suc n) s =
    let t = skip_space s in
    let array = read_array (read_value n) (drop 1 t) >>= λ r. some (arr (to_items r.0), r.1) in
    let object =
      read_object (read_value n) (drop 1 t) >>= λ r. some (obj (to_members end r.0), r.1) in
    if first_is b'[' t then array else if first_is b'{' t then object else read_scalar t

-- `maxNestingDepth` of the scanner.
abbrev pub max_nesting : ℕ
max_nesting = 10000

-- What is read must reach the end of the text.
unfoldable pub whole {ℓ} : {A : Type ℓ} → Option (A × Bytes) → Option A
whole none = none
whole (some (v, r)) = if equal (skip_space r) [] then some v else none

unfoldable pub parse : Bytes → Option Json
parse s = whole (read_value max_nesting s)

-- `json.Valid`.
unfoldable pub valid : Bytes → Bool
unfolding parse
valid s = is_some (parse s)

-- The members of an object text with the bytes of their values.
unfoldable pub parse_fields : Bytes → Option (List Field)
parse_fields s =
    let t = skip_space s in
    if first_is b'{' t then whole (read_object (read_value (max_nesting - 1)) (drop 1 t)) else none
