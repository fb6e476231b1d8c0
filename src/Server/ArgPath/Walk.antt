-- ===== src/Server/ArgPath/Walk.antt =====
-- The walk along the segments of a path.
use velocity_mcp.Base.{
  >>=-eq-some, Bool, Bool-cases, List, Option, Option-cases, [], any, ap, ap₂, arith, false,
  if◌then◌else◌, inl, inr, length, map, none, none-ne-some, refl, some, some-eq, suc, sym, true,
  zero, ℕ, ◌<◌, ◌==◌, ◌>>=◌, ◌∙◌, ◌∷◌, ◌≡◌,
}
use velocity_mcp.Bytes.{Bytes, equal}
use velocity_mcp.Json.{Json, Members, arr, bool, find, null, num, obj, str, to_items}
use velocity_mcp.Server.ArgPath.{
  Cut, collapse, collect, cut, elements, engine_parts, engine_value, has_wildcard_from,
  has_wildcard_segment, is_star, lookup_argument, named_member, object_members, or_null,
  resolve_from, resolve_path, split, step,
}
use velocity_mcp.Bytes.Laws.{equal-eq}

-- What a path addresses, by its segments: each names a member, and a star stands for every element,
-- whose results are listed, and spliced where a further star follows.
unfoldable pub walk : Json → List Bytes → Option Json
walk target [] = some target
walk target (segment ∷ segments) = elim (is_star segment) [
  | true ↦ elements target >>= λ elems.
      let out = map (λ e. or_null (walk e segments)) elems in
      some (arr (to_items (if any is_star segments then collapse out else out)))
  | false ↦ named_member target segment >>= λ v. walk v segments
]

abbrev behind : Cut → List Bytes
behind c = if c.found then split c.after else []

cut-split : (p : Bytes) → split p ≡ (cut p).before ∷ behind (cut p)
unfolding cut split
cut-split [] = refl
cut-split (c ∷ s) = elim (Bool-cases (c == b'.')) [
  | inl e ↦ rw e refl
  | inr e ↦ rw (e, cut-split s) refl
]

cut-shorter : (p : Bytes) → (cut p).found ≡ true → length (cut p).after < length p
unfolding cut
cut-shorter [] h = absurd (cc h)
cut-shorter (c ∷ s) h = ground (arith, cut-shorter s)

cut-last : (p : Bytes) → (cut p).found ≡ false → (cut p).after ≡ []
unfolding cut
cut-last [] h = refl
cut-last (c ∷ s) h = ground (arith, cut-last s)

has_wildcard-nil : (n : ℕ) → has_wildcard_from n [] ≡ false
unfolding has_wildcard_from equal
has_wildcard-nil zero = refl
has_wildcard-nil (suc n) = refl

has_wildcard-split :
    (n : ℕ) (p : Bytes) → length p < n → has_wildcard_from n p ≡ any is_star (split p)
unfolding has_wildcard_from
has_wildcard-split zero p h = elim h [ ]
has_wildcard-split (suc n) p h = elim (Bool-cases (equal p [])) [
  | inl e ↦ rw (e, equal-eq p [] e) (unfold split is_star equal in refl)
  | inr e ↦
      rw (e, cut-split p)
        (elim (Bool-cases (cut p).found) [
          | inl f ↦
              let later = has_wildcard-split n (cut p).after (omega (arith, cut-shorter p f)) in
              rw (f, later) (ground arith)
          | inr f ↦ rw (f, cut-last p f, has_wildcard-nil n) (ground arith)
        ])
]

map-ext {ℓ κ} :
    {A : Type ℓ} {B : Type κ} (f g : A → B)
    → ((x : A) → f x ≡ g x)
    → (xs : List A) → map f xs ≡ map g xs
map-ext f g h [] = refl
map-ext f g h (x ∷ xs) = ap₂ (λ y ys. y ∷ ys) (h x) (map-ext f g h xs)

-- What a star gives in the walk.
star : Json → List Bytes → Option Json
star target segments = elements target >>= λ elems.
    let out = map (λ e. or_null (walk e segments)) elems in
    some (arr (to_items (if any is_star segments then collapse out else out)))

walk-cons :
    (target : Json) (segment : Bytes) (segments : List Bytes)
    → walk target (segment ∷ segments) ≡ (
        if is_star segment
        then star target segments
        else (named_member target segment >>= λ v. walk v segments))
unfolding walk star
walk-cons target segment segments = elim (Bool-cases (is_star segment)) [
  | inl e ↦ rw (e, walk) refl
  | inr e ↦ rw (e, walk) refl
]

collect-star :
    (w : Json → Bytes → Option Json) (target : Json) (rest : Bytes) (segments : List Bytes)
    (more : Bool)
    → ((e : Json) → (if more then or_null (w e rest) else e) ≡ or_null (walk e segments))
    → has_wildcard_segment rest ≡ any is_star segments
    → collect w target rest more ≡ star target segments
unfolding collect star
collect-star w target rest segments more each stars = elim (Option-cases (elements target)) [
  | inl e ↦ rw e refl
  | inr (elems, e) ↦ rw (e, map-ext _ _ each elems, stars) refl
]

step-walk :
    (w : Json → Bytes → Option Json) (c : Cut) (o : Option Json)
    → ((v : Json) → (if c.found then w v c.after else some v) ≡ walk v (behind c))
    → step w c o ≡ (o >>= λ v. walk v (behind c))
step-walk w c none h = refl
step-walk w c (some v) h = h v

-- The rest of a path behind a segment is walked alike.
rest-walk :
    (n : ℕ) (p : Bytes)
    → length p < suc n
    → ((v : Json) (q : Bytes) → length q < n → resolve_from n v q ≡ walk v (split q))
    → (v : Json)
    → (if (cut p).found then resolve_from n v (cut p).after else some v) ≡ walk v (behind (cut p))
unfolding walk
rest-walk n p h same v = elim (Bool-cases (cut p).found) [
  | inl f ↦ rw f (same v (cut p).after (omega (arith, cut-shorter p f)))
  | inr f ↦ rw f refl
]

rest-stars : (p : Bytes) → has_wildcard_segment (cut p).after ≡ any is_star (behind (cut p))
unfolding has_wildcard_segment
rest-stars p = elim (Bool-cases (cut p).found) [
  | inl f ↦ rw f (has_wildcard-split (suc (length (cut p).after)) (cut p).after (omega arith))
  | inr f ↦ rw (f, cut-last p f) (has_wildcard-nil 1)
]

or_null-if :
    (b : Bool) (o : Option Json) (e : Json)
    → (if b then or_null o else e) ≡ or_null (if b then o else some e)
or_null-if true o e = refl
or_null-if false o e = refl

resolve_from-walk :
    (n : ℕ) (target : Json) (p : Bytes)
    → length p < n
    → resolve_from n target p ≡ walk target (split p)
unfolding resolve_from
resolve_from-walk zero target p h = elim h [ ]
resolve_from-walk (suc n) target p h =
    let rest = rest-walk n p h (resolve_from-walk n) in
    let stars =
      collect-star (resolve_from n) target (cut p).after (behind (cut p)) (cut p).found
        (λ e. or_null-if (cut p).found (resolve_from n e (cut p).after) e ∙ ap or_null (rest e))
        (rest-stars p) in
    let steps = step-walk (resolve_from n) (cut p) (named_member target (cut p).before) rest in
    ap₂ (λ x y. if is_star (cut p).before then x else y) stars steps
    ∙ sym (ap (walk target) (cut-split p) ∙ walk-cons target (cut p).before (behind (cut p)))

-- `resolvePath` walks along the segments of the path: the loop ends, and finds what the walk finds.
pub resolve_path-walk : (target : Json) (p : Bytes) → resolve_path target p ≡ walk target (split p)
unfolding resolve_path
resolve_path-walk target p = resolve_from-walk (suc (length p)) target p (omega arith)

object_members-obj : (v : Json) {ms : Members} → object_members v ≡ some ms → v ≡ obj ms
object_members-obj (obj ms) h = ap obj (some-eq h)
object_members-obj null h = absurd (none-ne-some h)
object_members-obj (bool b) h = absurd (none-ne-some h)
object_members-obj (num token) h = absurd (none-ne-some h)
object_members-obj (str s) h = absurd (none-ne-some h)
object_members-obj (arr vs) h = absurd (none-ne-some h)

walk-name :
    (target : Json) (segment : Bytes) (segments : List Bytes)
    → is_star segment ≡ false
    → walk target (segment ∷ segments) ≡ (named_member target segment >>= λ v. walk v segments)
walk-name target segment segments e = walk-cons target segment segments ∙ rw e refl

engine_parts-walk :
    (ms : Members) (parts : List Bytes) (v : Json)
    → any is_star parts ≡ false
    → engine_parts ms parts ≡ some v
    → walk (obj ms) parts ≡ some v
unfolding engine_parts named_member
engine_parts-walk ms [] v plain h = absurd (none-ne-some h)
engine_parts-walk ms (part ∷ []) v plain h =
    walk-name (obj ms) part [] (ground (arith, plain)) ∙ rw h (unfold walk in refl)
engine_parts-walk ms (part ∷ next ∷ parts) v plain h =
    let (x, found, h1) = >>=-eq-some (find part ms >>= object_members) _ h in
    let (y, hy, hx) = >>=-eq-some (find part ms) object_members found in
    walk-name (obj ms) part (next ∷ parts) (ground (arith, plain))
    ∙ rw (hy, object_members-obj y hx)
        (engine_parts-walk x (next ∷ parts) v (ground (arith, plain)) h1)

-- For a field without a wildcard, whatever the validation engine finds is what the accessors read,
-- unless a template bound the name.
pub lookup_argument-engine_value :
    (args : Members) (uri_vars : List Bytes) (field : Bytes) (v : Json)
    → any (λ name. equal name field) uri_vars ≡ false
    → has_wildcard_segment field ≡ false
    → engine_value args field ≡ some v
    → lookup_argument (record { args = some args; uri_vars = uri_vars }) field ≡ some v
unfolding lookup_argument engine_value has_wildcard_segment
lookup_argument-engine_value args uri_vars field v unbound plain h =
    let no_stars = sym (has_wildcard-split (suc (length field)) field (omega arith)) ∙ plain in
    let found =
      resolve_path-walk (obj args) field ∙ engine_parts-walk args (split field) v no_stars h in
    rw (unbound, found) refl
