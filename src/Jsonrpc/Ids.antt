-- ===== src/Jsonrpc/Ids.antt =====
-- Which tokens are request ids.
use velocity_mcp.Base.{
  ==_iff, All, Bool-cases, [], all, ap, arith, false, inl, inr, leb, refl, true, ℕ, ◌&&◌, ◌==◌, ◌↔◌,
  ◌∷◌, ◌≡◌, ◌≢◌, ◌≤◌, ◌⊎◌,
}
use velocity_mcp.Bytes.{Bytes}
use velocity_mcp.Jsonrpc.{
  MessageId, is_json_integer, is_json_natural, is_null, is_string_or_integer, is_valid_request_id,
  trim_space,
}

abbrev pub IsDigit : ℕ → Type 0
IsDigit c = (48 ≤ c) × (c ≤ 57)

-- The natural numbers of JSON: a zero alone, or digits that do not begin with one.
pub data JsonNatural : Bytes → Type 0 where
  zero_alone : JsonNatural (48 ∷ [])
  counted : {b : ℕ} {t : Bytes} → b ≢ 48 → All IsDigit (b ∷ t) → JsonNatural (b ∷ t)

-- The `int` production: a natural number, with a minus sign in front or not.
pub data JsonInteger : Bytes → Type 0 where
  unsigned : {t : Bytes} → JsonNatural t → JsonInteger t
  signed : {t : Bytes} → JsonNatural t → JsonInteger (45 ∷ t)

all-IsDigit : (t : Bytes) → all (λ c. leb b'0' c && leb c b'9') t ≡ true → All IsDigit t
all-IsDigit [] h = tt
all-IsDigit (c ∷ t) h = (ground arith, all-IsDigit t (ground arith))

pub IsDigit-all : (t : Bytes) → All IsDigit t → all (λ c. leb b'0' c && leb c b'9') t ≡ true
IsDigit-all [] h = refl
IsDigit-all (c ∷ t) (p, h) = ground (arith, IsDigit-all t h)

natural_sound : (t : Bytes) → is_json_natural t ≡ true → JsonNatural t
unfolding is_json_natural
natural_sound [] h = cc
natural_sound (b ∷ t) h = elim (Bool-cases (b == b'0')) [
  | inl e ↦
      let is_zero : b ≡ 48 = (==_iff b 48).0 e in
      let alone : t ≡ [] = ground (arith, h) in rw (is_zero, alone) zero_alone
  | inr e ↦ counted (λ z. cc (e, (==_iff b 48).1 z)) (all-IsDigit (b ∷ t) (rw e at h))
]

natural_complete : {t : Bytes} → JsonNatural t → is_json_natural t ≡ true
unfolding is_json_natural
natural_complete zero_alone = refl
natural_complete (counted {b} {t} ne h) = ground (arith, IsDigit-all (b ∷ t) h)

integer_sound : (t : Bytes) → is_json_integer t ≡ true → JsonInteger t
unfolding is_json_integer
integer_sound [] h = unsigned (natural_sound [] h)
integer_sound (b ∷ t) h = elim (Bool-cases (b == b'-')) [
  | inl e ↦
      let minus : b ≡ 45 = (==_iff b 45).0 e in rw minus (signed (natural_sound t (rw e at h)))
  | inr e ↦ unsigned (natural_sound (b ∷ t) (rw e at h))
]

natural-no_sign : {b : ℕ} {t : Bytes} → JsonNatural (b ∷ t) → (b == b'-') ≡ false
natural-no_sign zero_alone = refl
natural-no_sign (counted ne h) = ground arith

integer_complete : {t : Bytes} → JsonInteger t → is_json_integer t ≡ true
unfolding is_json_integer
integer_complete (unsigned {t = []} n) = natural_complete n
integer_complete (unsigned {t = b ∷ t} n) = rw (natural-no_sign n) (natural_complete n)
integer_complete (signed n) = natural_complete n

-- `isJSONInteger` accepts exactly the `int` production of JSON.
pub is_json_integer_iff : (t : Bytes) → (is_json_integer t ≡ true) ↔ JsonInteger t
is_json_integer_iff t = (integer_sound t, integer_complete)

-- A valid id is not null: its token is a string or an integer.
pub is_valid_request_id_lem :
    (id : MessageId)
    → is_valid_request_id id ≡ true
    → (is_null id ≡ false)
      × (((s : Bytes) × (trim_space id.raw ≡ b'"' ∷ s)) ⊎ JsonInteger (trim_space id.raw))
unfolding is_valid_request_id
is_valid_request_id_lem id h = elim (Bool-cases (is_null id)) [
  | inl e ↦ absurd (cc (rw e at h))
  | inr e ↦ (e, kind (trim_space id.raw) (rw e at h))
]
  where
    kind :
        (t : Bytes) → is_string_or_integer t ≡ true → ((s : Bytes) × (t ≡ b'"' ∷ s)) ⊎ JsonInteger t
    kind [] k = absurd (cc k)
    kind (b ∷ t) k = elim (Bool-cases (b == b'"')) [
      | inl e ↦ inl (t, ap (λ c. c ∷ t) ((==_iff b 34).0 e))
      | inr e ↦ inr (integer_sound (b ∷ t) (rw e at k))
    ]
