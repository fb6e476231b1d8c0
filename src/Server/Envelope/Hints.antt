-- ===== src/Server/Envelope/Hints.antt =====
-- What the envelope does to the members of a result.
use velocity_mcp.Base.{
  All, Bool, Bool-cases, Option-cases, [], ap, arith, false, inl, inr, none, refl, some, true, ℕ,
  ◌++◌, ◌∙◌, ◌∷◌, ◌≡◌,
}
use velocity_mcp.Assoc.{lookup}
use velocity_mcp.Assoc.Laws.{lookup-insert_ne, lookup-insert_self}
use velocity_mcp.Bytes.{Bytes, codes, equal, is_space, trim, trim_left, trim_right}
use velocity_mcp.Json.Decode.{RawMembers, unmarshal_string}
use velocity_mcp.Json.Number.Decimal.{IsDigit, print_decimal-digits}
use velocity_mcp.Jsonrpc.{Request, trim_space}
use velocity_mcp.Jsonrpc.Ids.{IsDigit-all}
use velocity_mcp.Jsonrpc.Parse.{raw}
use velocity_mcp.Server.Envelope.{
  apply_cache_hints, is_cache_scope, is_non_negative_integer, key_cache_scope, key_result_type,
  key_ttl_ms, price, result_type_is_complete,
}
use velocity_mcp.Json.Encode.{print_decimal}
use velocity_mcp.Json.Tests.{reader}
use velocity_mcp.Server.Context.{CacheHint, CacheScope, Context, private, public}
use velocity_mcp.Server.Caching.{cache_hint_for, members, scope_name, ttl_ms, zero_hint}
use velocity_mcp.Bytes.Laws.{equal_sym}

digit-no_space : (c : ℕ) → IsDigit c → is_space c ≡ false
digit-no_space c h = ground arith

trim_right-digits : (d : Bytes) → All IsDigit d → trim_right is_space d ≡ d
unfolding trim_right
trim_right-digits [] h = refl
trim_right-digits (c ∷ []) (p, h) = rw (digit-no_space c p) refl
trim_right-digits (c ∷ e ∷ d) (p, h) = rw (trim_right-digits (e ∷ d) h) refl

trim_space-digits : (d : Bytes) → All IsDigit d → trim_space d ≡ d
unfolding trim trim_left
trim_space-digits [] h = unfold trim_right in refl
trim_space-digits (c ∷ d) (p, h) = rw (digit-no_space c p) (trim_right-digits (c ∷ d) (p, h))

module _ (key : Bytes) (defined : Bytes → Bool) (value fallback : Bytes) where
  price-absent :
      (result : RawMembers)
      → lookup key result ≡ none
      → raw key (price key defined value fallback result) ≡ value
  unfolding price raw
  price-absent result e = rw (e, price, raw, lookup-insert_self key value result) refl

  price-kept :
      (result : RawMembers) (w : Bytes)
      → lookup key result ≡ some w
      → defined w ≡ true
      → raw key (price key defined value fallback result) ≡ w
  unfolding price raw
  price-kept result w e f = rw (e, price, f, raw, e) refl

  price-replaced :
      (result : RawMembers) (w : Bytes)
      → lookup key result ≡ some w
      → defined w ≡ false
      → raw key (price key defined value fallback result) ≡ fallback
  unfolding price raw
  price-replaced result w e f = rw (e, price, f, raw, lookup-insert_self key fallback result) refl

  price-defined :
      (result : RawMembers)
      → defined value ≡ true
      → defined fallback ≡ true
      → defined (raw key (price key defined value fallback result)) ≡ true
  price-defined result ok safe = elim (Option-cases (lookup key result)) [
    | inl e ↦ ap defined (price-absent result e) ∙ ok
    | inr (w, e) ↦ elim (Bool-cases (defined w)) [
      | inl f ↦ ap defined (price-kept result w e f) ∙ f
      | inr f ↦ ap defined (price-replaced result w e f) ∙ safe
    ]
  ]

  price-other :
      (result : RawMembers) (k : Bytes)
      → equal key k ≡ false
      → lookup k (price key defined value fallback result) ≡ lookup k result
  unfolding price
  price-other result k ne = elim (Option-cases (lookup key result)) [
    | inl e ↦ rw (e, price) (lookup-insert_ne key k value result ne)
    | inr (written, e) ↦ elim (Bool-cases (defined written)) [
      | inl f ↦ rw (e, price, f) refl
      | inr f ↦ rw (e, price, f) (lookup-insert_ne key k fallback result ne)
    ]
  ]

ttl_defined : (h : CacheHint) → is_non_negative_integer (members h).0 ≡ true
unfolding is_non_negative_integer members
ttl_defined h =
    let (b, t, e, digits) = print_decimal-digits (ttl_ms h) in
    rw (e, trim_space-digits (b ∷ t) digits) (ground (arith, IsDigit-all (b ∷ t) digits))

scope_text : (s : CacheScope) → is_cache_scope (b'"' ∷ (scope_name s ++ b'"' ∷ [])) ≡ true
unfolding is_cache_scope scope_name reader unmarshal_string
scope_text private = refl
scope_text public = refl

scope_defined : (h : CacheHint) → is_cache_scope (members h).1 ≡ true
unfolding members
scope_defined h = scope_text h.scope

zero_scope : (members zero_hint).1 ≡ codes "\"private\""
unfolding members scope_name
zero_scope = refl

zero_ttl : (members zero_hint).0 ≡ codes "0"
unfolding members print_decimal ttl_ms
zero_ttl = refl

keys_differ : equal key_ttl_ms key_cache_scope ≡ false
unfolding equal key_ttl_ms key_cache_scope
keys_differ = refl

-- A result with caching hints: both are values that the protocol defines, each is the hint's where
-- the handler wrote none and the handler's where that is defined, and otherwise zero and private;
-- no other member differs.
pub record IsPriced (hint : CacheHint) (result out : RawMembers) : Type 0 where
  pub ttl_ok : is_non_negative_integer (raw key_ttl_ms out) ≡ true
  pub scope_ok : is_cache_scope (raw key_cache_scope out) ≡ true
  pub ttl_new : lookup key_ttl_ms result ≡ none → raw key_ttl_ms out ≡ (members hint).0
  pub ttl_kept :
      (written : Bytes)
      → lookup key_ttl_ms result ≡ some written
      → is_non_negative_integer written ≡ true
      → raw key_ttl_ms out ≡ written
  pub ttl_zero :
      (written : Bytes)
      → lookup key_ttl_ms result ≡ some written
      → is_non_negative_integer written ≡ false
      → raw key_ttl_ms out ≡ codes "0"
  pub scope_new : lookup key_cache_scope result ≡ none → raw key_cache_scope out ≡ (members hint).1
  pub scope_kept :
      (written : Bytes)
      → lookup key_cache_scope result ≡ some written
      → is_cache_scope written ≡ true
      → raw key_cache_scope out ≡ written
  pub scope_private :
      (written : Bytes)
      → lookup key_cache_scope result ≡ some written
      → is_cache_scope written ≡ false
      → raw key_cache_scope out ≡ codes "\"private\""
  pub others :
      (k : Bytes)
      → equal key_ttl_ms k ≡ false
      → equal key_cache_scope k ≡ false
      → lookup k out ≡ lookup k result

raw-lookup : (k : Bytes) (a b : RawMembers) → lookup k a ≡ lookup k b → raw k a ≡ raw k b
unfolding raw
raw-lookup k a b e = rw (e, raw) refl

module _ (hint : CacheHint) (result : RawMembers) where
  -- The members behind the first switch, and behind both.
  timed : RawMembers
  timed = price key_ttl_ms is_non_negative_integer (members hint).0 (members zero_hint).0 result

  priced : RawMembers
  priced = price key_cache_scope is_cache_scope (members hint).1 (members zero_hint).1 timed

  timed-scope : lookup key_cache_scope timed ≡ lookup key_cache_scope result
  unfolding timed
  timed-scope =
      price-other key_ttl_ms is_non_negative_integer _ _ result key_cache_scope keys_differ

  -- The second switch leaves the lifetime.
  priced-ttl : raw key_ttl_ms priced ≡ raw key_ttl_ms timed
  unfolding priced
  priced-ttl = raw-lookup key_ttl_ms _ _ (
      price-other key_cache_scope is_cache_scope _ _ timed key_ttl_ms
        (equal_sym key_cache_scope key_ttl_ms ∙ keys_differ))

  priced-IsPriced : IsPriced hint result priced
  unfolding priced timed
  priced-IsPriced = record {
    ttl_new = λ e. priced-ttl ∙ price-absent key_ttl_ms is_non_negative_integer _ _ result e;
    ttl_kept = λ w e f. priced-ttl ∙ price-kept key_ttl_ms is_non_negative_integer _ _ result w e f;
    ttl_zero = λ w e f.
        priced-ttl ∙ price-replaced key_ttl_ms is_non_negative_integer _ _ result w e f ∙ zero_ttl;
    ttl_ok =
        ap is_non_negative_integer priced-ttl
        ∙ price-defined key_ttl_ms is_non_negative_integer _ _ result (ttl_defined hint)
            (ttl_defined zero_hint);
    scope_ok =
        price-defined key_cache_scope is_cache_scope (members hint).1 (members zero_hint).1 timed
          (scope_defined hint) (scope_defined zero_hint);
    scope_new = λ e. price-absent key_cache_scope is_cache_scope _ _ timed (timed-scope ∙ e);
    scope_kept = λ w e. price-kept key_cache_scope is_cache_scope _ _ timed w (timed-scope ∙ e);
    scope_private = λ w e f.
        price-replaced key_cache_scope is_cache_scope _ _ timed w (timed-scope ∙ e) f ∙ zero_scope;
    others = λ k a b.
        price-other key_cache_scope is_cache_scope _ _ timed k b
        ∙ price-other key_ttl_ms is_non_negative_integer _ _ result k a;
  }

-- A complete result of a cacheable operation leaves with two defined caching hints. A lifetime or
-- scope that the handler wrote is kept if it is defined and otherwise becomes zero or private;
-- without one, it is that of the hint of the request. No member but these two differs.
pub apply_cache_hints-IsPriced :
    (c : Context) (req : Request) (result : RawMembers) (hint : CacheHint)
    → result_type_is_complete (raw key_result_type result) ≡ true
    → cache_hint_for c req ≡ some hint
    → IsPriced hint result (apply_cache_hints c req result)
unfolding apply_cache_hints priced timed
apply_cache_hints-IsPriced c req result hint complete hinted =
    rw (complete, hinted, apply_cache_hints) (priced-IsPriced hint result)
