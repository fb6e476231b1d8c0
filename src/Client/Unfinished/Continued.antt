-- ===== src/Client/Unfinished/Continued.antt =====
-- Which results are whole, and what a result that asks for input is continued with.
use velocity_mcp.Base.{
  >>=-eq-some, Bool-cases, Option, Option-cases, [], ap, false, if◌then◌else◌, inl, inr, length,
  none, none-ne-some, refl, some, some-eq, sym, true, ◌==◌, ◌>>=◌, ◌↔◌, ◌∙◌, ◌∷◌, ◌≡◌, ◌≢◌, ◌⊎◌,
}
use velocity_mcp.Bytes.{Bytes, codes, equal}
use velocity_mcp.Assoc.{Assoc, lookup}
use velocity_mcp.Json.Number.{first_is}
use velocity_mcp.Json.Decode.{RawMembers, unmarshal_string}
use velocity_mcp.Client.Unfinished.{
  Continuation, Param, UnfinishedResult, answers, apply_continuation, as_it_arrived,
  asks_for_nothing, continue_with, finished_result, input_required, is_json_space, json_object,
  json_string, of_result_type, or_invalid, state_on_the_wire, stated_requests, stated_token,
  suspended, trim_json_space, unfinished_result, unfinished_with, with_responses, with_state,
}
use velocity_mcp.Bytes.Laws.{equal-eq, equal_refl, trim_twice}
use velocity_mcp.Assoc.Laws.{lookup-insert_ne, lookup-insert_self}
use velocity_mcp.Json.{Members}

-- An object that states no type of result, or the type of a complete one.
pub record IsWhole (raw : Bytes) : Type 0 where
  pub members : RawMembers
  pub is_object : json_object raw ≡ some members
  pub stated :
      (lookup (codes "resultType") members ≡ none)
      ⊎ ((token : Bytes) × (lookup (codes "resultType") members ≡ some token)
          × (json_string token ≡ some (codes "complete")))

or_invalid-ne-whole : (o : Option UnfinishedResult) → or_invalid o ≢ finished_result
or_invalid-ne-whole none h = cc h
or_invalid-ne-whole (some u) h = cc h

of_result_type-whole :
    (method raw : Bytes) (members : RawMembers) (token kind : Bytes)
    → json_string token ≡ some kind
    → (of_result_type method members raw (some token) ≡ finished_result)
      ↔ (equal kind (codes "complete") ≡ true)
unfolding of_result_type
of_result_type-whole method raw members token kind e =
    elim (Bool-cases (equal kind (codes "complete"))) [
      | inl f ↦ rw (of_result_type, e, f) (λ h. refl, λ h. refl)
      | inr f ↦ elim (Bool-cases (equal kind (codes "input_required"))) [
        | inl g ↦
            rw (of_result_type, e, f, g) (λ h. absurd (or_invalid-ne-whole _ h), λ h. absurd cc)
        | inr g ↦ rw (of_result_type, e, f, g) (λ h. absurd cc, λ h. absurd cc)
      ]
    ]

module _ (raw : Bytes) (members : RawMembers) (e : json_object raw ≡ some members) where
  stated_kind :
      (token : Bytes)
      → IsWhole raw
      → lookup (codes "resultType") members ≡ some token
      → json_string token ≡ some (codes "complete")
  stated_kind token h f =
      let same : h.members ≡ members = some-eq (sym h.is_object ∙ e) in
      elim h.stated [
        | inl q ↦ absurd (none-ne-some (sym (rw same at q) ∙ f))
        | inr (t, q, r) ↦ let here : t ≡ token = some-eq (sym (rw same at q) ∙ f) in rw (← here) r
      ]

  of_members-IsWhole :
      (method : Bytes) (o : Option Bytes)
      → lookup (codes "resultType") members ≡ o
      → (of_result_type method members raw o ≡ finished_result) ↔ IsWhole raw
  unfolding of_result_type
  of_members-IsWhole method none f =
      (λ h. record { members = members; is_object = e; stated = inl f }, λ h. refl)
  of_members-IsWhole method (some token) f = elim (Option-cases (json_string token)) [
    | inl g ↦
        rw (of_result_type, g)
          (λ h. absurd cc, λ h. absurd (none-ne-some (sym g ∙ stated_kind token h f)))
    | inr (kind, g) ↦
        let (to, from) = of_result_type-whole method raw members token kind g in
        (
          λ h. record {
            members = members;
            is_object = e;
            stated = inr (token, f, g ∙ ap some (equal-eq kind (codes "complete") (to h)));
          },
          λ h. from (rw (some-eq (sym g ∙ stated_kind token h f)) (equal_refl (codes "complete"))),
        )
  ]

-- A result is read as an answer exactly if it is an object that states no type of result, or the
-- type of a complete one.
pub unfinished_result-IsWhole :
    (method raw : Bytes) → (unfinished_result method raw ≡ finished_result) ↔ IsWhole raw
unfolding unfinished_result
unfinished_result-IsWhole method raw = elim (Option-cases (json_object raw)) [
  | inl e ↦
      rw (unfinished_result, e) (λ h. absurd cc, λ h. absurd (none-ne-some (sym e ∙ h.is_object)))
  | inr (members, e) ↦
      rw (unfinished_result, e)
        (of_members-IsWhole raw members e method (lookup (codes "resultType") members) refl)
]

suspended-eq : {u v : UnfinishedResult} → suspended u ≡ suspended v → u ≡ v
suspended-eq h = cc

or_invalid-suspended :
    (o : Option UnfinishedResult) (u : UnfinishedResult) → or_invalid o ≡ suspended u → o ≡ some u
or_invalid-suspended none u h = absurd cc
or_invalid-suspended (some v) u h = ap some (suspended-eq h)

of_result_type-suspended :
    (method raw : Bytes) (members : RawMembers) (o : Option Bytes) (u : UnfinishedResult)
    → of_result_type method members raw o ≡ suspended u
    → input_required method members raw ≡ some u
unfolding of_result_type
of_result_type-suspended method raw members none u h = absurd cc
of_result_type-suspended method raw members (some token) u h =
    elim (Option-cases (json_string token)) [
      | inl e ↦ absurd (let g = rw (of_result_type, e) at h in cc)
      | inr (kind, e) ↦ elim (Bool-cases (equal kind (codes "complete"))) [
        | inl f ↦ absurd (let g = rw (of_result_type, e, f) at h in cc)
        | inr f ↦ elim (Bool-cases (equal kind (codes "input_required"))) [
          | inl k ↦
              or_invalid-suspended (input_required method members raw) u
                (rw (of_result_type, e, f, k) at h)
          | inr k ↦ absurd (let g = rw (of_result_type, e, f, k) at h in cc)
        ]
      ]
    ]

-- The token of a request that repeats another: the one that arrived, with its spelling, if any.
abbrev pub echoed : Option Bytes → Option Param → Option Param
echoed none before = before
echoed (some raw) before = some (as_it_arrived (trim_json_space raw))

json_string-trim_json_space : (raw : Bytes) → json_string (trim_json_space raw) ≡ json_string raw
unfolding json_string trim_json_space
json_string-trim_json_space raw =
    ap (λ t. if first_is b'"' t then unmarshal_string t else none) (trim_twice is_json_space raw)

state_on_the_wire-arrived :
    (state raw : Bytes)
    → json_string raw ≡ some state
    → state_on_the_wire state (trim_json_space raw) ≡ as_it_arrived (trim_json_space raw)
unfolding state_on_the_wire
state_on_the_wire-arrived state raw e =
    rw (json_string-trim_json_space raw, e, equal_refl state) refl

-- What is read of a token is what a continuation writes.
with_state-echoed :
    (token : Option Bytes) (read : Option Bytes × Bytes) (c : Continuation) (params : Assoc Param)
    → stated_token token ≡ some read
    → c.request_state ≡ read.0
    → c.raw_state ≡ read.1
    → (lookup (codes "requestState") (with_state c params)
        ≡ echoed token (lookup (codes "requestState") params))
      × ((key : Bytes)
          → equal (codes "requestState") key ≡ false
          → lookup key (with_state c params) ≡ lookup key params)
with_state-echoed none read c params e p q =
    let same : c.request_state ≡ none = p ∙ sym (ap (λ r. r.0) (some-eq e)) in
    rw same (refl, λ key h. refl)
with_state-echoed (some raw) read c params e p q = elim (Option-cases (json_string raw)) [
  | inl f ↦ absurd (let g = rw f at e in none-ne-some g)
  | inr (state, f) ↦
      let r = some-eq (rw f at e) in
      let here : c.request_state ≡ some state = p ∙ sym (ap (λ r. r.0) r) in
      let spelt : c.raw_state ≡ trim_json_space raw = q ∙ sym (ap (λ r. r.1) r) in
      rw (here, spelt, state_on_the_wire-arrived state raw f)
        (
          lookup-insert_self (codes "requestState") (as_it_arrived (trim_json_space raw)) params,
          λ key h.
              lookup-insert_ne (codes "requestState") key (as_it_arrived (trim_json_space raw))
                params h,
        )
]

with_responses-lookup :
    (c : Continuation) (params : Assoc Param) (key : Bytes)
    → equal (codes "inputResponses") key ≡ false
    → lookup key (with_responses c params) ≡ lookup key params
with_responses-lookup c params key h = elim (Bool-cases (length c.input_responses == 0)) [
  | inl e ↦ rw e refl
  | inr e ↦
      rw e (lookup-insert_ne (codes "inputResponses") key (answers c.input_responses) params h)
]

unfinished_with-token :
    (method raw : Bytes) (token : Option Bytes × Bytes) (requests : RawMembers)
    (u : UnfinishedResult)
    → unfinished_with method raw token requests ≡ some u
    → (u.request_state ≡ token.0) × (u.raw_state ≡ token.1)
unfinished_with-token method raw token requests u h =
    elim (Bool-cases (asks_for_nothing token.0 requests)) [
      | inl e ↦ absurd (none-ne-some (rw e at h))
      | inr e ↦
          let same = some-eq (rw e at h) in
          (sym (ap (λ v. v.request_state) same), sym (ap (λ v. v.raw_state) same))
    ]

input_required-token :
    (method raw : Bytes) (members : RawMembers) (u : UnfinishedResult)
    → input_required method members raw ≡ some u
    → (read : Option Bytes × Bytes) × (stated_token (lookup (codes "requestState") members)
        ≡ some read)
      × (u.request_state ≡ read.0)
      × (u.raw_state ≡ read.1)
unfolding input_required
input_required-token method raw members u h =
    let requests = stated_requests (lookup (codes "inputRequests") members) in
    let (read, stated, h1) =
      >>=-eq-some (stated_token (lookup (codes "requestState") members))
        (λ token. requests >>= λ r. unfinished_with method raw token r) h in
    let (asked, _, h2) = >>=-eq-some requests (λ r. unfinished_with method raw read r) h1 in
    let (state, spelling) = unfinished_with-token method raw read asked u h2 in
    (read, stated, state, spelling)

-- The request that continues a result carries the state token of that result byte for byte as it
-- arrived, or none of its own if the result states none, and nothing else of it but the responses.
pub apply_continuation-continue_with :
    (method raw : Bytes) (members : RawMembers) (u : UnfinishedResult) (params : Assoc Param)
    (responses : Assoc Members)
    → json_object raw ≡ some members
    → unfinished_result method raw ≡ suspended u
    → (sent : Assoc Param) × (apply_continuation params (continue_with u responses ∷ [])
        ≡ some sent)
      × (lookup (codes "requestState") sent
          ≡ echoed (lookup (codes "requestState") members) (lookup (codes "requestState") params))
      × ((key : Bytes)
          → equal (codes "requestState") key ≡ false
          → equal (codes "inputResponses") key ≡ false
          → lookup key sent ≡ lookup key params)
unfolding unfinished_result apply_continuation
apply_continuation-continue_with method raw members u params responses e h =
    let built =
      of_result_type-suspended method raw members (lookup (codes "resultType") members) u
        (rw (unfinished_result, e) at h) in
    let (read, stated, state, spelling) = input_required-token method raw members u built in
    let c = continue_with u responses in
    let (echo, others) =
      with_state-echoed (lookup (codes "requestState") members) read c params stated state
        spelling in
    (
      with_responses c (with_state c params),
      refl,
      with_responses-lookup c (with_state c params) (codes "requestState") (unfold equal in refl)
          ∙ echo,
      λ key p q. with_responses-lookup c (with_state c params) key q ∙ others key p,
    )
