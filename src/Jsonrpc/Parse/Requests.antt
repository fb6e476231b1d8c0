-- ===== src/Jsonrpc/Parse/Requests.antt =====
-- What `ParseRequest` and `ParseNotification` accept, and what they answer otherwise.
use velocity_mcp.Base.{
  Option-cases, ap, arith, false, inl, inr, none, some, sym, true, ◌↔◌, ◌∙◌, ◌≡◌, ◌⊎◌,
}
use velocity_mcp.Json.Decode.{RawMembers}
use velocity_mcp.Jsonrpc.{
  Error, MessageId, Notification, Request, code_invalid_params, code_invalid_request,
  code_parse_error, is_valid_request_id, new_error, null_id, version,
}
use velocity_mcp.Jsonrpc.Parse.{
  accepted, envelope_id, invalid, key_jsonrpc, key_method, key_params, msg_parse_error,
  params_refused, parse_notification_env, parse_request, parse_request_env, raw, request,
  strict_unmarshal, string_value, version_is_20,
}
use velocity_mcp.Bytes.{Bytes}

-- The members of a message that states a request, and the request that they state.
pub record IsRequest (env : RawMembers) (r : Request) : Type 0 where
  pub id_valid : is_valid_request_id (envelope_id env) ≡ true
  pub version_ok : version_is_20 (raw key_jsonrpc env) ≡ true
  pub method_is : string_value (raw key_method env) ≡ some r.method
  pub params_ok : params_refused env ≡ false
  pub id_is : r.id ≡ envelope_id env
  pub params_is : r.params ≡ raw key_params env
  pub states_version : r.jsonrpc ≡ version

-- The id of a reply to a refused message.
abbrev pub Replies : RawMembers → MessageId → Type 0
Replies env id = (id ≡ null_id) ⊎ ((id ≡ envelope_id env) × (is_valid_request_id id ≡ true))

module _ (env : RawMembers) where
  pub env_accepts :
      (r : Request) (id : MessageId)
      → parse_request_env env ≡ request r id
      → IsRequest env r × (id ≡ r.id)
  unfolding parse_request_env
  env_accepts r id h = ground arith

  env_complete : (r : Request) → IsRequest env r → parse_request_env env ≡ request r r.id
  unfolding parse_request_env
  env_complete r q = ground arith

  -- The one reason for which the members are refused, the first in the order of the checks.
  pub env_refuses :
      (id : MessageId) (e : Error)
      → parse_request_env env ≡ invalid id e
      → ((is_valid_request_id (envelope_id env) ≡ false)
          × (id ≡ null_id)
          × (e.code ≡ code_invalid_request))
        ⊎ (((is_valid_request_id (envelope_id env) ≡ true)
              × (id ≡ envelope_id env)
              × ((version_is_20 (raw key_jsonrpc env) ≡ false)
                  ⊎ (string_value (raw key_method env) ≡ none))
              × (e.code ≡ code_invalid_request))
            ⊎ ((is_valid_request_id (envelope_id env) ≡ true)
                × (id ≡ envelope_id env)
                × (version_is_20 (raw key_jsonrpc env) ≡ true)
                × ((method : Bytes) × (string_value (raw key_method env) ≡ some method))
                × (params_refused env ≡ true)
                × (e.code ≡ code_invalid_params)))
  unfolding parse_request_env
  env_refuses id e h = ground arith

  notification_accepts :
      (n : Notification)
      → parse_notification_env env ≡ accepted n
      → (version_is_20 (raw key_jsonrpc env) ≡ true)
        × (string_value (raw key_method env) ≡ some n.method)
        × (params_refused env ≡ false)
        × (n.params ≡ raw key_params env)
  unfolding parse_notification_env
  notification_accepts n h = ground arith

-- The members that a message decodes to, and the request that they state.
abbrev pub StatesRequest : Bytes → Request → Type 0
StatesRequest s r = (env : RawMembers) × (strict_unmarshal s ≡ some env) × IsRequest env r

request_sound :
    (s : Bytes) (r : Request) (id : MessageId)
    → parse_request s ≡ request r id
    → (id ≡ r.id) × StatesRequest s r
unfolding parse_request
request_sound s r id h = elim (Option-cases (strict_unmarshal s)) [
  | inl e ↦ absurd (cc (rw (e, parse_request) at h))
  | inr (env, e) ↦
      let (q, same) = env_accepts env r id (rw (e, parse_request) at h) in (same, (env, e, q))
]

pub request_complete :
    (s : Bytes) (r : Request) → StatesRequest s r → parse_request s ≡ request r r.id
unfolding parse_request
request_complete s r (env, e, q) = rw (e, parse_request) (env_complete env r q)

-- `ParseRequest` accepts a message exactly when it is one JSON object whose members state a
-- request: a string or integer id, the version 2.0, a string method, and params that are an
-- object, an empty array or absent. The request and the id returned are the stated ones.
pub parse_request_iff :
    (s : Bytes) (r : Request) (id : MessageId)
    → (parse_request s ≡ request r id) ↔ (id ≡ r.id) × StatesRequest s r
parse_request_iff s r id =
    (request_sound s r id, λ h. request_complete s r h.1 ∙ ap (request r) (sym h.0))

-- The replies to a refused message.
pub data Refusal (s : Bytes) (id : MessageId) (e : Error) : Type 0 where
  no_object : strict_unmarshal s ≡ none → id ≡ null_id → e.code ≡ code_parse_error → Refusal s id e
  bad_id :
      (env : RawMembers)
      → strict_unmarshal s ≡ some env
      → is_valid_request_id (envelope_id env) ≡ false
      → id ≡ null_id
      → e.code ≡ code_invalid_request
      → Refusal s id e
  bad_envelope :
      (env : RawMembers)
      → strict_unmarshal s ≡ some env
      → is_valid_request_id (envelope_id env) ≡ true
      → id ≡ envelope_id env
      → (version_is_20 (raw key_jsonrpc env) ≡ false) ⊎ (string_value (raw key_method env) ≡ none)
      → e.code ≡ code_invalid_request
      → Refusal s id e
  bad_params :
      (env : RawMembers) (method : Bytes)
      → strict_unmarshal s ≡ some env
      → is_valid_request_id (envelope_id env) ≡ true
      → id ≡ envelope_id env
      → version_is_20 (raw key_jsonrpc env) ≡ true
      → string_value (raw key_method env) ≡ some method
      → params_refused env ≡ true
      → e.code ≡ code_invalid_params
      → Refusal s id e

-- The reply to a message that `ParseRequest` refuses. A text that is no JSON object and not null is
-- a parse error under the null id. An object without a valid id, and null, is an invalid request
-- under the null id. Under the id that the message states, a wrong version or a method that is no
-- string is an invalid request, and with both right, refused params are invalid params.
pub parse_request-Refusal :
    (s : Bytes) (id : MessageId) (e : Error) → parse_request s ≡ invalid id e → Refusal s id e
unfolding parse_request
parse_request-Refusal s id e h = elim (Option-cases (strict_unmarshal s)) [
  | inl n ↦
      let q : invalid null_id (new_error code_parse_error msg_parse_error) ≡ invalid id e =
        rw (n, parse_request) at h in
      no_object n (ground (arith, q)) (ground (arith, q))
  | inr (env, n) ↦ elim (env_refuses env id e (rw (n, parse_request) at h)) [
    | inl (valid, same, code) ↦ bad_id env n valid same code
    | inr (inl (valid, same, why, code)) ↦ bad_envelope env n valid same why code
    | inr (inr (valid, same, stated, (method, named), params, code)) ↦
        bad_params env method n valid same stated named params code
  ]
]
