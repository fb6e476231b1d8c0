-- ===== src/Server/Meta/Inspect.antt =====
-- What a transport sees in a message is what the server sees in it.
use velocity_mcp.Base.{
  >>=-eq-some, Option-cases, [], ap, arith, false, if◌then◌else◌, inl, inr, length, none, not, refl,
  some, some-eq, sym, true, ◌==◌, ◌>>=◌, ◌∙◌, ◌∷◌, ◌≡◌,
}
use velocity_mcp.Bytes.{Bytes, equal, trim}
use velocity_mcp.Assoc.{lookup}
use velocity_mcp.Json.{parse, read_scalar, read_value, skip_space, whole}
use velocity_mcp.Json.Number.{number, some_digits, span_digits}
use velocity_mcp.Json.Decode.{RawMembers, or_empty, unmarshal_any, unmarshal_members}
use velocity_mcp.Jsonrpc.{Error, MessageId, Request, is_valid_request_id, unmarshal_id}
use velocity_mcp.Jsonrpc.Parse.{
  RequestResult, envelope_id, invalid, key_id, key_method, key_params, parse_request,
  parse_request_env, raw, request, strict_unmarshal, string_of, string_value,
}
use velocity_mcp.Jsonrpc.Parse.Requests.{env_accepts, request_complete}
use velocity_mcp.Server.Meta.{
  MessageInfo, checked_id, inspect_env, inspect_message, inspected_name, inspected_params,
  is_legacy_request, meta_from_params, meta_key_protocol_version, meta_raw, named_param_key,
  object_members, request_meta, string_member,
}

-- The description of a request that the server has parsed.
abbrev pub info_of : Request → MessageInfo
info_of req = record {
  id = req.id.raw;
  method = req.method;
  legacy = is_legacy_request req.method (request_meta req);
  protocol_version = string_member (meta_raw meta_key_protocol_version (request_meta req));
  name = inspected_name req.method (object_members req.params);
  requires_name = not (length (named_param_key req.method) == 0);
}

parse-nil : parse [] ≡ none
unfolding parse whole read_value read_scalar skip_space number some_digits span_digits equal
parse-nil = refl

unmarshal_any-nil : unmarshal_any [] ≡ none
unfolding unmarshal_any
unmarshal_any-nil = rw parse-nil

object_members-nil : object_members [] ≡ none
unfolding object_members trim
object_members-nil = refl

inspected_params-raw :
    (env : RawMembers) → inspected_params env ≡ object_members (raw key_params env)
unfolding raw
inspected_params-raw env = elim (Option-cases (lookup key_params env)) [
  | inl e ↦ rw (e, raw) (sym object_members-nil)
  | inr (token, e) ↦ rw (e, raw) refl
]

request_meta-params :
    (req : Request) → request_meta req ≡ meta_from_params (object_members req.params)
unfolding request_meta meta_from_params
request_meta-params req = go req.params
  where
    go :
        (params : Bytes)
        → (if length params == 0
            then none
            else (object_members params >>= λ ms. meta_from_params (some ms)))
          ≡ meta_from_params (object_members params)
    go [] = rw object_members-nil refl
    go (c ∷ s) =
        let z : (length (c ∷ s) == 0) ≡ false = ground arith in
        rw z (elim (Option-cases (object_members (c ∷ s))) [
          | inl e ↦ rw e refl
          | inr (ms, e) ↦ rw e refl
        ])

checked_id-valid :
    (env : RawMembers) {id : MessageId}
    → checked_id env ≡ some id
    → (is_valid_request_id (envelope_id env) ≡ true) × (id ≡ envelope_id env)
unfolding checked_id unmarshal_id
checked_id-valid env h = ground (arith, h)

checked_id-readable :
    (env : RawMembers) {id : MessageId}
    → checked_id env ≡ some id
    → (is_valid_request_id id ≡ true) × ((unmarshal_id id.raw).1 ≡ true)
unfolding checked_id unmarshal_id
checked_id-readable env h = ground (arith, h)

inspect_env-readable :
    (env : RawMembers) (info : MessageInfo)
    → inspect_env env ≡ some info
    → (is_valid_request_id (record { raw = info.id }) ≡ true) × ((unmarshal_id info.id).1 ≡ true)
unfolding inspect_env
inspect_env-readable env info h =
    let (id, hid, h1) = >>=-eq-some (checked_id env) _ h in
    let (method, hm, h2) = >>=-eq-some (unmarshal_any (raw key_method env) >>= string_of) _ h1 in
    let same : id.raw ≡ info.id = ap (λ (i : MessageInfo). i.id) (some-eq h2) in
    rw (sym same) (checked_id-readable env hid)

pub inspect_message-readable :
    (s : Bytes) (info : MessageInfo)
    → inspect_message s ≡ some info
    → (is_valid_request_id (record { raw = info.id }) ≡ true) × ((unmarshal_id info.id).1 ≡ true)
unfolding inspect_message
inspect_message-readable s info h =
    let (body, read, k) = >>=-eq-some (unmarshal_members s) _ h in
    inspect_env-readable (or_empty body) info k

string_value-any : (token : Bytes) → (unmarshal_any token >>= string_of) ≡ string_value token
unfolding string_value
string_value-any [] = rw unmarshal_any-nil refl
string_value-any (c ∷ s) = let z : (length (c ∷ s) == 0) ≡ false = ground arith in rw z refl

-- A body that a transport reads as a request states a valid id and a method, and the
-- description is of that id, method and params.
inspect_env-describes :
    (env : RawMembers) (info : MessageInfo) (req : Request)
    → inspect_env env ≡ some info
    → req.id ≡ envelope_id env
    → string_value (raw key_method env) ≡ some req.method
    → req.params ≡ raw key_params env
    → info ≡ info_of req
unfolding inspect_env
inspect_env-describes env info req h id_is method_is params_is =
    let (id, hid, h1) = >>=-eq-some (checked_id env) _ h in
    let (method, hm, h2) = >>=-eq-some (unmarshal_any (raw key_method env) >>= string_of) _ h1 in
    let same_method : method ≡ req.method =
      some-eq (sym hm ∙ string_value-any (raw key_method env) ∙ method_is) in
    let same_id : id ≡ req.id = (checked_id-valid env hid).1 ∙ sym id_is in
    let same_params : inspected_params env ≡ object_members req.params =
      inspected_params-raw env ∙ ap object_members (sym params_is) in
    sym (some-eq h2) ∙ rw (same_method, same_id, same_params, request_meta-params req) refl

-- What the server makes of a message that a transport described.
pub data AnsweredAs (s : Bytes) (info : MessageInfo) : Type 0 where
  served :
      (req : Request)
      → parse_request s ≡ request req req.id
      → info ≡ info_of req
      → AnsweredAs s info
  rejected :
      (id : MessageId) (e : Error)
      → parse_request s ≡ invalid id e
      → id.raw ≡ info.id
      → AnsweredAs s info

inspect_env-id :
    (env : RawMembers) (info : MessageInfo)
    → inspect_env env ≡ some info
    → (is_valid_request_id (envelope_id env) ≡ true) × (info.id ≡ raw key_id env)
unfolding inspect_env
inspect_env-id env info h =
    let (id, hid, h1) = >>=-eq-some (checked_id env) _ h in
    let (method, hm, h2) = >>=-eq-some (unmarshal_any (raw key_method env) >>= string_of) _ h1 in
    let (valid_id, same) = checked_id-valid env hid in
    (
      valid_id,
      ap (λ (i : MessageInfo). i.id) (sym (some-eq h2)) ∙ ap (λ (i : MessageId). i.raw) same,
    )

body_refuses-id :
    (env : RawMembers) (id : MessageId) (e : Error)
    → is_valid_request_id (envelope_id env) ≡ true
    → parse_request_env env ≡ invalid id e
    → id ≡ envelope_id env
unfolding parse_request_env
body_refuses-id env id e h k = ground arith

answered :
    (s : Bytes) (env : RawMembers) (info : MessageInfo)
    → strict_unmarshal s ≡ some env
    → inspect_env env ≡ some info
    → AnsweredAs s info
answered s env info read h = go (parse_request_env env) refl
  where
    go : (o : RequestResult) → parse_request_env env ≡ o → AnsweredAs s info
    go (request req id) e =
        let (q, same) = env_accepts env req id e in
        served req (request_complete s req (env, read, q))
          (inspect_env-describes env info req h q.id_is q.method_is q.params_is)
    go (invalid id e') e =
        let (valid_id, seen) = inspect_env-id env info h in
        rejected id e' (unfold parse_request in rw (read, parse_request) e)
          (ap (λ (i : MessageId). i.raw) (body_refuses-id env id e' valid_id e) ∙ sym seen)

-- A message that a transport reads as a request is answered by the server under the id that the
-- transport saw. If the server accepts it, the transport's description is the server's own
-- reading: the method, the version stated, the target's name, and whether the request is legacy.
pub inspect_message-AnsweredAs :
    (s : Bytes) (info : MessageInfo) → inspect_message s ≡ some info → AnsweredAs s info
unfolding inspect_message
inspect_message-AnsweredAs s info h =
    let (body, read, k) = >>=-eq-some (unmarshal_members s) _ h in
    let decoded : strict_unmarshal s ≡ some (or_empty body) =
      unfold strict_unmarshal in rw (read, strict_unmarshal) refl in
    answered s (or_empty body) info decoded k
