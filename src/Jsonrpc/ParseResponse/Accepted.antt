-- ===== src/Jsonrpc/ParseResponse/Accepted.antt =====
-- Which replies are accepted.
use velocity_mcp.Base.{
  Bool-cases, Option, Option-cases, arith, false, if◌then◌else◌, inl, inr, none, refl, some, sym,
  true, ◌↔◌, ◌≡◌,
}
use velocity_mcp.Assoc.{has}
use velocity_mcp.Bytes.{Bytes}
use velocity_mcp.Json.Decode.{RawMembers}
use velocity_mcp.Jsonrpc.{Error, Response, null_id, version}
use velocity_mcp.Jsonrpc.Parse.{
  accepted, envelope_id, key_id, key_jsonrpc, raw, strict_unmarshal, version_is_20,
}
use velocity_mcp.Jsonrpc.ParseResponse.{
  envelope_error, has_result, key_result, parse_response, parse_response_body, parse_response_env,
}

-- A reply: of the version 2.0, with a result and the id of its request, or with an error alone,
-- under the id that it states or else the null id.
pub data IsResponse (env : RawMembers) (r : Response) : Type 0 where
  answers :
      version_is_20 (raw key_jsonrpc env) ≡ true
      → has_result env ≡ true
      → envelope_error env ≡ some none
      → has key_id env ≡ true
      → r ≡ record {
        jsonrpc = version;
        id = envelope_id env;
        result = raw key_result env;
        error = none;
      }
      → IsResponse env r
  fails :
      (e : Error)
      → version_is_20 (raw key_jsonrpc env) ≡ true
      → has_result env ≡ false
      → envelope_error env ≡ some (some e)
      → r ≡ record {
        jsonrpc = version;
        id = if has key_id env then envelope_id env else null_id;
        result = raw key_result env;
        error = some e;
      }
      → IsResponse env r

accepted-eq : {A : Type 0} {a b : A} → accepted a ≡ accepted b → a ≡ b
accepted-eq h = cc

body_sound :
    (env : RawMembers) (o : Option Error) (r : Response)
    → version_is_20 (raw key_jsonrpc env) ≡ true
    → envelope_error env ≡ some o
    → parse_response_body env o ≡ accepted r
    → IsResponse env r
unfolding parse_response_body
body_sound env none r v e h = elim (Bool-cases (has_result env)) [
  | inr f ↦ absurd (ground (arith, h, f))
  | inl f ↦ elim (Bool-cases (has key_id env)) [
    | inl g ↦ answers v f e g (sym (accepted-eq (rw (f, g) at h)))
    | inr g ↦ absurd (ground (arith, h, f, g))
  ]
]
body_sound env (some x) r v e h = elim (Bool-cases (has_result env)) [
  | inl f ↦ absurd (ground (arith, h, f))
  | inr f ↦ fails x v f e (sym (accepted-eq (rw f at h)))
]

env_sound :
    (env : RawMembers) (r : Response) → parse_response_env env ≡ accepted r → IsResponse env r
unfolding parse_response_env
env_sound env r h = elim (Bool-cases (version_is_20 (raw key_jsonrpc env))) [
  | inr v ↦ absurd (ground (arith, h, v))
  | inl v ↦ elim (Option-cases (envelope_error env)) [
    | inl e ↦ absurd (ground (arith, rw (v, e) at h))
    | inr (o, e) ↦ body_sound env o r v e (rw (v, e) at h)
  ]
]

env_complete :
    (env : RawMembers) (r : Response) → IsResponse env r → parse_response_env env ≡ accepted r
unfolding parse_response_env parse_response_body
env_complete env r (answers v f e g q) = rw (v, e, f, g, q) refl
env_complete env r (fails x v f e q) = rw (v, e, f, q) refl

abbrev pub StatesResponse : Bytes → Response → Type 0
StatesResponse s r = (env : RawMembers) × (strict_unmarshal s ≡ some env) × IsResponse env r

-- `ParseResponse` accepts a message exactly when it is one JSON object whose members state a reply:
-- the version 2.0, and either a result with the id of its request or an error and no result.
pub parse_response_iff :
    (s : Bytes) (r : Response) → (parse_response s ≡ accepted r) ↔ StatesResponse s r
unfolding parse_response
parse_response_iff s r = (
  λ h. elim (Option-cases (strict_unmarshal s)) [
    | inl e ↦ absurd (ground (arith, rw (e, parse_response) at h))
    | inr (env, e) ↦ (env, e, env_sound env r (rw (e, parse_response) at h))
  ],
  λ q. rw (q.1, parse_response) (env_complete q.0 r q.2),
)
