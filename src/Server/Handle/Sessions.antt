-- ===== src/Server/Handle/Sessions.antt =====
-- When a session is opened.
use velocity_mcp.Base.{
  Bool-cases, Option, Option-cases, [], arith, inl, inr, none, not, refl, some, true, ◌&&◌, ◌∙◌,
  ◌∷◌, ◌≡◌, ◌≢◌,
}
use velocity_mcp.Assoc.{lookup}
use velocity_mcp.Bytes.{Bytes, codes, equal}
use velocity_mcp.Json.{Members}
use velocity_mcp.Jsonrpc.{MessageId, Request, Response}
use velocity_mcp.Server.Meta.{is_legacy_meta, predates_protocol_meta, request_meta}
use velocity_mcp.Server.Meta.Validate.{validate_arguments, validate_protocol_meta}
use velocity_mcp.Server.Context.{Context}
use velocity_mcp.Server.Results.{
  ClientInfo, Failure, HandleResult, Handled, Method, method_not_found, other, rpc,
  session_initialized, with_error,
}
use velocity_mcp.Server.Initialize.{
  client_info_from_params, decode_params, key_initialize, map_param,
}
use velocity_mcp.Server.Handle.{
  Server, apply_result_envelope, handle_initialize, handle_request, handle_tool_call,
  initialize_or_default, key_tools_call, open_session, route, route_method, run_known, succeeded,
}
use velocity_mcp.Bytes.Laws.{equal-eq, equal_refl}
use velocity_mcp.Server.Envelope.{envelope_response}

-- A handshake that opened a session.
pub record OpensSession (s : Server) (req : Request) (r : Handled) : Type 0 where
  pub is_initialize : req.method ≡ key_initialize
  pub no_meta : is_legacy_meta (request_meta req) ≡ true
  pub assigned : r.result.session_id ≡ s.next_session_id
  pub succeeds : succeeded r.result ≡ true
  pub client : Option ClientInfo
  pub negotiated : Bytes
  pub capabilities : Option Members
  pub told : r.events ≡ session_initialized s.next_session_id client negotiated capabilities ∷ []

with_error-no_session :
    (o : Option Response) (id : MessageId) (err : Option Failure)
    → (with_error o id err).session_id ≡ []
unfolding with_error
with_error-no_session (some resp) id none = refl
with_error-no_session none id none = refl
with_error-no_session (some resp) id (some (rpc e)) = refl
with_error-no_session (some resp) id (some other) = refl
with_error-no_session none id (some (rpc e)) = refl
with_error-no_session none id (some other) = refl

run_known-no_session :
    (session : Bytes) (c : Context) (req : Request) (m : Method)
    → (run_known session c req m).result.session_id ≡ []
unfolding run_known handle_tool_call
run_known-no_session session c req m = elim (Option-cases (validate_arguments req)) [
  | inr (e, bad) ↦ rw (bad, run_known) refl
  | inl fine ↦ elim (Bool-cases (equal req.method key_tools_call)) [
    | inl call ↦
        rw (fine, run_known, call) (with_error-no_session (m c req).response req.id (m c req).err)
    | inr plain ↦
        rw (fine, run_known, plain) (with_error-no_session (m c req).response req.id (m c req).err)
  ]
]

route_method-no_session :
    (s : Server) (session : Bytes) (c : Context) (req : Request)
    → (route_method s session c req).result.session_id ≡ []
unfolding route_method method_not_found
route_method-no_session s session c req = elim (Option-cases (lookup req.method s.methods)) [
  | inl e ↦ rw (e, route_method) refl
  | inr (m, e) ↦ rw (e, route_method) (run_known-no_session session c req m)
]

pub open_session-success :
    (s : Server) (req : Request) (c : Context) (r : HandleResult)
    → req.method ≡ key_initialize
    → is_legacy_meta (request_meta req) ≡ true
    → succeeded r ≡ true
    → OpensSession s req (open_session s req c r)
unfolding open_session
open_session-success s req c r named legacy e = rw e (record {
  is_initialize = named;
  no_meta = legacy;
  assigned = refl;
  succeeds = e;
  client = client_info_from_params (decode_params req.params);
  negotiated = c.negotiated;
  capabilities = map_param (decode_params req.params) (codes "capabilities");
  told = refl;
})

open_session-opens :
    (s : Server) (req : Request) (c : Context) (r : HandleResult)
    → r.session_id ≡ []
    → req.method ≡ key_initialize
    → is_legacy_meta (request_meta req) ≡ true
    → (open_session s req c r).result.session_id ≢ []
    → OpensSession s req (open_session s req c r)
unfolding open_session
open_session-opens s req c r none_yet named legacy h = elim (Bool-cases (succeeded r)) [
  | inr e ↦ absurd (h (rw e none_yet))
  | inl e ↦ open_session-success s req c r named legacy e
]

pub predates_initialize :
    (method : Bytes) → method ≡ key_initialize → predates_protocol_meta method ≡ true
unfolding predates_protocol_meta key_initialize
predates_initialize method e = rw e (equal_refl (codes "initialize"))

route-opens :
    (s : Server) (session : Bytes) (c : Context) (req : Request)
    → (route s session c req).result.session_id ≢ []
    → OpensSession s req (route s session c req)
unfolding route handle_initialize
route-opens s session c req h = elim (Bool-cases (equal req.method key_initialize)) [
  | inr e ↦ absurd (h (rw e (route_method-no_session s session c req)))
  | inl e ↦
      let named = equal-eq req.method key_initialize e in
      elim (Bool-cases
        (predates_protocol_meta req.method && not (is_legacy_meta (request_meta req)))) [
          | inl f ↦ absurd (h (rw (e, f) (unfold method_not_found in refl)))
          | inr f ↦
              let m = initialize_or_default s.methods in
              let older : predates_protocol_meta req.method ≡ true =
                predates_initialize req.method named in
              let legacy : is_legacy_meta (request_meta req) ≡ true = ground (arith, older, f) in
              rw (e, f)
                (open_session-opens s req (m c req).context _
                  (with_error-no_session (m c req).response req.id (m c req).err) named legacy
                  (rw (e, f) at h))
        ]
]

envelope_response-error :
    (c : Context) (req : Request) (resp : Response)
    → (envelope_response c req resp).error ≡ resp.error
unfolding envelope_response
envelope_response-error c req resp = ground arith

apply_result_envelope-session :
    (c : Context) (req : Request) (r : HandleResult)
    → (apply_result_envelope c req r).session_id ≡ r.session_id
unfolding apply_result_envelope
apply_result_envelope-session c req r = ground arith

pub apply_result_envelope-succeeded :
    (c : Context) (req : Request) (r : HandleResult)
    → succeeded (apply_result_envelope c req r) ≡ succeeded r
unfolding apply_result_envelope
apply_result_envelope-succeeded c req r = elim (Option-cases r.response) [
  | inl e ↦ rw (e, apply_result_envelope, e) refl
  | inr (resp, e) ↦ rw (e, apply_result_envelope, envelope_response-error c req resp) refl
]

pub OpensSession-envelope :
    (s : Server) (c : Context) (req : Request) (r : Handled)
    → OpensSession s req r
    → OpensSession s req (record r { result = apply_result_envelope c req r.result })
OpensSession-envelope s c req r o = record {
  is_initialize = o.is_initialize;
  no_meta = o.no_meta;
  assigned = apply_result_envelope-session c req r.result ∙ o.assigned;
  succeeds = apply_result_envelope-succeeded c req r.result ∙ o.succeeds;
  client = o.client;
  negotiated = o.negotiated;
  capabilities = o.capabilities;
  told = o.told;
}

-- A session is opened only by an initialize request without protocol metadata that succeeds. The
-- session id is then the next of the generator, and the one event dispatched tells it.
pub handle_request-OpensSession :
    (s : Server) (session : Bytes) (req : Request)
    → (handle_request s session req).result.session_id ≢ []
    → OpensSession s req (handle_request s session req)
unfolding handle_request
handle_request-OpensSession s session req h =
    let c = s.create_context session in
    let r = route s session c req in
    elim (Option-cases (validate_protocol_meta c.versions req)) [
      | inr (e, bad) ↦ absurd (h (rw (bad, handle_request) refl))
      | inl fine ↦
          let kept = apply_result_envelope-session c req r.result in
          let o =
            route-opens s session c req
              (λ none_yet. h (rw (fine, handle_request) (kept ∙ none_yet))) in
          rw (fine, handle_request) (OpensSession-envelope s c req (route s session c req) o)
    ]
