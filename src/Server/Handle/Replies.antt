-- ===== src/Server/Handle/Replies.antt =====
-- Which messages are answered, and under which id.
use velocity_mcp.Base.{
  Bool-cases, Option, Option-cases, [], arith, inl, inr, none, not, refl, some, true, ◌&&◌, ◌∙◌,
  ◌≡◌,
}
use velocity_mcp.Bytes.{Bytes, equal}
use velocity_mcp.Assoc.{Assoc, lookup}
use velocity_mcp.Jsonrpc.{Error, MessageId, Request, Response, new_error_response, new_result}
use velocity_mcp.Server.Context.{Context}
use velocity_mcp.Server.Results.{
  Failure, HandleResult, Method, method_not_found, other, reply_error, rpc, with_error,
}
use velocity_mcp.Server.Initialize.{initialize_method, key_initialize}
use velocity_mcp.Server.Handle.{
  Server, apply_result_envelope, handle_initialize, handle_request, handle_tool_call,
  initialize_or_default, key_tools_call, open_session, route, route_method, run_known, succeeded,
}
use velocity_mcp.Server.Meta.Validate.{validate_arguments, validate_protocol_meta}
use velocity_mcp.Server.Meta.{is_legacy_meta, predates_protocol_meta, request_meta}
use velocity_mcp.Server.Envelope.{envelope_response}

-- A result that carries a response under an id.
pub record Answers (id : MessageId) (r : HandleResult) : Type 0 where
  pub answer : Response
  pub is_answer : r.response ≡ some answer
  pub replies : r.has_response ≡ true
  pub correlated : answer.id ≡ id

-- Every response of a handler names the request that it answers.
abbrev pub Correlates : Method → Type 0
Correlates m =
    (c : Context) (req : Request) (resp : Response)
    → (m c req).response ≡ some resp
    → resp.id ≡ req.id

reply_error-Answers : (id : MessageId) (e : Error) → Answers id (reply_error id e)
reply_error-Answers id e = record {
  answer = new_error_response id e;
  is_answer = refl;
  replies = refl;
  correlated = refl;
}

with_error-Answers :
    (o : Option Response) (id : MessageId) (err : Option Failure)
    → ((resp : Response) → o ≡ some resp → resp.id ≡ id)
    → Answers id (with_error o id err)
unfolding with_error new_result
with_error-Answers (some resp) id none h = record {
  answer = resp;
  is_answer = refl;
  replies = refl;
  correlated = h resp refl;
}
with_error-Answers none id none h = record {
  answer = new_result id [];
  is_answer = refl;
  replies = refl;
  correlated = refl;
}
with_error-Answers (some resp) id (some (rpc e)) h = reply_error-Answers id e
with_error-Answers none id (some (rpc e)) h = reply_error-Answers id e
with_error-Answers (some resp) id (some other) h = reply_error-Answers id _
with_error-Answers none id (some other) h = reply_error-Answers id _

initialize_method-Correlates : Correlates initialize_method
unfolding initialize_method new_result
initialize_method-Correlates c req resp h = ground arith

-- The method table's handlers all correlate.
abbrev pub AllCorrelate : Assoc Method → Type 0
AllCorrelate methods = (name : Bytes) (m : Method) → lookup name methods ≡ some m → Correlates m

initialize_or_default-Correlates :
    (methods : Assoc Method) → AllCorrelate methods → Correlates (initialize_or_default methods)
unfolding initialize_or_default
initialize_or_default-Correlates methods h = elim (Option-cases (lookup key_initialize methods)) [
  | inl e ↦ rw (e, initialize_or_default) initialize_method-Correlates
  | inr (m, e) ↦ rw (e, initialize_or_default) (h key_initialize m e)
]

run-Answers :
    (c : Context) (req : Request) (m : Method)
    → Correlates m
    → Answers req.id (with_error (m c req).response req.id (m c req).err)
run-Answers c req m h = with_error-Answers (m c req).response req.id (m c req).err (h c req)

open_session-Answers :
    (s : Server) (req : Request) (c : Context) (r : HandleResult)
    → Answers req.id r
    → Answers req.id (open_session s req c r).result
unfolding open_session
open_session-Answers s req c r h = elim (Bool-cases (succeeded r)) [
  | inl e ↦ rw e (record {
    answer = h.answer;
    is_answer = h.is_answer;
    replies = h.replies;
    correlated = h.correlated;
  })
  | inr e ↦ rw e h
]

module _ (s : Server) (session : Bytes) (c : Context) (req : Request) where
  run_known-Answers :
      (m : Method) → Correlates m → Answers req.id (run_known session c req m).result
  unfolding run_known handle_tool_call
  run_known-Answers m h = elim (Option-cases (validate_arguments req)) [
    | inr (e, bad) ↦ rw (bad, run_known) (reply_error-Answers req.id e)
    | inl fine ↦ elim (Bool-cases (equal req.method key_tools_call)) [
      | inl call ↦ rw (fine, run_known, call) (run-Answers c req m h)
      | inr plain ↦ rw (fine, run_known, plain) (run-Answers c req m h)
    ]
  ]

  method_not_found-Answers : Answers req.id (method_not_found req)
  unfolding method_not_found
  method_not_found-Answers = reply_error-Answers req.id _

  route_method-Answers :
      AllCorrelate s.methods → Answers req.id (route_method s session c req).result
  unfolding route_method
  route_method-Answers h = elim (Option-cases (lookup req.method s.methods)) [
    | inl e ↦ rw (e, route_method) method_not_found-Answers
    | inr (m, e) ↦ rw (e, route_method) (run_known-Answers m (h req.method m e))
  ]

  handle_initialize-Answers :
      AllCorrelate s.methods → Answers req.id (handle_initialize s c req).result
  unfolding handle_initialize
  handle_initialize-Answers h =
      let m = initialize_or_default s.methods in
      open_session-Answers s req (m c req).context _
        (run-Answers c req m (initialize_or_default-Correlates s.methods h))

  route-Answers : AllCorrelate s.methods → Answers req.id (route s session c req).result
  unfolding route
  route-Answers h = elim (Bool-cases (equal req.method key_initialize)) [
    | inr e ↦ rw e (route_method-Answers h)
    | inl e ↦
        elim (Bool-cases
          (predates_protocol_meta req.method && not (is_legacy_meta (request_meta req)))) [
            | inl f ↦ rw (e, f) method_not_found-Answers
            | inr f ↦ rw (e, f) (handle_initialize-Answers h)
          ]
  ]

envelope_response-id :
    (c : Context) (req : Request) (resp : Response) → (envelope_response c req resp).id ≡ resp.id
unfolding envelope_response
envelope_response-id c req resp = ground arith

apply_result_envelope-Answers :
    (c : Context) (req : Request) (r : HandleResult)
    → Answers req.id r
    → Answers req.id (apply_result_envelope c req r)
unfolding apply_result_envelope
apply_result_envelope-Answers c req r h =
    rw (h.is_answer, apply_result_envelope)
      (record {
        answer = envelope_response c req h.answer;
        is_answer = refl;
        replies = h.replies;
        correlated = envelope_response-id c req h.answer ∙ h.correlated;
      })

-- If every handler of the method table answers under the id of its request, a parsed request is
-- answered by a response under its id: refused metadata, unknown methods, refused arguments,
-- failing handlers and handlers without a response included.
pub handle_request-Answers :
    (s : Server) (session : Bytes) (req : Request)
    → AllCorrelate s.methods
    → Answers req.id (handle_request s session req).result
unfolding handle_request
handle_request-Answers s session req h =
    let c = s.create_context session in
    elim (Option-cases (validate_protocol_meta c.versions req)) [
      | inr (e, bad) ↦ rw (bad, handle_request) (reply_error-Answers req.id e)
      | inl fine ↦
          rw (fine, handle_request)
            (apply_result_envelope-Answers c req (route s session c req).result
              (route-Answers s session c req h))
    ]
