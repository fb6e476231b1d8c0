-- ===== src/Server/Handle/Events.antt =====
-- What the listeners are told.
use velocity_mcp.Base.{
  Bool, Bool-cases, Option, Option-cases, [], ap, arith, false, inl, inr, none, not, refl, some,
  true, ◌∙◌, ◌∷◌, ◌≡◌, ◌≢◌,
}
use velocity_mcp.Bytes.{Bytes, codes, equal}
use velocity_mcp.Json.{Members}
use velocity_mcp.Jsonrpc.{Error, MessageId, Request, new_result}
use velocity_mcp.Server.Meta.{is_legacy_meta, key_arguments, request_meta}
use velocity_mcp.Server.Results.{
  Failure, Handled, Method, Reply, method_not_found, tool_called, tool_failed, with_error,
}
use velocity_mcp.Server.Initialize.{decode_params, key_initialize, map_param, string_param}
use velocity_mcp.Server.Handle.{
  Server, apply_result_envelope, call_failed, handle_initialize, handle_request, handle_tool_call,
  initialize_or_default, key_tools_call, open_session, result_is_error, route, route_method,
  run_known, succeeded,
}
use velocity_mcp.Server.Handle.Sessions.{
  OpensSession, OpensSession-envelope, apply_result_envelope-succeeded, open_session-success,
  predates_initialize,
}
use velocity_mcp.Assoc.{lookup}
use velocity_mcp.Bytes.Laws.{equal-eq, equal_iff}
use velocity_mcp.Server.Meta.Validate.{validate_arguments, validate_protocol_meta}
use velocity_mcp.Server.Context.{Context}

abbrev pub tool_name : Request → Bytes
tool_name req = string_param (decode_params req.params) (codes "name")

abbrev pub tool_arguments : Request → Option Members
tool_arguments req = map_param (decode_params req.params) key_arguments

-- Why a request is told to no listener: its metadata is refused, it is neither a handshake nor a
-- tool call, the handshake fails, or the tool call never reaches a handler.
pub data Untold (s : Server) (session : Bytes) (req : Request) (r : Handled) : Type 0 where
  bad_meta :
      (e : Error)
      → validate_protocol_meta (s.create_context session).versions req ≡ some e
      → Untold s session req r
  other_method : req.method ≢ key_initialize → req.method ≢ key_tools_call → Untold s session req r
  handshake_failed :
      req.method ≡ key_initialize → succeeded r.result ≡ false → Untold s session req r
  unknown_method :
      req.method ≢ key_initialize → lookup req.method s.methods ≡ none → Untold s session req r
  bad_arguments : (e : Error) → validate_arguments req ≡ some e → Untold s session req r

-- The events of one request.
pub data Told (s : Server) (session : Bytes) (req : Request) (r : Handled) : Type 0 where
  nothing : r.events ≡ [] → Untold s session req r → Told s session req r
  initialized : OpensSession s req r → Told s session req r
  called :
      (flag : Bool)
      → req.method ≡ key_tools_call
      → succeeded r.result ≡ true
      → r.events ≡ tool_called session (tool_name req) (tool_arguments req) flag ∷ []
      → Told s session req r
  failed :
      (err : Option Failure)
      → req.method ≡ key_tools_call
      → succeeded r.result ≡ false
      → r.events ≡ tool_failed session (tool_name req) (tool_arguments req) err ∷ []
      → Told s session req r

-- A handler's error is always answered by an error response.
call_failed-succeeded :
    (reply : Reply) (id : MessageId)
    → call_failed reply (with_error reply.response id reply.err)
      ≡ not (succeeded (with_error reply.response id reply.err))
unfolding with_error new_result
call_failed-succeeded reply id = ground arith

module _ (s : Server) (session : Bytes) (c : Context) (req : Request) where
  handle_tool_call-Told :
      (m : Method)
      → req.method ≡ key_tools_call
      → Told s session req (handle_tool_call session c req m)
  unfolding handle_tool_call
  handle_tool_call-Told m named =
      let reply = m c req in
      let res = with_error reply.response req.id reply.err in
      let flips = call_failed-succeeded reply req.id in
      elim (Bool-cases (succeeded res)) [
        | inl e ↦
            let calm : call_failed reply res ≡ false = flips ∙ ap not e in
            called (result_is_error res) named e (rw calm refl)
        | inr e ↦
            let broken : call_failed reply res ≡ true = flips ∙ ap not e in
            failed reply.err named e (rw broken refl)
      ]

  run_known-Told :
      (m : Method) → req.method ≢ key_initialize → Told s session req (run_known session c req m)
  unfolding run_known
  run_known-Told m later = elim (Option-cases (validate_arguments req)) [
    | inr (e, bad) ↦ rw (bad, run_known) (nothing refl (bad_arguments e bad))
    | inl fine ↦ elim (Bool-cases (equal req.method key_tools_call)) [
      | inl call ↦ rw (fine, run_known, call) (handle_tool_call-Told m (equal-eq _ _ call))
      | inr plain ↦
          rw (fine, run_known, plain)
            (nothing refl (other_method later (λ q. cc (plain, (equal_iff _ _).1 q))))
    ]
  ]

  route_method-Told :
      req.method ≢ key_initialize → Told s session req (route_method s session c req)
  unfolding route_method
  route_method-Told later = elim (Option-cases (lookup req.method s.methods)) [
    | inl e ↦ rw (e, route_method) (nothing refl (unknown_method later e))
    | inr (m, e) ↦ rw (e, route_method) (run_known-Told m later)
  ]

  handle_initialize-Told :
      req.method ≡ key_initialize
      → is_legacy_meta (request_meta req) ≡ true
      → Told s session req (handle_initialize s c req)
  unfolding handle_initialize
  handle_initialize-Told named legacy =
      let reply = initialize_or_default s.methods c req in
      let res = with_error reply.response req.id reply.err in
      elim (Bool-cases (succeeded res)) [
        | inl e ↦ initialized (open_session-success s req reply.context res named legacy e)
        | inr e ↦ unfold open_session in rw e (nothing refl (handshake_failed named e))
      ]

  route-Told : Told s session req (route s session c req)
  unfolding route
  route-Told = elim (Bool-cases (equal req.method key_initialize)) [
    | inr e ↦ rw e (route_method-Told (λ q. cc (e, (equal_iff _ _).1 q)))
    | inl e ↦
        let named = equal-eq req.method key_initialize e in
        let older = predates_initialize req.method named in
        elim (Bool-cases (is_legacy_meta (request_meta req))) [
          | inl f ↦ rw (e, older, f) (handle_initialize-Told named f)
          | inr f ↦
              rw (e, older, f)
                (nothing refl (handshake_failed named (unfold method_not_found in refl)))
        ]
  ]

  Untold-envelope :
      (r : Handled)
      → Untold s session req r
      → Untold s session req (record r { result = apply_result_envelope c req r.result })
  Untold-envelope r (bad_meta e q) = bad_meta e q
  Untold-envelope r (other_method p q) = other_method p q
  Untold-envelope r (handshake_failed p q) =
      handshake_failed p (apply_result_envelope-succeeded c req r.result ∙ q)
  Untold-envelope r (unknown_method p q) = unknown_method p q
  Untold-envelope r (bad_arguments e q) = bad_arguments e q

  Told-envelope :
      (r : Handled)
      → Told s session req r
      → Told s session req (record r { result = apply_result_envelope c req r.result })
  Told-envelope r (nothing e why) = nothing e (Untold-envelope r why)
  Told-envelope r (initialized o) = initialized (OpensSession-envelope s c req r o)
  Told-envelope r (called flag named e told) =
      called flag named (apply_result_envelope-succeeded c req r.result ∙ e) told
  Told-envelope r (failed err named e told) =
      failed err named (apply_result_envelope-succeeded c req r.result ∙ e) told

-- A request is told to the listeners at most once: a handshake when it opens a session, and a tool
-- call, under the name and the arguments that it states, as called when it is answered with a
-- result and as failed when it is answered with an error. One that is told to none has refused
-- metadata, is of another method, is a handshake that failed, or reached no handler.
pub handle_request-Told :
    (s : Server) (session : Bytes) (req : Request)
    → Told s session req (handle_request s session req)
unfolding handle_request
handle_request-Told s session req =
    let c = s.create_context session in
    elim (Option-cases (validate_protocol_meta c.versions req)) [
      | inr (e, bad) ↦ rw (bad, handle_request) (nothing refl (bad_meta e bad))
      | inl fine ↦
          rw (fine, handle_request)
            (Told-envelope s session c req (route s session c req) (route-Told s session c req))
    ]
