-- ===== src/Transport/Status/Codes.antt =====
-- Which replies are written with the status 200.
use velocity_mcp.Base.{
  Bool-cases, Option, Option-cases, arith, false, inl, inr, none, refl, some, ◌↔◌, ◌≡◌, ◌≢◌, ◌⊎◌,
}
use velocity_mcp.Bytes.{Bytes}
use velocity_mcp.Jsonrpc.{Error, Response}
use velocity_mcp.Transport.Status.{
  is_modern_request, reply_status, status_for_error, status_for_response,
}

-- A reply that carries no error.
pub data CarriesNoError : Option Response → Type 0 where
  no_reply : CarriesNoError none
  result : {resp : Response} → resp.error ≡ none → CarriesNoError (some resp)

status_for_error-ne : (e : Error) → status_for_error e ≢ 200
status_for_error-ne e h = ground arith

status_200 : (resp : Option Response) → status_for_response resp ≡ 200 → CarriesNoError resp
unfolding status_for_response
status_200 none h = no_reply
status_200 (some resp) h = elim (Option-cases resp.error) [
  | inl n ↦ result n
  | inr (x, n) ↦ absurd (status_for_error-ne x (rw n at h))
]

no_error_200 : {resp : Option Response} → CarriesNoError resp → status_for_response resp ≡ 200
unfolding status_for_response
no_error_200 no_reply = refl
no_error_200 (result n) = rw n refl

-- The reply to a message is written with the status 200 exactly when the message is no request with
-- metadata or the reply carries no error: a client of the handshake reads errors from the body.
pub reply_status_iff :
    (body : Bytes) (resp : Option Response)
    → (reply_status body resp ≡ 200) ↔ ((is_modern_request body ≡ false) ⊎ CarriesNoError resp)
unfolding reply_status
reply_status_iff body resp = (
  λ h. elim (Bool-cases (is_modern_request body)) [
    | inl e ↦ inr (status_200 resp (rw e at h))
    | inr e ↦ inl e
  ],
  λ q. elim (Bool-cases (is_modern_request body)) [
    | inr e ↦ rw e refl
    | inl e ↦ elim q [ inl f ↦ absurd (cc (e, f)) | inr f ↦ rw e (no_error_200 f) ]
  ],
)
