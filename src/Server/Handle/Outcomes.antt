-- ===== src/Server/Handle/Outcomes.antt =====
-- What becomes of each inbound message.
use velocity_mcp.Base.{Bool, ap, false, refl, true, ◌∙◌, ◌≡◌}
use velocity_mcp.Bytes.{Bytes}
use velocity_mcp.Jsonrpc.{Error, MessageId, Notification, Request, null_id}
use velocity_mcp.Server.Results.{HandleResult, reply_error}
use velocity_mcp.Server.Handle.{Server, handle, of_notification, of_request, silent}
use velocity_mcp.Jsonrpc.Parse.{
  Parsed, RequestResult, accepted, invalid, is_notification_bytes, parse_notification,
  parse_request, refused, request,
}
use velocity_mcp.Jsonrpc.Parse.Requests.{Refusal, parse_request-Refusal, parse_request_iff}
use velocity_mcp.Server.Handle.Replies.{AllCorrelate, Answers, handle_request-Answers}

-- The ways in which a message is answered.
pub data Outcome (message : Bytes) (r : HandleResult) : Type 0 where
  notified :
      (n : Notification)
      → is_notification_bytes message ≡ accepted true
      → parse_notification message ≡ accepted n
      → r ≡ silent
      → Outcome message r
  bad_notification :
      (e : Error)
      → is_notification_bytes message ≡ accepted true
      → parse_notification message ≡ refused e
      → r ≡ reply_error null_id e
      → Outcome message r
  unreadable :
      (e : Error)
      → is_notification_bytes message ≡ refused e
      → r ≡ reply_error null_id e
      → Outcome message r
  bad_request :
      (id : MessageId) (e : Error)
      → is_notification_bytes message ≡ accepted false
      → parse_request message ≡ invalid id e
      → Refusal message id e
      → r ≡ reply_error id e
      → Outcome message r
  requested :
      (req : Request)
      → is_notification_bytes message ≡ accepted false
      → parse_request message ≡ request req req.id
      → Answers req.id r
      → Outcome message r

notification-Outcome :
    (message : Bytes) (p : Parsed Notification)
    → is_notification_bytes message ≡ accepted true
    → parse_notification message ≡ p
    → Outcome message (of_notification p)
notification-Outcome message (accepted n) h e = notified n h e refl
notification-Outcome message (refused x) h e = bad_notification x h e refl

module _ (s : Server) (session : Bytes) (correlates : AllCorrelate s.methods) where
  request-Outcome :
      (message : Bytes) (o : RequestResult)
      → is_notification_bytes message ≡ accepted false
      → parse_request message ≡ o
      → Outcome message (of_request s session o).result
  request-Outcome message (request req id) h e =
      let same = ((parse_request_iff message req id).0 e).0 in
      requested req h (e ∙ ap (request req) same) (handle_request-Answers s session req correlates)
  request-Outcome message (invalid id x) h e =
      bad_request id x h e (parse_request-Refusal message id x e) refl

  class-Outcome :
      (message : Bytes) (p : Parsed Bool)
      → is_notification_bytes message ≡ p
      → Outcome message (handle s session message).result
  unfolding handle
  class-Outcome message (refused x) h = rw (h, handle) (unreadable x h refl)
  class-Outcome message (accepted true) h =
      rw (h, handle) (notification-Outcome message (parse_notification message) h refl)
  class-Outcome message (accepted false) h =
      rw (h, handle) (request-Outcome message (parse_request message) h refl)

  -- If every handler of the method table answers under the id of its request, every message is
  -- answered exactly once, but for a well-formed notification, which is answered with nothing. A
  -- request that parses is answered under its id, and a message that is refused under the null id
  -- or the valid id that it states.
  pub handle-Outcome : (message : Bytes) → Outcome message (handle s session message).result
  handle-Outcome message = class-Outcome message (is_notification_bytes message) refl
