-- ===== src/Client/Transport.antt =====
-- client/transport.go: what the protocol asks of a transport, of its context and of its clock. A
-- transport reads and changes a world of its own.
use velocity_mcp.Base.{Bool, Option, none, ℕ, ◌<◌, ◌≡◌, ◌≤◌}
use velocity_mcp.Bytes.{Bytes}
use velocity_mcp.Json.{Json}
use velocity_mcp.Jsonrpc.{Error, MessageId, Response}
use velocity_mcp.Client.Errors.{Failure, Result, ok}

-- A frame that the client sends: a request, a notification, or the answer to a server's request.
-- Its encoding is left out.
pub data Frame : Type 0 where
  asks : MessageId → Bytes → Option Json → Frame
  tells : Bytes → Option Json → Frame
  replies : Response → Frame

-- The optional interfaces of a transport are optional fields. Progress does not matter here, so
-- that the context of an exchange ends by itself.
pub record Transport (W : Type 0) : Type 0 where
  pub connect : W → Option Failure × W
  pub disconnect : W → W
  pub send : Frame → W → Option Failure × W
  pub receive : W → Result Bytes × W
  pub use_protocol : Bytes → W → W
  pub settle_authorization : W → ℕ × W
  pub authorization_context : W → ℕ
  pub notifies_cancellation : Option (Bytes → Bool)
  pub replies_per_request : Bool
  pub probe_answered_as_legacy : Option (Error → Bool)
  pub exchange_ended : W → Option Failure
  pub is_done : W → Bool
  pub now : W → ℕ
  pub notified : Bytes → W → W

-- A world in which no more is left than in an earlier one, and an ended context stays ended.
pub record IsLater {W : Type 0} (t : Transport W) (left : W → ℕ) (w w' : W) : Type 0 where
  pub no_more : left w' ≤ left w
  pub stays : t.exchange_ended w' ≡ none → t.exchange_ended w ≡ none

-- The context of an exchange is bounded: a frame that is received before it ends takes of the time
-- that is left, and what the client sends or is told gives none back. The transport may deliver
-- frames for ever.
pub record IsBounded {W : Type 0} (t : Transport W) (left : W → ℕ) : Type 0 where
  pub received :
      (w w' : W) (raw : Bytes)
      → t.receive w ≡ (ok raw, w')
      → t.exchange_ended w' ≡ none
      → left w' < left w
  pub sent : (frame : Frame) (w : W) → IsLater t left w (t.send frame w).1
  pub told : (method : Bytes) (w : W) → IsLater t left w (t.notified method w)
