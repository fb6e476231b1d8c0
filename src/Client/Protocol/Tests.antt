-- ===== src/Client/Protocol/Tests.antt =====
-- The exchange of frames, at a concrete input.
use velocity_mcp.Client.Protocol.{exchange_frame, unread}
use velocity_mcp.Base.{
  List, Option, [], ap, arith, false, none, none-ne-some, some, suc, sym, zero, ℕ, ◌+◌, ◌<◌, ◌∷◌,
  ◌≡◌, ◌≢◌, ◌≤◌,
}
use velocity_mcp.Bytes.{Bytes, codes}
use velocity_mcp.Jsonrpc.{MessageId}
use velocity_mcp.Server.Protocol.{protocol_v20251125}
use velocity_mcp.Client.Errors.{Failure, Result, err, ok, plain_failure}
use velocity_mcp.Client.Transport.{IsBounded, Transport}
use velocity_mcp.Client.Protocol.Ends.{exchange_frame-ends}
use velocity_mcp.Client.Connection.{new_protocol}

abbrev next_frame : List Bytes → Result Bytes × List Bytes
next_frame [] = (err plain_failure, [])
next_frame (frame ∷ frames) = (ok frame, frames)

-- A transport that delivers the frames of a script, and fails behind them.
abbrev pub script : Transport (List Bytes)
script = record {
  connect = λ w. (none, w);
  disconnect = λ w. w;
  send = λ frame w. (none, w);
  receive = next_frame;
  use_protocol = λ v w. w;
  settle_authorization = λ w. (0, w);
  authorization_context = λ w. 0;
  notifies_cancellation = none;
  replies_per_request = false;
  probe_answered_as_legacy = none;
  exchange_ended = λ w. none;
  is_done = λ w. false;
  now = λ w. 0;
  notified = λ method w. w;
}

abbrev chatter : Bytes
chatter = codes "{\"jsonrpc\":\"2.0\",\"method\":\"notifications/message\"}"

abbrev out_of_time : ℕ → Option Failure
out_of_time zero = some plain_failure
out_of_time (suc n) = none

abbrev tick : ℕ → ℕ
tick zero = zero
tick (suc n) = n

-- A server that sends the same notification for ever, each in one unit of the time that is left.
abbrev chatty : Transport ℕ
chatty = record {
  connect = λ w. (none, w);
  disconnect = λ w. w;
  send = λ frame w. (none, w);
  receive = λ w. (ok chatter, tick w);
  use_protocol = λ v w. w;
  settle_authorization = λ w. (0, w);
  authorization_context = λ w. 0;
  notifies_cancellation = none;
  replies_per_request = false;
  probe_answered_as_legacy = none;
  exchange_ended = out_of_time;
  is_done = λ w. false;
  now = λ w. 0;
  notified = λ method w. w;
}

abbrev time_left : ℕ → ℕ
time_left n = n

tick-less : (w w' : ℕ) → w' ≡ tick w → out_of_time w' ≡ none → w' < w
tick-less zero w' e h = absurd (none-ne-some (sym (rw e at h)))
tick-less (suc n) w' e h = rw e (omega arith)

chatty-IsBounded : IsBounded chatty time_left
chatty-IsBounded = record {
  received = λ w w' raw e h. tick-less w w' (sym (ap (λ r. r.1) e)) h;
  sent = λ frame w. record { no_more = omega arith; stays = λ h. h };
  told = λ method w. record { no_more = omega arith; stays = λ h. h };
}

abbrev first_id : MessageId
first_id = record { raw = codes "1" }

exchange_frame-ends_example :
    (exchange_frame 5 chatty (codes "ping") none first_id protocol_v20251125 (new_protocol 3)).0
    ≢ unread
exchange_frame-ends_example =
    exchange_frame-ends 5 chatty time_left chatty-IsBounded (codes "ping") none first_id
      protocol_v20251125 (new_protocol 3) enough
  where
    enough : time_left (new_protocol 3).world + 2 ≤ 5
    enough = unfold new_protocol in omega arith
