-- ===== src/Client/Protocol.antt =====
-- client/protocol.go: the state of the protocol, and one exchange of frames.
pub mod Kept
pub mod Ends
pub mod Tests
use velocity_mcp.Base.{
  Bool, List, Option, [], drop, false, if◌then◌else◌, length, ltb, none, not, some, suc, true, zero,
  ℕ, ◌&&◌, ◌++◌, ◌+◌, ◌-◌, ◌==◌, ◌>>=◌, ◌||◌, ◌∷◌,
}
use velocity_mcp.Bytes.{Bytes, codes, equal}
use velocity_mcp.Json.{Field, Json, end, member, null, num, obj, str, valid}
use velocity_mcp.Json.Encode.{print_decimal}
use velocity_mcp.Json.Decode.{same_field}
use velocity_mcp.Jsonrpc.{
  Error, MessageId, Response, code_method_not_found, is_null, is_valid_request_id,
  new_error_response_code, new_result, unmarshal_id,
}
use velocity_mcp.Jsonrpc.Parse.{Parsed, accepted, raw, refused}
use velocity_mcp.Jsonrpc.ParseResponse.{parse_response}
use velocity_mcp.Server.Protocol.{protocol_v20260728}
use velocity_mcp.Client.Errors.{Failure, Result, err, ok, plain_failure, rejected_by, suspended_by}
use velocity_mcp.Client.Unfinished.{
  Completion, finished_result, invalid_result, suspended, unfinished_result,
}
use velocity_mcp.Client.Results.{DiscoverResult, InitializeResult, raw_field, struct_fields}
use velocity_mcp.Client.Transport.{Transport, asks, replies, tells}

-- `negotiatedConnection`.
pub record Negotiated : Type 0 where
  pub version : Bytes
  pub discover : Option DiscoverResult
  pub initialize : Option InitializeResult
  pub stale_after : ℕ
  pub authorization : ℕ

-- The connection that the protocol has; an empty version is no pin.
pub record Link : Type 0 where
  pub connected : Bool
  pub connecting : Bool
  pub conn : Option Negotiated
  pub generation : ℕ
  pub pinned : Bytes
  pub pin_failed : Bool

pub record WithdrawnRequest : Type 0 where
  pub id : Bytes
  pub at : ℕ

pub record Protocol (W : Type 0) : Type 0 where
  pub link : Link
  pub next_id : ℕ
  pub unaccounted : List WithdrawnRequest
  pub silent : Bool
  pub world : W

-- `handshakeFor`: whether a version negotiates by discovery.
abbrev pub negotiates_discovery : Bytes → Bool
negotiates_discovery version = equal version protocol_v20260728

abbrev pub withdrawn_reply_window : ℕ
withdrawn_reply_window = 5000000000

abbrev pub max_unaccounted : ℕ
max_unaccounted = 64

-- `lapseLocked`.
unfoldable pub lapse : ℕ → List WithdrawnRequest → List WithdrawnRequest
lapse now [] = []
lapse now (w ∷ ws) =
    let kept = lapse now ws in if ltb (now - w.at) withdrawn_reply_window then w ∷ kept else kept

-- `accountedFor`: the first of the id goes.
unfoldable pub without_id : Bytes → List WithdrawnRequest → List WithdrawnRequest
without_id raw [] = []
without_id raw (w ∷ ws) = let kept = without_id raw ws in if equal w.id raw then ws else w ∷ kept

abbrev pub at_most : ℕ → List WithdrawnRequest → List WithdrawnRequest
at_most n ws = drop (length ws - n) ws

-- What a frame of the server states: its method, if any, and its id.
pub record ServerProbe : Type 0 where
  pub method : Option Bytes
  pub id : Bytes

abbrev set_method : Option Bytes → Json → Option (Option Bytes)
set_method old null = some none
set_method old (str s) = some (some s)
set_method old _ = none

unfoldable pub method_field : Option Bytes → List Field → Option (Option Bytes)
method_field old [] = some old
method_field old (f ∷ fs) =
    (if same_field (codes "method") f.name then set_method old f.val else some old) >>= λ new.
    method_field new fs

unfoldable pub server_probe : Bytes → Option ServerProbe
server_probe raw = do
  fields ← struct_fields raw
  method ← method_field none fields
  some (record { method = method; id = raw_field (codes "id") fields })

-- The id of a server's request; `none` for one that no request may have.
unfoldable pub request_id : Bytes → Option MessageId
request_id raw =
    let (id, valid) = unmarshal_id raw in if valid && is_valid_request_id id then some id else none

-- The answer to a server's request.
unfoldable pub answer_to : MessageId → Bytes → Response
answer_to id method =
    if equal method (codes "ping")
    then new_result id (codes "{}")
    else new_error_response_code id code_method_not_found
        (codes "method [" ++ (method ++ codes "] is not supported by this client"))

-- What is made of a frame that the server began: nothing, or that it was served or cannot be.
pub data Served : Type 0 where
  passed_by : Served
  served : Served
  unserved : Failure → Served

-- What an exchange brings: a result, an error of the server, or a failure of the exchange.
pub data Answer : Type 0 where
  answered : Bytes → Answer
  rejected : Error → Answer
  broken : Failure → Answer
  unread : Answer

abbrev pub answer_of : Response → Answer
answer_of resp = elim resp.error [ none ↦ answered resp.result | some e ↦ rejected e ]

module _ {W : Type 0} (max_turns : ℕ) (t : Transport W) where
  abbrev pub in_world : Protocol W → W → Protocol W
  in_world p w = record p { world = w }

  unfoldable pub account : MessageId → Protocol W → Protocol W
  account id p = if t.replies_per_request then p else record p {
    unaccounted =
        at_most max_unaccounted
          (lapse (t.now p.world) p.unaccounted ++ record { id = id.raw; at = t.now p.world } ∷ []);
  }

  abbrev pub oldest_taken : List WithdrawnRequest → Protocol W → Bool × Protocol W
  oldest_taken [] p = (false, record p { unaccounted = [] })
  oldest_taken (w ∷ ws) p = (true, record p { unaccounted = ws })

  -- `repliesToWithdrawn`.
  unfoldable pub replies_to_withdrawn : Protocol W → Bool × Protocol W
  replies_to_withdrawn p = oldest_taken (lapse (t.now p.world) p.unaccounted) p

  abbrev pub sent_reply : Option Failure × W → Protocol W → Served × Protocol W
  sent_reply (none, w) p = (served, in_world p w)
  sent_reply (some f, w) p = (unserved f, in_world p w)

  -- A request of the server, by its id.
  unfoldable pub serve_request : Option MessageId → Bytes → Bytes → Protocol W → Served × Protocol W
  serve_request none method version p = (unserved plain_failure, p)
  serve_request (some id) method version p =
      let replied = sent_reply (t.send (replies (answer_to id method)) p.world) p in
      if negotiates_discovery version then (unserved plain_failure, p) else replied

  -- `serveServerFrame`, of what the frame states.
  unfoldable pub serve_probe : Option ServerProbe → Bytes → Protocol W → Served × Protocol W
  serve_probe none version p = (passed_by, p)
  serve_probe (some probe) version p = elim probe.method [
    | none ↦ (passed_by, p)
    | some method ↦
        if length probe.id == 0
        then (served, in_world p (t.notified method p.world))
        else serve_request (request_id probe.id) method version p
  ]

  -- A reply, as the answer to the request of an id; `none` for one that is passed over.
  unfoldable pub correlate : MessageId → Response → Protocol W → Option Answer × Protocol W
  correlate id resp p =
      let (withdrawn, q) = replies_to_withdrawn p in
      if equal resp.id.raw id.raw
      then (some (answer_of resp), p)
      else if not (is_null resp.id)
      then (none, record p { unaccounted = without_id resp.id.raw p.unaccounted })
      else elim resp.error [
        | none ↦ (none, p)
        | some e ↦ if withdrawn then (none, q) else (some (rejected e), q)
      ]

  unfoldable pub parsed_reply :
      MessageId → Parsed Response → Protocol W → Option Answer × Protocol W
  parsed_reply id (refused e) p = (some (broken plain_failure), p)
  parsed_reply id (accepted resp) p = correlate id resp p

  -- A frame, once it is known whether it is the server's own.
  abbrev pub frame_served : MessageId → Bytes → Served × Protocol W → Option Answer × Protocol W
  frame_served id raw (served, p) = (none, p)
  frame_served id raw (unserved f, p) = (some (broken f), p)
  frame_served id raw (passed_by, p) = parsed_reply id (parse_response raw) p

  -- What was received.
  unfoldable pub take_in :
      MessageId → Bytes → Result Bytes × W → Protocol W → Option Answer × Protocol W
  take_in id version (err f, w) p = (some (broken f), in_world p w)
  take_in id version (ok raw, w) p =
      frame_served id raw
        (serve_probe (server_probe raw) version (record p { world = w; silent = false }))

  abbrev pub or_ended : Bool → W → Option Failure
  or_ended passed_over w = if passed_over then t.exchange_ended w else none

  abbrev pub or_rest : Option Answer × Protocol W → Answer × Protocol W → Answer × Protocol W
  or_rest (some a, p) rest = (a, p)
  or_rest (none, p) rest = rest

  -- The loop of `exchangeFrame`, of so many turns at most.
  unfoldable pub read_reply : ℕ → Bool → MessageId → Bytes → Protocol W → Answer × Protocol W
  read_reply zero passed_over id version p = (unread, p)
  read_reply (suc turns) passed_over id version p =
      let taken = take_in id version (t.receive p.world) p in
      let rest = read_reply turns true id version taken.1 in
      elim (or_ended passed_over p.world) [ some f ↦ (broken f, p) | none ↦ or_rest taken rest ]

  abbrev pub sent_request :
      MessageId → Bytes → Option Failure × W → Protocol W → Answer × Protocol W
  sent_request id version (some f, w) p = (broken f, in_world p w)
  sent_request id version (none, w) p = read_reply max_turns false id version (in_world p w)

  unfoldable pub exchange_frame :
      Bytes → Option Json → MessageId → Bytes → Protocol W → Answer × Protocol W
  exchange_frame method params id version p =
      sent_request id version (t.send (asks id method params) p.world) p

  -- `notify`.
  unfoldable pub notify : Bytes → Option Json → Bytes → Protocol W → Option Failure × Protocol W
  notify method params version p =
      let (f, w) = t.send (tells method params) (t.use_protocol version p.world) in
      (f, in_world p w)

  unfoldable pub disconnect : Protocol W → Protocol W
  disconnect p = record p {
    link = record p.link { connected = false };
    unaccounted = [];
    silent = false;
    world = t.disconnect p.world;
  }

  abbrev pub disconnect_if_connected : Protocol W → Protocol W
  disconnect_if_connected p = if p.link.connected then disconnect p else p

  abbrev pub cancellation : MessageId → Bool → Option Json
  cancellation id timed_out = some (
      obj (
        member (codes "requestId") (num id.raw) (
          member (codes "reason")
            (str (
              if timed_out
              then codes "the request timed out"
              else codes "the caller withdrew the request"))
            end)))

  abbrev pub accounted : MessageId → Option Failure × Protocol W → Bool × Protocol W
  accounted id (some f, p) = (false, p)
  accounted id (none, p) = (true, account id p)

  abbrev pub withdrawn_from :
      Option (Bytes → Bool) → Failure → MessageId → Bytes → Protocol W → Bool × Protocol W
  withdrawn_from none failure id version p = (false, p)
  withdrawn_from (some notifies) failure id version p =
      let timed_out = failure.is_timeout || failure.is_deadline in
      let settled = p.link.connected && not p.link.connecting in
      let hung = timed_out && p.silent in
      let q = if settled && timed_out then record p { silent = not hung } else p in
      if not timed_out && not failure.is_cancelled
      then (false, p)
      else if not settled || hung
      then (false, q)
      else if not (notifies version)
      then (true, q)
      else accounted id
          (notify (codes "notifications/cancelled") (cancellation id timed_out) version q)

  -- `withdrawn`: whether the connection stands, although an exchange failed.
  unfoldable pub withdrawn : Failure → MessageId → Bytes → Protocol W → Bool × Protocol W
  withdrawn failure id version p = withdrawn_from t.notifies_cancellation failure id version p

  abbrev pub of_completion : Bytes → Completion → Result Bytes
  of_completion raw finished_result = ok raw
  of_completion raw invalid_result = err plain_failure
  of_completion raw (suspended u) = err (suspended_by u)

  -- What an attempt makes of the answer.
  unfoldable pub conclude_attempt :
      Bytes → MessageId → Bytes → Answer × Protocol W → Result Bytes × Protocol W
  conclude_attempt method id version (answered raw, p) =
      (of_completion raw (unfinished_result method raw), p)
  conclude_attempt method id version (rejected e, p) = (err (rejected_by e), p)
  conclude_attempt method id version (broken f, p) =
      let (stands, q) = withdrawn f id version p in
      (err f, if stands then q else disconnect_if_connected q)
  conclude_attempt method id version (unread, p) = (err plain_failure, p)

  unfoldable pub attempt : Bytes → Option Json → Bytes → Protocol W → Result Bytes × Protocol W
  attempt method params version p =
      let id : MessageId = record { raw = print_decimal p.next_id } in
      conclude_attempt method id version (
        exchange_frame method params id version
          (record p { next_id = p.next_id + 1; world = t.use_protocol version p.world }))
