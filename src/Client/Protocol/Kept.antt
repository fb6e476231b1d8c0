-- ===== src/Client/Protocol/Kept.antt =====
-- What an exchange of frames leaves of the connection.
use velocity_mcp.Base.{
  Bool, List, Option, Option-cases, [], arith, false, if◌then◌else◌, inl, inr, none, not, refl,
  some, suc, true, zero, ℕ, ◌&&◌, ◌+◌, ◌||◌, ◌∙◌, ◌∷◌, ◌≡◌, ◌⊎◌,
}
use velocity_mcp.Bytes.{Bytes, codes}
use velocity_mcp.Jsonrpc.{MessageId, Response}
use velocity_mcp.Client.Transport.{Transport, asks, replies}
use velocity_mcp.Json.Encode.{print_decimal}
use velocity_mcp.Client.Protocol.{
  Answer, Link, Protocol, Served, ServerProbe, WithdrawnRequest, account, accounted, answer_to,
  answered, attempt, broken, cancellation, conclude_attempt, correlate, disconnect,
  disconnect_if_connected, exchange_frame, frame_served, in_world, lapse, notify, oldest_taken,
  or_rest, parsed_reply, passed_by, read_reply, rejected, replies_to_withdrawn, request_id,
  sent_reply, sent_request, serve_probe, serve_request, served, server_probe, take_in, unread,
  unserved, withdrawn, withdrawn_from,
}
use velocity_mcp.Json.{Json}
use velocity_mcp.Jsonrpc.Parse.{Parsed, accepted, raw, refused}
use velocity_mcp.Jsonrpc.ParseResponse.{parse_response}
use velocity_mcp.Client.Errors.{Failure, Result, err, ok}

module _ {W : Type 0} (max_turns : ℕ) (t : Transport W) where
  oldest_taken-link :
      (ws : List WithdrawnRequest) (p : Protocol W)
      → (oldest_taken max_turns t ws p).1.link ≡ p.link
  oldest_taken-link [] p = refl
  oldest_taken-link (w ∷ ws) p = refl

  replies_to_withdrawn-link :
      (p : Protocol W) → (replies_to_withdrawn max_turns t p).1.link ≡ p.link
  unfolding replies_to_withdrawn
  replies_to_withdrawn-link p = oldest_taken-link (lapse (t.now p.world) p.unaccounted) p

  sent_reply-link :
      (r : Option Failure × W) (p : Protocol W) → (sent_reply max_turns t r p).1.link ≡ p.link
  sent_reply-link (none, w) p = refl
  sent_reply-link (some f, w) p = refl

  serve_request-link :
      (id : Option MessageId) (method v : Bytes) (p : Protocol W)
      → (serve_request max_turns t id method v p).1.link ≡ p.link
  unfolding serve_request
  serve_request-link none method v p = refl
  serve_request-link (some id) method v p =
      ground (arith, sent_reply-link (t.send (replies (answer_to id method)) p.world) p)

  serve_probe-link :
      (probe : Option ServerProbe) (v : Bytes) (p : Protocol W)
      → (serve_probe max_turns t probe v p).1.link ≡ p.link
  unfolding serve_probe
  serve_probe-link none v p = refl
  serve_probe-link (some probe) v p = elim (Option-cases probe.method) [
    | inl e ↦ rw e refl
    | inr (m, e) ↦ rw e (ground (arith, serve_request-link (request_id probe.id) m v p))
  ]

  correlate-link :
      (id : MessageId) (resp : Response) (p : Protocol W)
      → (correlate max_turns t id resp p).1.link ≡ p.link
  unfolding correlate
  correlate-link id resp p = ground (arith, replies_to_withdrawn-link p)

  parsed_reply-link :
      (id : MessageId) (parsed : Parsed Response) (p : Protocol W)
      → (parsed_reply max_turns t id parsed p).1.link ≡ p.link
  unfolding parsed_reply
  parsed_reply-link id (refused e) p = refl
  parsed_reply-link id (accepted resp) p = correlate-link id resp p

  frame_served-link :
      (id : MessageId) (raw : Bytes) (r : Served × Protocol W)
      → (frame_served max_turns t id raw r).1.link ≡ r.1.link
  frame_served-link id raw (served, p) = refl
  frame_served-link id raw (unserved f, p) = refl
  frame_served-link id raw (passed_by, p) = parsed_reply-link id (parse_response raw) p

  take_in-link :
      (id : MessageId) (v : Bytes) (r : Result Bytes × W) (p : Protocol W)
      → (take_in max_turns t id v r p).1.link ≡ p.link
  unfolding take_in
  take_in-link id v (err f, w) p = refl
  take_in-link id v (ok raw, w) p =
      let q : Protocol W = record p { world = w; silent = false } in
      frame_served-link id raw (serve_probe max_turns t (server_probe raw) v q)
      ∙ serve_probe-link (server_probe raw) v q

  or_rest-link :
      (taken : Option Answer × Protocol W) (rest : Answer × Protocol W) (l : Link)
      → taken.1.link ≡ l
      → rest.1.link ≡ l
      → (or_rest max_turns t taken rest).1.link ≡ l
  or_rest-link (some a, p) rest l h k = h
  or_rest-link (none, p) rest l h k = k

  read_reply-link :
      (turns : ℕ) (passed_over : Bool) (id : MessageId) (v : Bytes) (p : Protocol W)
      → (read_reply max_turns t turns passed_over id v p).1.link ≡ p.link
  unfolding read_reply
  read_reply-link zero passed_over id v p = refl
  read_reply-link (suc turns) passed_over id v p =
      let taken = take_in max_turns t id v (t.receive p.world) p in
      let here = take_in-link id v (t.receive p.world) p in
      let later = read_reply-link turns true id v taken.1 ∙ here in
      ground (
        arith,
        or_rest-link taken (read_reply max_turns t turns true id v taken.1) p.link here later,
      )

  sent_request-link :
      (id : MessageId) (v : Bytes) (r : Option Failure × W) (p : Protocol W)
      → (sent_request max_turns t id v r p).1.link ≡ p.link
  sent_request-link id v (some f, w) p = refl
  sent_request-link id v (none, w) p =
      read_reply-link max_turns false id v (in_world max_turns t p w)

  exchange_frame-link :
      (method : Bytes) (params : Option Json) (id : MessageId) (v : Bytes) (p : Protocol W)
      → (exchange_frame max_turns t method params id v p).1.link ≡ p.link
  unfolding exchange_frame
  exchange_frame-link method params id v p =
      sent_request-link id v (t.send (asks id method params) p.world) p

  pub notify-link :
      (method : Bytes) (params : Option Json) (v : Bytes) (p : Protocol W)
      → (notify max_turns t method params v p).1.link ≡ p.link
  unfolding notify
  notify-link method params v p = refl

  accounted-link :
      (id : MessageId) (r : Option Failure × Protocol W)
      → (accounted max_turns t id r).1.link ≡ r.1.link
  unfolding account
  accounted-link id (some f, p) = refl
  accounted-link id (none, p) = ground arith

  if-link :
      (b : Bool) (x y : Bool × Protocol W) (l : Link)
      → x.1.link ≡ l
      → y.1.link ≡ l
      → (if b then x else y).1.link ≡ l
  if-link true x y l h k = h
  if-link false x y l h k = k

  withdrawn_from-link :
      (notifies : Option (Bytes → Bool)) (f : Failure) (id : MessageId) (v : Bytes) (p : Protocol W)
      → (withdrawn_from max_turns t notifies f id v p).1.link ≡ p.link
  withdrawn_from-link none f id v p = refl
  withdrawn_from-link (some notifies) f id v p =
      let timed_out = f.is_timeout || f.is_deadline in
      let settled = p.link.connected && not p.link.connecting in
      let q : Protocol W =
        if settled && timed_out then record p { silent = not (timed_out && p.silent) } else p in
      let kept : q.link ≡ p.link = ground arith in
      let told = accounted-link id (
        notify max_turns t (codes "notifications/cancelled") (cancellation max_turns t id timed_out)
          v q) in
      if-link (not timed_out && not f.is_cancelled) _ _ p.link refl (
        if-link (not settled || timed_out && p.silent) _ _ p.link kept (
          if-link (not (notifies v)) _ _ p.link kept (
            told
            ∙ notify-link (codes "notifications/cancelled") (cancellation max_turns t id timed_out)
                v q
            ∙ kept)))

  disconnect_if_connected-link :
      (p : Protocol W)
      → ((disconnect_if_connected max_turns t p).link ≡ p.link)
        ⊎ ((disconnect_if_connected max_turns t p).link ≡ record p.link { connected = false })
  unfolding disconnect
  disconnect_if_connected-link p = ground arith

  conclude_attempt-link :
      (method : Bytes) (id : MessageId) (v : Bytes) (r : Answer × Protocol W) (l : Link)
      → r.1.link ≡ l
      → ((conclude_attempt max_turns t method id v r).1.link ≡ l)
        ⊎ ((conclude_attempt max_turns t method id v r).1.link ≡ record l { connected = false })
  unfolding conclude_attempt withdrawn
  conclude_attempt-link method id v (answered raw, p) l h = inl h
  conclude_attempt-link method id v (rejected e, p) l h = inl h
  conclude_attempt-link method id v (unread, p) l h = inl h
  conclude_attempt-link method id v (broken f, p) l h =
      let q = (withdrawn_from max_turns t t.notifies_cancellation f id v p).1 in
      let kept : q.link ≡ l = withdrawn_from-link t.notifies_cancellation f id v p ∙ h in
      ground (arith, kept, disconnect_if_connected-link q)

  -- An attempt leaves the connection as it is, or disconnects it.
  pub attempt-link :
      (method : Bytes) (params : Option Json) (v : Bytes) (p : Protocol W)
      → ((attempt max_turns t method params v p).1.link ≡ p.link)
        ⊎ ((attempt max_turns t method params v p).1.link ≡ record p.link { connected = false })
  unfolding attempt
  attempt-link method params v p =
      let id : MessageId = record { raw = print_decimal p.next_id } in
      let q : Protocol W = record p { next_id = p.next_id + 1; world = t.use_protocol v p.world } in
      conclude_attempt-link method id v (exchange_frame max_turns t method params id v q) p.link
        (exchange_frame-link method params id v q)

  -- An attempt that finds no connection leaves the connection as it is.
  pub attempt-idle :
      (method : Bytes) (params : Option Json) (v : Bytes) (p : Protocol W)
      → p.link.connected ≡ false
      → (attempt max_turns t method params v p).1.link ≡ p.link
  attempt-idle method params v p e = ground (arith, attempt-link method params v p)
