-- ===== src/Client/Protocol/Ends.antt =====
-- That the reading of a reply ends.
use velocity_mcp.Base.{
  Bool, Bool-cases, List, Option, Option-cases, [], arith, false, false-ne-true, inl, inr, length,
  none, refl, some, suc, true, zero, ℕ, ◌+◌, ◌<◌, ◌==◌, ◌∷◌, ◌≡◌, ◌≢◌, ◌≤◌,
}
use velocity_mcp.Bytes.{Bytes}
use velocity_mcp.Jsonrpc.{MessageId, Response}
use velocity_mcp.Jsonrpc.Parse.{accepted, raw, refused}
use velocity_mcp.Jsonrpc.ParseResponse.{parse_response}
use velocity_mcp.Client.Errors.{Failure, Result, err, ok}
use velocity_mcp.Client.Transport.{IsBounded, IsLater, Transport, asks, replies}
use velocity_mcp.Client.Protocol.{
  Answer, Protocol, Served, ServerProbe, WithdrawnRequest, answer_of, answer_to, correlate,
  exchange_frame, frame_served, in_world, lapse, negotiates_discovery, oldest_taken, or_ended,
  or_rest, parsed_reply, passed_by, read_reply, replies_to_withdrawn, request_id, sent_reply,
  sent_request, serve_probe, serve_request, served, server_probe, take_in, unread, unserved,
}
use velocity_mcp.Json.{Json}

abbrev is_read : Option Answer → Bool
is_read (some unread) = false
is_read _ = true

answer_of-read : (resp : Response) → is_read (some (answer_of resp)) ≡ true
answer_of-read resp = elim (Option-cases resp.error) [ inl e ↦ rw e refl | inr (x, e) ↦ rw e refl ]

module _ {W : Type 0} (max_turns : ℕ) (t : Transport W) where
  frame_served-read :
      (id : MessageId) (raw : Bytes) (r : Served × Protocol W)
      → is_read (frame_served max_turns t id raw r).0 ≡ true
  frame_served-read id raw (served, p) = refl
  frame_served-read id raw (unserved f, p) = refl
  frame_served-read id raw (passed_by, p) =
      elim (parse_response raw) as (λ x. is_read (parsed_reply max_turns t id x p).0 ≡ true) [
        | refused e ↦ unfold parsed_reply in refl
        | accepted resp ↦
            unfold parsed_reply in unfold correlate in ground (arith, answer_of-read resp)
      ]

  take_in-read :
      (id : MessageId) (v : Bytes) (r : Result Bytes × W) (p : Protocol W)
      → is_read (take_in max_turns t id v r p).0 ≡ true
  unfolding take_in
  take_in-read id v (err f, w) p = refl
  take_in-read id v (ok raw, w) p = frame_served-read id raw _

module _ {W : Type 0} (max_turns : ℕ) (t : Transport W) (left : W → ℕ)
    (bounded : IsBounded t left) where
  abbrev Later : W → W → Type 0
  Later = IsLater t left

  Later-refl : (w : W) → Later w w
  Later-refl w = record { no_more = omega arith; stays = λ h. h }

  Later-trans : (u v w : W) → Later u v → Later v w → Later u w
  Later-trans u v w h k = record {
    no_more = omega (arith, h.no_more, k.no_more);
    stays = λ on. h.stays (k.stays on);
  }

  Later-same : (w v : W) → v ≡ w → Later w v
  Later-same w v e = rw e (Later-refl w)

  oldest_taken-world :
      (ws : List WithdrawnRequest) (p : Protocol W)
      → (oldest_taken max_turns t ws p).1.world ≡ p.world
  oldest_taken-world [] p = refl
  oldest_taken-world (w ∷ ws) p = refl

  sent_reply-Later :
      (r : Option Failure × W) (p : Protocol W)
      → Later p.world r.1
      → Later p.world (sent_reply max_turns t r p).1.world
  sent_reply-Later (none, w) p h = h
  sent_reply-Later (some f, w) p h = h

  serve_request-Later :
      (id : Option MessageId) (method v : Bytes) (p : Protocol W)
      → Later p.world (serve_request max_turns t id method v p).1.world
  unfolding serve_request
  serve_request-Later none method v p = Later-refl p.world
  serve_request-Later (some id) method v p = elim (Bool-cases (negotiates_discovery v)) [
    | inl e ↦ rw e (Later-refl p.world)
    | inr e ↦
        let frame = replies (answer_to id method) in
        rw e (sent_reply-Later (t.send frame p.world) p (bounded.sent frame p.world))
  ]

  serve_probe-Later :
      (probe : Option ServerProbe) (v : Bytes) (p : Protocol W)
      → Later p.world (serve_probe max_turns t probe v p).1.world
  unfolding serve_probe
  serve_probe-Later none v p = Later-refl p.world
  serve_probe-Later (some probe) v p = elim (Option-cases probe.method) [
    | inl e ↦ rw e (Later-refl p.world)
    | inr (m, e) ↦ elim (Bool-cases (length probe.id == 0)) [
      | inl f ↦ rw (e, f) (bounded.told m p.world)
      | inr f ↦ rw (e, f) (serve_request-Later (request_id probe.id) m v p)
    ]
  ]

  replies_to_withdrawn-world :
      (p : Protocol W) → (replies_to_withdrawn max_turns t p).1.world ≡ p.world
  unfolding replies_to_withdrawn
  replies_to_withdrawn-world p = oldest_taken-world (lapse (t.now p.world) p.unaccounted) p

  correlate-world :
      (id : MessageId) (resp : Response) (p : Protocol W)
      → (correlate max_turns t id resp p).1.world ≡ p.world
  unfolding correlate
  correlate-world id resp p = ground (arith, replies_to_withdrawn-world p)

  frame_served-Later :
      (id : MessageId) (raw : Bytes) (r : Served × Protocol W)
      → Later r.1.world (frame_served max_turns t id raw r).1.world
  frame_served-Later id raw (served, p) = Later-refl p.world
  frame_served-Later id raw (unserved f, p) = Later-refl p.world
  frame_served-Later id raw (passed_by, p) =
      elim (parse_response raw) as (λ x. Later p.world (parsed_reply max_turns t id x p).1.world) [
        | refused e ↦ unfold parsed_reply in Later-refl p.world
        | accepted resp ↦
            unfold parsed_reply in
            Later-same p.world (correlate max_turns t id resp p).1.world (correlate-world id resp p)
      ]

  -- A frame that is passed over leaves less time, if the context is not ended behind it.
  take_in-fewer :
      (id : MessageId) (v : Bytes) (p : Protocol W) (r : Result Bytes × W)
      → t.receive p.world ≡ r
      → (take_in max_turns t id v r p).0 ≡ none
      → t.exchange_ended (take_in max_turns t id v r p).1.world ≡ none
      → left (take_in max_turns t id v r p).1.world < left p.world
  unfolding take_in
  take_in-fewer id v p (err f, w) e h on = absurd cc
  take_in-fewer id v p (ok raw, w) e h on =
      let q : Protocol W = record p { world = w; silent = false } in
      let r = serve_probe max_turns t (server_probe raw) v q in
      let later =
        Later-trans w r.1.world (frame_served max_turns t id raw r).1.world
          (serve_probe-Later (server_probe raw) v q) (frame_served-Later id raw r) in
      omega (arith, bounded.received p.world w raw e (later.stays on), later.no_more)

  or_rest-read :
      (taken : Option Answer × Protocol W) (rest : Answer × Protocol W)
      → is_read taken.0 ≡ true
      → (taken.0 ≡ none → is_read (some rest.0) ≡ true)
      → is_read (some (or_rest max_turns t taken rest).0) ≡ true
  or_rest-read (none, p) rest h k = k refl
  or_rest-read (some a, p) rest h k = h

  read_reply-read :
      (turns : ℕ) (passed_over : Bool) (id : MessageId) (v : Bytes) (p : Protocol W)
      → 0 < turns
      → (or_ended max_turns t passed_over p.world ≡ none → left p.world + 1 < turns)
      → is_read (some (read_reply max_turns t turns passed_over id v p).0) ≡ true
  unfolding read_reply
  read_reply-read zero passed_over id v p h k = absurd (omega arith)
  read_reply-read (suc turns) passed_over id v p h k =
      let r = t.receive p.world in
      let taken = take_in max_turns t id v r p in
      elim (Option-cases (or_ended max_turns t passed_over p.world)) [
        | inr (f, e) ↦ rw (is_read, read_reply, e) refl
        | inl e ↦
            let time = k e in
            rw (is_read, read_reply, e)
              (or_rest-read taken (read_reply max_turns t turns true id v taken.1)
                (take_in-read max_turns t id v r p)
                (λ none_yet.
                  read_reply-read turns true id v taken.1 (omega (arith, time))
                    (λ on. omega (arith, time, take_in-fewer id v p r refl none_yet on))))
      ]

  sent_request-read :
      (id : MessageId) (v : Bytes) (r : Option Failure × W) (p : Protocol W)
      → left r.1 + 1 < max_turns
      → is_read (some (sent_request max_turns t id v r p).0) ≡ true
  sent_request-read id v (some f, w) p h = refl
  sent_request-read id v (none, w) p h =
      read_reply-read max_turns false id v (in_world max_turns t p w) (omega (arith, h)) (λ e. h)

  -- Whatever frames a transport delivers, and were it for ever, an exchange whose context is bounded
  -- comes to its end, with the reply or with a failure, within two turns more than the time that
  -- is left of its context.
  pub exchange_frame-ends :
      (method : Bytes) (params : Option Json) (id : MessageId) (v : Bytes) (p : Protocol W)
      → left p.world + 2 ≤ max_turns
      → (exchange_frame max_turns t method params id v p).0 ≢ unread
  unfolding exchange_frame
  exchange_frame-ends method params id v p enough h =
      let frame = asks id method params in
      let later = bounded.sent frame p.world in
      let read =
        sent_request-read id v (t.send frame p.world) p (omega (arith, enough, later.no_more)) in
      false-ne-true (rw h at read)
