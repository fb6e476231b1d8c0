-- ===== src/Client/Negotiation/Agreed.antt =====
-- What a handshake settles on.
use velocity_mcp.Client.Act.{
  Meets, Meets-bind, Meets-gets, Meets-given, Meets-if, Meets-or_raise, Meets-post, Meets-pure,
  Meets-raise, Meets-rescue, Post, Post-both, gets, raise,
}
use velocity_mcp.Base.{
  Bool, Option, [], ap, arith, false, false-ne-true, if◌then◌else◌, length, none, not, refl, some,
  sym, true, ℕ, ◌&&◌, ◌==◌, ◌||◌, ◌∙◌, ◌≡◌,
}
use velocity_mcp.Bytes.{Bytes, codes, equal}
use velocity_mcp.Json.{Json, Members}
use velocity_mcp.Client.Versions.{preferred_protocol_version}
use velocity_mcp.Client.Results.Chosen.{parse_initialize_result-version}
use velocity_mcp.Client.Results.{
  DiscoverResult, InitializeResult, parse_discover_result, parse_initialize_result,
  supports_initialize_version,
}
use velocity_mcp.Client.Transport.{Transport}
use velocity_mcp.Client.Protocol.{Link, Negotiated, Protocol, attempt, negotiates_discovery, notify}
use velocity_mcp.Client.Negotiation.{
  Rejection, after_rejection, answered_by, answers_as_legacy, close_channel, discover, fall_back,
  fallback, handshake, handshake_failure, identifies_discovery_server, initialize,
  initialize_params, negotiate_again, negotiate_down, negotiate_pinned, negotiated, open_channel,
  opened, probe, rejection_of, set_connection, shake, supported_versions_from_data, surfaced, tell,
  told_by, untransported,
}
use velocity_mcp.Client.Errors.{Failure, plain_failure, rejected_by}
use velocity_mcp.Client.Protocol.Kept.{attempt-idle, notify-link}
use velocity_mcp.Bytes.Laws.{equal-eq}
use velocity_mcp.Jsonrpc.{Error}
use velocity_mcp.Server.Protocol.{protocol_v20251125, protocol_v20260728}

-- A connection that one handshake settled: by discovery on its revision, which the server named,
-- or by initialize on the version that the server chose, one that the client takes there.
pub data IsAgreed (c : Negotiated) : Type 0 where
  discovered :
      (r : DiscoverResult)
      → c.discover ≡ some r
      → c.initialize ≡ none
      → negotiates_discovery c.version ≡ true
      → preferred_protocol_version r.supported_versions ≡ some c.version
      → IsAgreed c
  initialized :
      (r : InitializeResult)
      → c.discover ≡ none
      → c.initialize ≡ some r
      → c.version ≡ r.protocol_version
      → supports_initialize_version c.version ≡ true
      → IsAgreed c

module _ {W : Type 0} (max_turns : ℕ) (t : Transport W) (client_info : Members) (l : Link)
    (idle : l.connected ≡ false) where
  -- The state has this link, but for the connection that is remembered.
  abbrev pub At : Protocol W → Type 0
  At p = record p.link { conn = none } ≡ l

  At-link : (p q : Protocol W) → q.link ≡ p.link → At p → At q
  At-link p q e h = ap (λ (k : Link). record k { conn = none }) e ∙ h

  attempt-Meets :
      (method : Bytes) (params : Option Json) (v : Bytes)
      → Meets At (λ _. At) At (attempt max_turns t method params v)
  attempt-Meets method params v = record {
    at = λ p h.
        let off : p.link.connected ≡ false = ap (λ (k : Link). k.connected) h ∙ idle in
        let (r, q) = attempt max_turns t method params v p in
        Post-both At r q (At-link p q (attempt-idle max_turns t method params v p off) h);
  }

  shake-Meets :
      (method : Bytes) (params : Option Json) (v : Bytes)
      → Meets At (λ _. At) At (shake max_turns t client_info method params v)
  unfolding shake
  shake-Meets method params v =
      Meets-rescue At (attempt max_turns t method params v) (λ f. raise (handshake_failure f))
        (attempt-Meets method params v) (λ f. Meets-raise (handshake_failure f) (λ s h. h))

  opened-Meets : (r : Option Failure × W) → Meets At (λ _. At) At (opened max_turns t client_info r)
  opened-Meets (none, w) = record { at = λ p h. h }
  opened-Meets (some e, w) = record { at = λ p h. h }

  pub open_channel-Meets : Meets At (λ _. At) At (open_channel max_turns t client_info)
  unfolding open_channel
  open_channel-Meets = record { at = λ p h. (opened-Meets (t.connect p.world)).at p h }

  told_by-Post :
      (r : Option Failure × Protocol W)
      → At r.1
      → Post (λ _. At) At (told_by max_turns t client_info r)
  told_by-Post (none, p) h = h
  told_by-Post (some e, p) h = h

  tell-Meets : (method v : Bytes) → Meets At (λ _. At) At (tell max_turns t client_info method v)
  unfolding tell
  tell-Meets method v = record {
    at = λ p h.
        let r = notify max_turns t method none v p in
        told_by-Post r (At-link p r.1 (notify-link max_turns t method none v p) h);
  }

  abbrev pub Agreed : Negotiated → Protocol W → Type 0
  Agreed c p = At p × IsAgreed c

  initialize-Meets :
      (v : Bytes) (pinned : Bool)
      → Meets At
          (λ c p. At p × IsAgreed c × (pinned ≡ true → c.version ≡ v))
          At
          (initialize max_turns t client_info v pinned)
  unfolding initialize
  initialize-Meets v pinned =
      Meets-bind (λ _. At)
        (shake max_turns t client_info (codes "initialize") (some (initialize_params client_info v))
          v)
        _ (shake-Meets (codes "initialize") (some (initialize_params client_info v)) v)
        (λ raw.
          Meets-bind (λ r p. At p × (supports_initialize_version r.protocol_version ≡ true)) _ _
            (Meets-or_raise (parse_initialize_result raw) plain_failure
              (λ r e p h. (h, parse_initialize_result-version raw r e)) (λ p h. h))
            (λ r. Meets-given _ (λ supported.
              Meets-if (pinned && not (equal r.protocol_version v)) _ _
                (λ _. Meets-raise plain_failure (λ p h. h))
                (λ same.
                  Meets-bind (λ _. At)
                    (tell max_turns t client_info (codes "notifications/initialized")
                      r.protocol_version)
                    _ (tell-Meets (codes "notifications/initialized") r.protocol_version)
                    (λ _. Meets-pure _ (λ p h. (
                      h,
                      initialized r refl refl refl supported,
                      λ e. equal-eq r.protocol_version v (ground (arith, same, e)),
                    )))))))

  initialize-Agreed :
      (v : Bytes) (pinned : Bool) → Meets At Agreed At (initialize max_turns t client_info v pinned)
  initialize-Agreed v pinned = Meets-post (λ c p h. (h.0, h.1)) (initialize-Meets v pinned)

  raise-Agreed : (f : Failure) → Meets At Agreed At (raise f)
  raise-Agreed f = Meets-raise f (λ p h. h)

  discover-Meets :
      (pinned : Bytes)
      → Meets At
          (λ c p.
            At p
            × IsAgreed c
            × ((length pinned == 0) ≡ false
                → negotiates_discovery pinned ≡ true
                → c.version ≡ pinned))
          At
          (discover max_turns t client_info pinned)
  unfolding discover
  discover-Meets pinned =
      let offered = if length pinned == 0 then protocol_v20260728 else pinned in
      Meets-bind (λ _. At) (shake max_turns t client_info (codes "server/discover") none offered) _
        (shake-Meets (codes "server/discover") none offered)
        (λ raw.
          Meets-bind (λ _. At) (gets (λ p. t.now p.world)) _
            (Meets-gets (λ p. t.now p.world) (λ p h. h))
            (λ received_at.
              Meets-bind (λ _. At) _ _
                (Meets-or_raise (parse_discover_result raw) plain_failure (λ r e p h. h) (λ p h. h))
                (λ r.
                  Meets-bind
                    (λ v p. At p × (preferred_protocol_version r.supported_versions ≡ some v)) _ _
                    (Meets-or_raise (preferred_protocol_version r.supported_versions) plain_failure
                      (λ v e p h. (h, e)) (λ p h. h))
                    (λ v. Meets-given _ (λ chosen.
                      Meets-if (not (length pinned == 0) && not (equal v pinned)) _ _
                        (λ _. Meets-raise plain_failure (λ p h. h))
                        (λ same.
                          Meets-if (negotiates_discovery v) _ _
                            (λ modern. Meets-pure _ (λ p h. (
                              h,
                              discovered r refl refl modern chosen,
                              λ e d. equal-eq v pinned (ground (arith, same, e)),
                            )))
                            (λ legacy.
                              Meets-post
                                (λ c p h. (
                                  h.0,
                                  h.1,
                                  λ e d.
                                      let here : v ≡ pinned =
                                        equal-eq v pinned (ground (arith, same, e)) in
                                      absurd (false-ne-true (sym legacy ∙ rw here d)),
                                ))
                                (initialize-Meets v false))))))))

  negotiate_down-Agreed :
      (e : Error) → Meets At Agreed At (negotiate_down max_turns t client_info e)
  unfolding negotiate_down
  negotiate_down-Agreed e =
      Meets-bind (λ _. At) _ _
        (Meets-or_raise (preferred_protocol_version (supported_versions_from_data e.payload))
          (rejected_by e) (λ v q p h. h) (λ p h. h))
        (λ v.
          Meets-if (negotiates_discovery v) _ _ (λ _. raise-Agreed (rejected_by e))
            (λ _. initialize-Agreed v false))

  fallback-Agreed : Meets At Agreed At (fallback max_turns t client_info)
  unfolding fallback
  fallback-Agreed =
      Meets-rescue At (initialize max_turns t client_info protocol_v20251125 false) _
        (initialize-Agreed protocol_v20251125 false)
        (λ f.
          Meets-bind (λ _. At) _ _ (Meets-gets _ (λ p h. h))
            (λ ended.
              Meets-if ended _ _ (λ _. raise-Agreed f)
                (λ _.
                  Meets-bind (λ _. At) (close_channel max_turns t client_info) _
                    (record { at = λ p h. h })
                    (λ _.
                      Meets-bind (λ _. At) _ _
                        (Meets-rescue At (open_channel max_turns t client_info) (λ _. raise f)
                          open_channel-Meets (λ _. Meets-raise f (λ p h. h)))
                        (λ _. initialize-Agreed protocol_v20251125 false)))))

  fall_back-Agreed : (f : Failure) → Meets At Agreed At (fall_back max_turns t client_info f)
  unfolding fall_back
  fall_back-Agreed f =
      Meets-bind (λ _. At) _ _ (Meets-gets (λ p. t.is_done p.world) (λ p h. h))
        (λ ended.
          Meets-if ended _ _ (λ _. raise-Agreed f)
            (λ _.
              Meets-bind (λ _. At) (open_channel max_turns t client_info) _ open_channel-Meets
                (λ _. fallback-Agreed)))

  after_rejection-Agreed :
      (f : Failure) (r : Rejection)
      → Meets At Agreed At (after_rejection max_turns t client_info f r)
  unfolding after_rejection
  after_rejection-Agreed f (answered_by e) =
      Meets-if (identifies_discovery_server e) _ _ (λ _. negotiate_down-Agreed e)
        (λ _.
          Meets-if (answers_as_legacy max_turns t client_info t.probe_answered_as_legacy e) _ _
            (λ _. fall_back-Agreed f) (λ _. raise-Agreed f))
  after_rejection-Agreed f untransported = fall_back-Agreed f
  after_rejection-Agreed f surfaced = raise-Agreed f

  probe-Agreed : Meets At Agreed At (probe max_turns t client_info)
  unfolding probe
  probe-Agreed =
      Meets-rescue At (discover max_turns t client_info []) _
        (Meets-post (λ c p h. (h.0, h.1)) (discover-Meets []))
        (λ f.
          Meets-if f.is_unanswered _ _ (λ _. raise-Agreed f)
            (λ _. after_rejection-Agreed f (rejection_of f)))

  negotiate_again-Agreed :
      (conn : Option Negotiated) → Meets At Agreed At (negotiate_again max_turns t client_info conn)
  unfolding negotiate_again
  negotiate_again-Agreed none = probe-Agreed
  negotiate_again-Agreed (some c) =
      Meets-if (negotiates_discovery c.version) _ _ (λ _. probe-Agreed)
        (λ _.
          Meets-rescue At (initialize max_turns t client_info c.version false) _
            (initialize-Agreed c.version false)
            (λ f.
              Meets-bind (λ _. At) _ _
                (Meets-gets (λ p. f.is_authorization || t.is_done p.world) (λ p h. h))
                (λ ended.
                  Meets-if ended _ _ (λ _. raise-Agreed f)
                    (λ _.
                      Meets-bind (λ _. At) (set_connection max_turns t client_info none) _
                        (record { at = λ p h. h })
                        (λ _.
                          Meets-bind (λ _. At) (open_channel max_turns t client_info) _
                            open_channel-Meets (λ _. probe-Agreed))))))

  -- The version that is pinned, if any.
  abbrev pub KeepsPin : Bytes → Negotiated → Type 0
  KeepsPin pinned c = (length pinned == 0) ≡ false → c.version ≡ pinned

  pub negotiated-Meets :
      (k : Link)
      → Meets At
          (λ c p. At p × IsAgreed c × KeepsPin k.pinned c × (k.pin_failed ≡ false))
          At
          (negotiated max_turns t client_info k)
  unfolding negotiated negotiate_pinned
  negotiated-Meets k =
      Meets-if k.pin_failed _ _ (λ _. Meets-raise plain_failure (λ p h. h))
        (λ fine.
          Meets-if (length k.pinned == 0) _ _
            (λ free.
              Meets-post (λ c p h. (h.0, h.1, (λ e. absurd (false-ne-true (sym e ∙ free))), fine))
                (negotiate_again-Agreed k.conn))
            (λ pinned.
              Meets-if (negotiates_discovery k.pinned) _ _
                (λ modern.
                  Meets-post (λ c p h. (h.0, h.1, (λ e. h.2 e modern), fine))
                    (discover-Meets k.pinned))
                (λ _.
                  Meets-post (λ c p h. (h.0, h.1, (λ e. h.2 refl), fine))
                    (initialize-Meets k.pinned true))))

  -- What a handshake leaves behind, under the credential of its frames.
  pub record Concluded (authorization : ℕ) (p : Protocol W) : Type 0 where
    pub conn : Negotiated
    pub here : At p
    pub is_conn : p.link.conn ≡ some conn
    pub agreed : IsAgreed conn
    pub pin : KeepsPin l.pinned conn
    pub settled_under : conn.authorization ≡ authorization

  with_authorization :
      (c : Negotiated) (a : ℕ) → IsAgreed c → IsAgreed (record c { authorization = a })
  with_authorization c a (discovered r e f g h) = discovered r e f g h
  with_authorization c a (initialized r e f g h) = initialized r e f g h

  pub handshake-Meets :
      (a : ℕ) → Meets At (λ _. Concluded a) At (handshake max_turns t client_info a)
  unfolding handshake
  handshake-Meets a =
      Meets-bind (λ k p. At p × (k.pinned ≡ l.pinned)) _ _
        (Meets-gets (λ p. p.link) (λ p h. (h, ap (λ (k : Link). k.pinned) h)))
        (λ k. Meets-given _ (λ same. Meets-bind _ _ _ (negotiated-Meets k) (λ c. record {
          at = λ p h. record {
            conn = record c { authorization = a };
            here = h.0;
            is_conn = refl;
            agreed = with_authorization c a h.1;
            pin = rw (← same) h.2;
            settled_under = refl;
          };
        })))
