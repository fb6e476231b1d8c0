-- ===== src/Client/Negotiation.antt =====
-- client/negotiation.go: the handshakes, and how the client falls back from one to the other.
pub mod Agreed
use velocity_mcp.Client.Act.{Act, gets, modify, or_raise, pure, raise, rescue, ◌>>=◌, ◌>>◌}
use velocity_mcp.Base.{
  Bool, List, Option, [], false, if◌then◌else◌, is_some, length, negsuc, none, not, pos, some, true,
  ℕ, ℤ, ◌&&◌, ◌+◌, ◌==◌, ◌||◌,
}
use velocity_mcp.Bytes.{Bytes, codes, equal}
use velocity_mcp.Json.{Json, Members, arr, end, find, items, member, obj, str}
use velocity_mcp.Jsonrpc.{
  Error, code_header_mismatch, code_missing_required_client_capability,
  code_unsupported_protocol_version, version,
}
use velocity_mcp.Server.Protocol.{protocol_v20251125, protocol_v20260728}
use velocity_mcp.Client.Versions.{preferred_protocol_version}
use velocity_mcp.Client.Caching.{lifetime_of}
use velocity_mcp.Client.Errors.{Failure, Result, err, ok, plain_failure, rejected_by}
use velocity_mcp.Client.Results.{
  DiscoverResult, parse_discover_result, parse_initialize_result, strings_of,
}
use velocity_mcp.Client.Transport.{Transport}
use velocity_mcp.Client.Protocol.{
  Link, Negotiated, Protocol, attempt, in_world, negotiates_discovery, notify,
}

-- `isUnanswered` and `isAuthorizationError` are fields of a failure. `handshakeFailure`: a result
-- that asks for input is no handshake.
unfoldable pub handshake_failure : Failure → Failure
handshake_failure f = if is_some f.suspension then plain_failure else f

-- `identifiesDiscoveryServer`.
abbrev pub same_code : ℤ → ℤ → Bool
same_code (pos m) (pos n) = m == n
same_code (negsuc m) (negsuc n) = m == n
same_code _ _ = false

unfoldable pub identifies_discovery_server : Error → Bool
identifies_discovery_server e =
    same_code e.code code_header_mismatch
    || same_code e.code code_missing_required_client_capability
    || same_code e.code code_unsupported_protocol_version

abbrev supported_member : Option Json → List Bytes
supported_member (some (arr vs)) = strings_of (items vs)
supported_member _ = []

-- `supportedVersionsFromData`.
unfoldable pub supported_versions_from_data : Option Json → List Bytes
supported_versions_from_data (some (obj ms)) = supported_member (find (codes "supported") ms)
supported_versions_from_data _ = []

unfoldable pub initialize_params : Members → Bytes → Json
initialize_params client_info version = obj (
    member (codes "protocolVersion") (str version)
      (member (codes "capabilities") (obj end) (member (codes "clientInfo") (obj client_info) end)))

-- The kinds of failure that a probe tells apart.
pub data Rejection : Type 0 where
  answered_by : Error → Rejection
  untransported : Rejection
  surfaced : Rejection

unfoldable pub rejection_of : Failure → Rejection
rejection_of f = elim f.rejection [
  | some e ↦ answered_by e
  | none ↦ if f.is_transport then untransported else surfaced
]

module _ {W : Type 0} (max_turns : ℕ) (t : Transport W) (client_info : Members) where
  abbrev pub Exec : Type 0 → Type 0
  Exec = Act (Protocol W)

  -- `transport.Connect` and `transport.Disconnect`.
  abbrev pub opened : Option Failure × W → Exec (Unit {0})
  opened (none, w) p = (ok tt, in_world max_turns t p w)
  opened (some e, w) p = (err e, in_world max_turns t p w)

  unfoldable pub open_channel : Exec (Unit {0})
  open_channel p = opened (t.connect p.world) p

  abbrev pub close_channel : Exec (Unit {0})
  close_channel = modify (λ p. in_world max_turns t p (t.disconnect p.world))

  abbrev pub told_by : Option Failure × Protocol W → Result (Unit {0}) × Protocol W
  told_by (none, p) = (ok tt, p)
  told_by (some e, p) = (err e, p)

  unfoldable pub tell : Bytes → Bytes → Exec (Unit {0})
  tell method version p = told_by (notify max_turns t method none version p)

  -- An attempt of a handshake.
  unfoldable pub shake : Bytes → Option Json → Bytes → Exec Bytes
  shake method params version =
      rescue (attempt max_turns t method params version) (λ f. raise (handshake_failure f))

  unfoldable pub initialize : Bytes → Bool → Exec Negotiated
  initialize version pinned = do
    raw ← shake (codes "initialize") (some (initialize_params client_info version)) version
    result ← or_raise (parse_initialize_result raw) plain_failure
    if pinned && not (equal result.protocol_version version) then raise plain_failure else do
      tell (codes "notifications/initialized") result.protocol_version
      pure (record {
        version = result.protocol_version;
        discover = none;
        initialize = some result;
        stale_after = 0;
        authorization = 0;
      })

  abbrev pub settled_by : Bytes → DiscoverResult → ℕ → Negotiated
  settled_by version result stale_after = record {
    version = version;
    discover = some result;
    initialize = none;
    stale_after = stale_after;
    authorization = 0;
  }

  -- An empty version pins none.
  unfoldable pub discover : Bytes → Exec Negotiated
  discover pinned = do
    raw ←
        shake (codes "server/discover") none
          (if length pinned == 0 then protocol_v20260728 else pinned)
    received_at ← gets (λ p. t.now p.world)
    result ← or_raise (parse_discover_result raw) plain_failure
    settled ← or_raise (preferred_protocol_version result.supported_versions) plain_failure
    if not (length pinned == 0) && not (equal settled pinned)
        then raise plain_failure
        else if negotiates_discovery settled
        then pure (settled_by settled result (received_at + lifetime_of raw))
        else initialize settled false

  unfoldable pub negotiate_pinned : Bytes → Exec Negotiated
  negotiate_pinned pinned =
      if negotiates_discovery pinned then discover pinned else initialize pinned true

  unfoldable pub negotiate_down : Error → Exec Negotiated
  negotiate_down e = do
    version ←
        or_raise (preferred_protocol_version (supported_versions_from_data e.payload))
          (rejected_by e)
    if negotiates_discovery version then raise (rejected_by e) else initialize version false

  -- Whether the first failure of a fallback ends it.
  abbrev pub is_final : Failure → W → Bool
  is_final f w = not f.is_transport || f.is_timeout || f.is_authorization || t.is_done w

  unfoldable pub fallback : Exec Negotiated
  fallback = rescue (initialize protocol_v20251125 false) (λ f. do
    ended ← gets (λ p. is_final f p.world)
    if ended then raise f else do
      close_channel
      rescue open_channel (λ _. raise f)
      initialize protocol_v20251125 false)

  -- The handshake that a probe falls back to.
  unfoldable pub fall_back : Failure → Exec Negotiated
  fall_back f = do
    ended ← gets (λ p. t.is_done p.world)
    if ended then raise f else do open_channel; fallback

  -- Whether an error is that of a server which speaks the older handshake.
  abbrev pub answers_as_legacy : Option (Error → Bool) → Error → Bool
  answers_as_legacy none e = true
  answers_as_legacy (some legacy) e = legacy e

  unfoldable pub after_rejection : Failure → Rejection → Exec Negotiated
  after_rejection f (answered_by e) =
      if identifies_discovery_server e
      then negotiate_down e
      else if answers_as_legacy t.probe_answered_as_legacy e
      then fall_back f
      else raise f
  after_rejection f untransported = fall_back f
  after_rejection f surfaced = raise f

  unfoldable pub probe : Exec Negotiated
  probe =
      rescue (discover [])
        (λ f. if f.is_unanswered then raise f else after_rejection f (rejection_of f))

  abbrev pub set_connection : Option Negotiated → Exec (Unit {0})
  set_connection conn = modify (λ p. record p { link = record p.link { conn = conn } })

  -- `settleOn`.
  abbrev pub settle_on : Negotiated → ℕ → Exec (Unit {0})
  settle_on conn authorization =
      set_connection (some (record conn { authorization = authorization }))

  -- The handshake that a server is known to speak, or the probe.
  unfoldable pub negotiate_again : Option Negotiated → Exec Negotiated
  negotiate_again none = probe
  negotiate_again (some remembered) =
      if negotiates_discovery remembered.version
      then probe
      else rescue (initialize remembered.version false) (λ f. do
        ended ← gets (λ p. f.is_authorization || t.is_done p.world)
        if ended then raise f else do set_connection none; open_channel; probe)

  unfoldable pub negotiated : Link → Exec Negotiated
  negotiated link =
      if link.pin_failed
      then raise plain_failure
      else if length link.pinned == 0
      then negotiate_again link.conn
      else negotiate_pinned link.pinned

  unfoldable pub handshake : ℕ → Exec (Unit {0})
  handshake authorization = do
    link ← gets (λ p. p.link)
    conn ← negotiated link
    settle_on conn authorization
