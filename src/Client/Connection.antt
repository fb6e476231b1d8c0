-- ===== src/Client/Connection.antt =====
-- client/protocol.go: the connection that the exchanges of a client travel over.
pub mod Sound
pub mod Standing
pub mod Tests
use velocity_mcp.Client.Act.{Act, gets, modify, or_raise, pure, raise, rescue, ◌>>=◌, ◌>>◌}
use velocity_mcp.Base.{
  Bool, Option, [], false, if◌then◌else◌, is_some, leb, length, none, not, some, true, ℕ, ◌&&◌, ◌+◌,
  ◌==◌,
}
use velocity_mcp.Bytes.{Bytes, equal}
use velocity_mcp.Json.{Json, Members}
use velocity_mcp.Jsonrpc.{code_unsupported_protocol_version, version}
use velocity_mcp.Client.Versions.{supports_protocol_version}
use velocity_mcp.Client.Errors.{Failure, plain_failure}
use velocity_mcp.Client.Transport.{Transport}
use velocity_mcp.Client.Protocol.{
  Link, Negotiated, Protocol, attempt, disconnect, disconnect_if_connected, in_world,
}
use velocity_mcp.Client.Negotiation.{handshake, open_channel, same_code}

-- `remembered`: the version, and nothing that the server told.
unfoldable pub remembered : Negotiated → Negotiated
remembered c = record c { discover = none; initialize = none; stale_after = 0 }

-- `outlived`.
unfoldable pub outlived : Option Negotiated → ℕ → Bool
outlived none time = false
outlived (some c) time = is_some c.discover && leb c.stale_after time

abbrev pub authorization_of : Option Negotiated → ℕ
authorization_of none = 0
authorization_of (some c) = c.authorization

-- `isUnsupportedVersion`.
unfoldable pub is_unsupported_version : Failure → Bool
is_unsupported_version f = elim f.rejection [
  | none ↦ false
  | some e ↦ same_code e.code code_unsupported_protocol_version
]

-- `answered`.
pub record Answered : Type 0 where
  pub result : Bytes
  pub generation : ℕ
  pub received_at : ℕ
  pub authorization : ℕ

unfoldable pub new_protocol : {W : Type 0} → W → Protocol W
new_protocol w = record {
  link = record {
    connected = false;
    connecting = false;
    conn = none;
    generation = 0;
    pinned = [];
    pin_failed = false;
  };
  next_id = 1;
  unaccounted = [];
  silent = false;
  world = w;
}

module _ {W : Type 0} (max_turns : ℕ) (t : Transport W) (client_info : Members) where
  abbrev pub set_connecting : Bool → Protocol W → Protocol W
  set_connecting connecting p = record p { link = record p.link { connecting = connecting } }

  abbrev pub counted_connection : Protocol W → Protocol W
  counted_connection p = record p {
    link = record p.link {
      connecting = false;
      connected = true;
      generation = p.link.generation + 1;
    };
  }

  unfoldable pub settle : ℕ → Act (Protocol W) (Unit {0})
  settle authorization = do
    modify (set_connecting true)
    rescue (handshake max_turns t client_info authorization)
        (λ f. do modify (λ p. disconnect max_turns t (set_connecting false p)); raise f)
    modify counted_connection

  -- `forsake`.
  unfoldable pub forsake : Negotiated → Protocol W → Protocol W
  forsake standing p =
      let q = disconnect_if_connected max_turns t p in
      record q { link = record q.link { conn = some (remembered standing) } }

  abbrev pub forsaken : Option Negotiated → ℕ → Protocol W → Protocol W
  forsaken none authorization p = p
  forsaken (some c) authorization p = if c.authorization == authorization then p else forsake c p

  -- `connectLocked` behind the credential, for the connection that is left standing.
  unfoldable pub connect_as : ℕ → Link → Act (Protocol W) (Unit {0})
  connect_as authorization link =
      if link.connected
      then pure tt
      else if link.pin_failed
      then raise plain_failure
      else (open_channel max_turns t client_info >> settle authorization)

  unfoldable pub connect_locked : Act (Protocol W) (Unit {0})
  connect_locked p =
      let (authorization, w) = t.settle_authorization p.world in
      let q = forsaken p.link.conn authorization (in_world max_turns t p w) in
      connect_as authorization q.link q

  unfoldable pub standing_connection : ℕ → Act (Protocol W) Negotiated
  standing_connection held = do
    link ← gets (λ p. p.link)
    if link.connecting then pure tt else connect_locked
    conn ← gets (λ p. p.link.conn)
    c ← or_raise conn plain_failure
    if not (held == 0) && not (c.authorization == held) then raise plain_failure else pure c

  abbrev pub unsettled : Protocol W → Protocol W
  unsettled p = record p { link = record p.link { connected = false; conn = none } }

  unfoldable pub renegotiated : Negotiated → Failure → Act (Protocol W) Negotiated
  renegotiated refused rejection = do
    link ← gets (λ p. p.link)
    if not (length link.pinned == 0) then raise rejection else do
      modify unsettled
      settle refused.authorization
      conn ← gets (λ p. p.link.conn)
      c ← or_raise conn plain_failure
      if equal c.version refused.version then raise rejection else pure c

  -- `advertised`: the connection whose result states what the server advertises.
  unfoldable pub advertised : Act (Protocol W) (Option Negotiated)
  advertised = do
    standing ← gets (λ p. p.link.generation)
    connect_locked
    link ← gets (λ p. p.link)
    time ← gets (λ p. t.now p.world)
    if link.generation == standing && outlived link.conn time
        then (do
          modify (λ p. record p { link = record p.link { connected = false } })
          settle (authorization_of link.conn))
        else pure tt
    gets (λ p. p.link.conn)

  module _ (method_for : Bytes → Bytes) (params : Option Json) where
    -- One attempt over a connection.
    unfoldable pub attempt_over : Negotiated → Act (Protocol W) (Bytes × Negotiated)
    attempt_over conn = do
      raw ← attempt max_turns t (method_for conn.version) params conn.version
      pure (raw, conn)

    unfoldable pub renegotiating : Negotiated → Failure → Act (Protocol W) (Bytes × Negotiated)
    renegotiating conn f =
        if is_unsupported_version f then (renegotiated conn f >>= attempt_over) else raise f

    unfoldable pub attempts : ℕ → Act (Protocol W) (Bytes × Negotiated)
    attempts held = do
      conn ← standing_connection held
      rescue (attempt_over conn) (λ f.
          if f.is_session_expired
          then (standing_connection held >>= λ again.
              rescue (attempt_over again) (renegotiating again))
          else renegotiating conn f)

    unfoldable pub exchange_for : ℕ → Act (Protocol W) Answered
    exchange_for held = do
      reply ← attempts held
      generation ← gets (λ p. p.link.generation)
      received_at ← gets (λ p. t.now p.world)
      pure (record {
        result = reply.0;
        generation = generation;
        received_at = received_at;
        authorization = reply.1.authorization;
      })

  unfoldable pub pin_protocol_version : Bytes → Protocol W → Protocol W
  pin_protocol_version version p = disconnect_if_connected max_turns t (record p {
    link = record p.link {
      pinned = version;
      pin_failed = not (length version == 0) && not (supports_protocol_version version);
      conn = none;
    };
  })

  -- `presentable`.
  unfoldable pub presentable : Protocol W → Option Negotiated
  presentable p = elim p.link.conn [
    | none ↦ none
    | some c ↦ if c.authorization == t.authorization_context p.world then some c else none
  ]
