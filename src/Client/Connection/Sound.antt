-- ===== src/Client/Connection/Sound.antt =====
-- Which connection an exchange travels over.
use velocity_mcp.Client.Act.{Meets, Meets-bind, Meets-raise, Meets-rescue, Post, Post-both}
use velocity_mcp.Base.{
  Option, ap, arith, false, false-ne-true, inl, inr, length, none, refl, some, sym, true, ℕ, ◌==◌,
  ◌∙◌, ◌≡◌, ◌≤◌,
}
use velocity_mcp.Bytes.{Bytes}
use velocity_mcp.Json.{Json, Members}
use velocity_mcp.Client.Transport.{Transport}
use velocity_mcp.Client.Protocol.{Link, Negotiated, Protocol, attempt, disconnect}
use velocity_mcp.Client.Protocol.Kept.{attempt-link}
use velocity_mcp.Client.Negotiation.Agreed.{At, Concluded, IsAgreed, handshake-Meets}
use velocity_mcp.Client.Connection.{counted_connection, set_connecting, settle}

-- A connection that stands was agreed by a handshake, at the version that is pinned, if any.
pub record IsSound (l : Link) : Type 0 where
  pub idle : l.connecting ≡ false
  pub stands :
      l.connected ≡ true
      → (c : Negotiated) × (l.conn ≡ some c)
        × IsAgreed c
        × ((length l.pinned == 0) ≡ false → c.version ≡ l.pinned)

-- The count of handshakes never falls, and a connection of the same count is the same.
pub record Follows (before after : Link) : Type 0 where
  pub counts : before.generation ≤ after.generation
  pub same :
      after.connected ≡ true
      → after.generation ≡ before.generation
      → (before.connected ≡ true) × (after.conn ≡ before.conn)

module _ {W : Type 0} (max_turns : ℕ) (t : Transport W) (client_info : Members) (l0 : Link) where
  pub record Good (p : Protocol W) : Type 0 where
    pub sound : IsSound p.link
    pub follows : Follows l0 p.link

  -- A state whose connection was given up.
  pub given_up :
      (p q : Protocol W)
      → q.link.connected ≡ false
      → q.link.connecting ≡ false
      → q.link.generation ≡ p.link.generation
      → Good p
      → Good q
  given_up p q off idle same h = record {
    sound = record { idle = idle; stands = λ on. absurd (false-ne-true (sym off ∙ on)) };
    follows = record {
      counts = omega (arith, same, h.follows.counts);
      same = λ on. absurd (false-ne-true (sym off ∙ on));
    };
  }

  pub unchanged : (p q : Protocol W) → q.link ≡ p.link → Good p → Good q
  unchanged p q e h = record { sound = rw e h.sound; follows = rw e h.follows }

  -- The connection that stands, settled under a credential.
  pub record Held (a : ℕ) (p : Protocol W) : Type 0 where
    pub good : Good p
    pub conn : Negotiated
    pub connected : p.link.connected ≡ true
    pub is_conn : p.link.conn ≡ some conn
    pub settled_under : conn.authorization ≡ a

  attempt-Good :
      (method : Bytes) (params : Option Json) (v : Bytes)
      → Meets Good (λ _. Good) Good (attempt max_turns t method params v)
  attempt-Good method params v = record {
    at = λ p h.
        let (r, q) = attempt max_turns t method params v p in
        Post-both Good r q (elim (attempt-link max_turns t method params v p) [
          | inl e ↦ unchanged p q e h
          | inr e ↦
              given_up p q (ap (λ (k : Link). k.connected) e)
                (ap (λ (k : Link). k.connecting) e ∙ h.sound.idle)
                (ap (λ (k : Link). k.generation) e) h
        ]);
  }

  module _ (p : Protocol W) (good : Good p) (off : p.link.connected ≡ false) (a : ℕ) where
    abbrev during : Link
    during = record p.link { conn = none; connecting = true }

    failed_again :
        (q : Protocol W)
        → At max_turns t client_info during off q
        → Good (disconnect max_turns t (set_connecting max_turns t client_info false q))
    unfolding disconnect
    failed_again q h =
        given_up p (disconnect max_turns t (set_connecting max_turns t client_info false q)) refl
          refl (ap (λ (k : Link). k.generation) h) good

    counted-Held :
        (q : Protocol W)
        → Concluded max_turns t client_info during off a q
        → Held a (counted_connection max_turns t client_info q)
    counted-Held q h =
        let count = ap (λ (k : Link). k.generation) h.here in
        let pinned = ap (λ (k : Link). k.pinned) h.here in
        record {
          good = record {
            sound = record {
              idle = refl;
              stands = λ _. (h.conn, h.is_conn, h.agreed, rw pinned h.pin);
            };
            follows = record {
              counts = omega (arith, count, good.follows.counts);
              same = λ _ e. absurd (omega (arith, e, count, good.follows.counts));
            };
          };
          conn = h.conn;
          connected = refl;
          is_conn = h.is_conn;
          settled_under = h.settled_under;
        }

    -- From a state without a connection, settling one under a credential leaves, if it succeeds, a
    -- connection that stands, was agreed by a handshake at the pinned version, if any, is settled
    -- under that credential, and counts as a later one; if it fails, no connection stands and none
    -- is being made.
    pub settle-Held : Post (λ _. Held a) Good (settle max_turns t client_info a p)
    unfolding settle
    settle-Held =
        (Meets-bind {P = λ q. q ≡ p} (λ _. At max_turns t client_info during off) _ _
            (record { at = λ q e. rw e refl })
            (λ _.
              Meets-bind (λ _. Concluded max_turns t client_info during off a) _ _
                (Meets-rescue (At max_turns t client_info during off) _ _
                  (handshake-Meets max_turns t client_info during off a)
                  (λ f.
                    Meets-bind (λ _. Good) _ _ (record { at = λ q h. failed_again q h })
                      (λ _. Meets-raise f (λ q h. h))))
                (λ _. record { at = counted-Held }))).at
          p refl
