-- ===== src/Client/Connection/Standing.antt =====
-- The connection that an exchange finds or settles.
use velocity_mcp.Client.Act.{
  Meets-bind, Meets-gets, Meets-given, Meets-if, Meets-or_raise, Meets-pure, Meets-raise, Post,
}
use velocity_mcp.Base.{
  Bool-cases, Option, ap, arith, false, false-ne-true, inl, inr, none, none-ne-some, not, refl,
  some, some-eq, sym, true, ℕ, ◌&&◌, ◌==◌, ◌∙◌, ◌≡◌,
}
use velocity_mcp.Json.{Members}
use velocity_mcp.Client.Errors.{Failure, plain_failure}
use velocity_mcp.Client.Transport.{Transport}
use velocity_mcp.Client.Protocol.{Link, Negotiated, Protocol, disconnect, in_world}
use velocity_mcp.Client.Negotiation.{open_channel, opened}
use velocity_mcp.Client.Connection.{
  connect_as, connect_locked, forsake, forsaken, standing_connection,
}
use velocity_mcp.Client.Connection.Sound.{Good, Held, given_up, settle-Held, unchanged}

module _ {W : Type 0} (max_turns : ℕ) (t : Transport W) (client_info : Members) (l0 : Link) where
  -- Whatever connection stands was settled under this credential.
  record Ready (a : ℕ) (p : Protocol W) : Type 0 where
    good : Good max_turns t client_info l0 p
    under :
        p.link.connected ≡ true → (c : Negotiated) × (p.link.conn ≡ some c) × (c.authorization ≡ a)

  forsake-off :
      (c : Negotiated) (p : Protocol W)
      → let q = forsake max_turns t client_info c p in
        (q.link.connected ≡ false)
        × (q.link.connecting ≡ p.link.connecting)
        × (q.link.generation ≡ p.link.generation)
  unfolding forsake disconnect
  forsake-off c p = ground arith

  forsaken-Ready :
      (a : ℕ) (o : Option Negotiated) (p : Protocol W)
      → Good max_turns t client_info l0 p
      → p.link.conn ≡ o
      → Ready a (forsaken max_turns t client_info o a p)
  forsaken-Ready a none p h e = record {
    good = h;
    under = λ on. let (c, is, _, _) = h.sound.stands on in absurd (none-ne-some (sym e ∙ is));
  }
  forsaken-Ready a (some c) p h e = elim (Bool-cases (c.authorization == a)) [
    | inl same ↦
        let settled_under : c.authorization ≡ a = ground (arith, same) in
        rw same (record { good = h; under = λ on. (c, e, settled_under) })
    | inr other ↦
        let (off, connecting, generation) = forsake-off c p in
        rw other (record {
          good =
              given_up max_turns t client_info l0 p (forsake max_turns t client_info c p) off
                (connecting ∙ h.sound.idle) generation h;
          under = λ on. absurd (false-ne-true (sym off ∙ on));
        })
  ]

  opened-Good :
      (r : Option Failure × W) (p : Protocol W)
      → Good max_turns t client_info l0 p
      → p.link.connected ≡ false
      → Post
          (λ _ q. Good max_turns t client_info l0 q × (q.link.connected ≡ false))
          (Good max_turns t client_info l0)
          (opened max_turns t client_info r p)
  opened-Good (none, w) p h off =
      (unchanged max_turns t client_info l0 p (in_world max_turns t p w) refl h, off)
  opened-Good (some f, w) p h off =
      unchanged max_turns t client_info l0 p (in_world max_turns t p w) refl h

  Ready-Held :
      (a : ℕ) (p : Protocol W)
      → Ready a p
      → p.link.connected ≡ true
      → Held max_turns t client_info l0 a p
  Ready-Held a p r on =
      let (c, is, under) = r.under on in
      record { good = r.good; conn = c; connected = on; is_conn = is; settled_under = under }

  connect_as-Held :
      (a : ℕ) (p : Protocol W)
      → Ready a p
      → Post
          (λ _. Held max_turns t client_info l0 a)
          (Good max_turns t client_info l0)
          (connect_as max_turns t client_info a p.link p)
  unfolding connect_as open_channel
  connect_as-Held a p r =
      (Meets-if {P = λ s. s ≡ p} p.link.connected _ _
          (λ on. Meets-pure tt (λ s e. rw e (Ready-Held a p r on)))
          (λ off.
            Meets-if p.link.pin_failed _ _ (λ _. Meets-raise plain_failure (λ s e. rw e r.good))
              (λ _.
                Meets-bind (λ _ q. Good max_turns t client_info l0 q × (q.link.connected ≡ false)) _
                  _ (record { at = λ s e. rw e (opened-Good (t.connect p.world) p r.good off) })
                  (λ _. record {
                    at = λ s h. settle-Held max_turns t client_info l0 s h.0 h.1 a;
                  })))).at
        p refl

  connect_locked-Held :
      (p : Protocol W)
      → Good max_turns t client_info l0 p
      → Post
          (λ _. Held max_turns t client_info l0 (t.settle_authorization p.world).0)
          (Good max_turns t client_info l0)
          (connect_locked max_turns t client_info p)
  unfolding connect_locked
  connect_locked-Held p h =
      let (a, w) = t.settle_authorization p.world in
      let q = in_world max_turns t p w in
      connect_as-Held a (forsaken max_turns t client_info p.link.conn a q)
        (forsaken-Ready a p.link.conn q (unchanged max_turns t client_info l0 p q refl h) refl)

  -- A connection that stands, of this credential.
  pub record Stands (a : ℕ) (c : Negotiated) (p : Protocol W) : Type 0 where
    pub good : Good max_turns t client_info l0 p
    pub connected : p.link.connected ≡ true
    pub is_conn : p.link.conn ≡ some c
    pub settled_under : c.authorization ≡ a

  -- Where the connection of a client is sound, an exchange travels over one that stands, was
  -- settled under the credential that is now presented, which is the one that the terms of the
  -- exchange name, if they name any; with or without one, the connection is sound as before: no
  -- connection is being made, one that stands was agreed by a handshake at the pinned version, if
  -- any, and only a later count of connections stands for another connection.
  pub standing_connection-Stands :
      (held : ℕ) (p : Protocol W)
      → Good max_turns t client_info l0 p
      → Post
          (λ c q.
            Stands (t.settle_authorization p.world).0 c q
            × ((held == 0) ≡ false → c.authorization ≡ held))
          (Good max_turns t client_info l0)
          (standing_connection max_turns t client_info held p)
  unfolding standing_connection
  standing_connection-Stands held p h =
      let a = (t.settle_authorization p.world).0 in
      (Meets-bind {P = λ s. s ≡ p} (λ l s. (s ≡ p) × (l ≡ p.link)) _ _
          (Meets-gets (λ (s : Protocol W). s.link) (λ s e. (e, ap (λ (k : Protocol W). k.link) e)))
          (λ l.
            Meets-bind (λ _. Held max_turns t client_info l0 a) _ _
              (Meets-given _ (λ e.
                Meets-if l.connecting _ _
                  (λ on. absurd (
                    false-ne-true
                      (sym h.sound.idle ∙ sym (ap (λ (k : Link). k.connecting) e) ∙ on)))
                  (λ _. record { at = λ s same. rw same (connect_locked-Held p h) })))
              (λ _.
                Meets-bind (λ o s. Held max_turns t client_info l0 a s × (o ≡ s.link.conn)) _ _
                  (Meets-gets (λ (s : Protocol W). s.link.conn) (λ s k. (k, refl)))
                  (λ o.
                    Meets-bind (λ c. Stands a c) _ _
                      (Meets-or_raise o plain_failure
                        (λ c e s k. record {
                          good = k.0.good;
                          connected = k.0.connected;
                          is_conn = sym k.1 ∙ e;
                          settled_under =
                              rw (some-eq (sym k.0.is_conn ∙ sym k.1 ∙ e)) at k.0.settled_under;
                        })
                        (λ s k. k.0.good))
                      (λ c.
                        Meets-if (not (held == 0) && not (c.authorization == held)) _ _
                          (λ _. Meets-raise plain_failure (λ s k. k.good))
                          (λ same.
                            Meets-pure c (λ s k. (k, λ named. ground (arith, same, named))))))))).at
        p refl
