-- ===== src/Ping/Rounds.antt =====
-- A round of the probe (components/ping/ping.cpp): the answers to a PING, and its time-out.
use esphome_meshmesh.Prelude.{
  ℕ, ◌≡◌, ◌≢◌, ◌≤◌, ◌<◌, refl, true, false, Option, none, some, List, [], ◌∷◌, arith, ap, sym,
  subst, ◌∙◌, ◌++◌, ltb, leb, ◌==◌, if◌then◌else◌,
}
use esphome_meshmesh.Mesh.{MeshAddress, sub32, add32}
use esphome_meshmesh.Ping.{
  Effect, Platform, Ping, act, ping_code, pong_code, ping_text, pong_text, tell_presence,
  tell_latency, strncmp_same, loop, update, pong, reached, recv_datagram,
}

-- The datagram that went out last.
abbrev pub outbox : List Effect → Option (MeshAddress × List ℕ)
outbox [] = none
outbox (Effect.datagram to bytes ∷ t) = some (to, bytes)
outbox (_ ∷ t) = none

abbrev pub ping_packet : List ℕ
ping_packet = ping_code ∷ ping_text

abbrev pub pong_packet : List ℕ
pong_packet = pong_code ∷ pong_text

-- Every value is at most a second after `t0`.
abbrev pub Within : ℕ → List ℕ → Type 0
Within t0 [] = Unit {0}
Within t0 (t ∷ ts) = (sub32 t t0 ≤ 1000) × Within t0 ts

module _ (P : Platform) where
  -- The first byte alone decides: 1 is answered by a PONG, 2 is taken for an answer, and anything
  -- else changes nothing, whatever text follows.
  pub recv_datagram_lem :
      (now : ℕ) (from : MeshAddress) (code : ℕ) (text : List ℕ) (s : Ping)
      → recv_datagram P now from (code ∷ text) s ≡ (
          if code == ping_code
          then pong P from s
          else if code == pong_code
          then reached P now s
          else s)
  unfolding recv_datagram strncmp_same
  recv_datagram_lem now from code text s = ground arith

  -- A component with its socket open and a target that is neither address 0 nor 1.
  pub record Probing (s : Ping) : Type 0 where
    pub socket_open : s.socket ≡ true
    pub targeted : leb s.target_address.address (add32 P.no_address 1) ≡ false

  update-sent :
      (t : ℕ) (a : Ping)
      → Probing a
      → update P t true a ≡ record a {
        last_ping_time = t;
        trace = Effect.datagram a.target_address ping_packet ∷ a.trace;
      }
  unfolding update
  update-sent t a p = rw (p.targeted, p.socket_open) refl

  -- When `a` probes at `t0` and the PING comes to `b`, whose socket is open, `b` sends one PONG to
  -- the reversed sender and changes nothing else. When that PONG is back at `t1`, `a`, which has
  -- both sensors, tells whether less than a second has passed, and how much, and waits no more.
  pub update-recv_datagram :
      (t0 tb t1 : ℕ) (from_a from_b : MeshAddress) (a b : Ping)
      → Probing a
      → b.socket ≡ true
      → a.presence_sensor ≡ true
      → a.latency_sensor ≡ true
      → let a' = update P t0 true a in
        let elapsed = sub32 t1 t0 in
        (outbox a'.trace ≡ some (a.target_address, ping_packet))
        × (recv_datagram P tb from_a ping_packet b
            ≡ act (Effect.datagram (P.reverse from_a) pong_packet) b)
        × (recv_datagram P t1 from_b pong_packet a' ≡ record a {
          last_ping_time = 0;
          trace =
              Effect.publish_latency elapsed
              ∷ Effect.publish_presence (ltb elapsed 1000)
              ∷ Effect.datagram a.target_address ping_packet
              ∷ a.trace;
        })
  unfolding pong reached tell_presence tell_latency
  update-recv_datagram t0 tb t1 from_a from_b a b p open_b sees times = rw (update-sent t0 a p) (
    refl,
    recv_datagram_lem tb from_a ping_code ping_text b ∙ rw (open_b) refl,
    recv_datagram_lem t1 from_b pong_code pong_text _ ∙ rw (sees, times) refl,
  )

  -- Passes of `loop` at the given values of the clock.
  abbrev pub passes : List ℕ → Ping → Ping
  passes [] s = s
  passes (t ∷ ts) s = passes ts (loop P t s)

  loop_idle : (t : ℕ) (s : Ping) → s.last_ping_time ≡ 0 → loop P t s ≡ s
  unfolding loop
  loop_idle t s e = ground arith

  loop_held : (t : ℕ) (s : Ping) → sub32 t s.last_ping_time ≤ 1000 → loop P t s ≡ s
  unfolding loop
  loop_held t s h = ground arith

  passes_idle : (ts : List ℕ) (s : Ping) → s.last_ping_time ≡ 0 → passes ts s ≡ s
  passes_idle [] s e = refl
  passes_idle (t ∷ ts) s e = ap (passes ts) (loop_idle t s e) ∙ passes_idle ts s e

  passes-Within :
      (early rest : List ℕ) (s : Ping)
      → Within s.last_ping_time early
      → passes (early ++ rest) s ≡ passes rest s
  passes-Within [] rest s w = refl
  passes-Within (t ∷ ts) rest s w =
      ap (passes (ts ++ rest)) (loop_held t s w.0) ∙ passes-Within ts rest s w.1

  -- After a PING at `t0`, not 0, passes of `loop` up to a second later change nothing; the first
  -- later pass tells the presence sensor once that the target is away, and all passes after it, at
  -- any time, change nothing.
  pub passes-away :
      (t0 late : ℕ) (early after : List ℕ) (s : Ping)
      → s.last_ping_time ≡ t0
      → t0 ≢ 0
      → s.presence_sensor ≡ true
      → Within t0 early
      → 1000 < sub32 late t0
      → passes (early ++ late ∷ after) s
        ≡ record s { last_ping_time = 0; trace = Effect.publish_presence false ∷ s.trace }
  unfolding loop tell_presence
  passes-away t0 late early after s e n sees w l =
      passes-Within early _ s (subst (λ u. Within u early) (sym e) w)
      ∙ ap (passes after) (ground arith)
      ∙ passes_idle after _ refl
