-- ===== src/Ota/Upload/Setting.antt =====
-- What an upload to components/meshmesh/ota/ota_meshmesh.cpp needs: a platform on which the outside
-- calls succeed, a clock that is in time, and a session that takes firmware.
use esphome_meshmesh.Prelude.{
  ℕ, suc, ◌+◌, ◌*◌, ◌/◌, ◌^◌, ◌≤◌, ◌<◌, ◌≡◌, refl, ◌⊎◌, ap, true, false, arith, List, [], ◌∷◌, not,
  ◌||◌, ◌&&◌, ltb, ◌==◌,
}
use esphome_meshmesh.Mesh.{MeshAddress, sub32}
use esphome_meshmesh.Ota.State.{
  OtaState, ordinal, Effect, Platform, Ota, act, ota_port, data_timeout_ms,
}
use esphome_meshmesh.Ota.Rx.{
  rx_available, check_timeout, send_to_peer, handle_frames, yield_and_feed_watchdog,
}
use esphome_meshmesh.Ota.Data.{write_byte, data_case, handle_data_step}
use esphome_meshmesh.Ota.Loop.{session_step, loop}
use esphome_meshmesh.Ota.Firmware.{Quiet}
use esphome_meshmesh.Ota.Chunks.{Counted, Settled}

-- No datagram is refused, no call of the backend fails, and nothing comes in during a pass.
pub record Succeeds (P : Platform) : Type 0 where
  pub quiet : Quiet P
  pub sent : (k : ℕ) (to : MeshAddress) (bytes : List ℕ) → P.sends k to bytes ≡ true
  pub begun_ok : (k size : ℕ) → P.begin_code k size ≡ P.response.ok
  pub written_ok : (k : ℕ) (bytes : List ℕ) → P.write_code k bytes ≡ P.response.ok
  pub ended_ok : (k : ℕ) → P.end_code k ≡ P.response.ok

-- Up to the outside call `limit`, the clock is at most 90 seconds past `start`.
abbrev pub InTime : Platform → ℕ → ℕ → Type 0
InTime P start limit = (k : ℕ) → k < limit → sub32 (P.millis k) start ≤ data_timeout_ms

-- A session in the state `st` with its socket and its backend.
pub record Online (st : OtaState) (s : Ota) : Type 0 where
  pub state : s.ota_state ≡ st
  pub socket : s.socket_open ≡ true
  pub peer_set : s.has_peer ≡ true
  pub backend_set : s.backend ≡ true

-- The counters of an update of at most `fuel` blocks: in range, and every block that is due
-- acknowledged.
pub record Paced (fuel : ℕ) (s : Ota) : Type 0 where
  pub settled : Settled s
  pub within : s.firmware_total ≤ s.ota_size
  pub no_wrap : s.ota_size + 16384 ≤ 2 ^ 32
  pub blocks_in : s.ota_size ≤ 8192 * fuel

Paced-behind :
    (size total acked : ℕ)
    → total ≤ size
    → (total < size → acked ≡ 8192 * (total / 8192))
    → (total ≡ size → acked ≡ 8192 * ((size + 8191) / 8192))
    → (acked ≡ 8192 * (acked / 8192)) × ((acked ≤ total) ⊎ ((total ≡ size) × (acked < size + 8192)))
Paced-behind size total acked w p q = ground arith

pub Paced-Counted : (fuel : ℕ) (s : Ota) → Paced fuel s → Counted s (s.size_acknowledged / 8192)
Paced-Counted fuel s p =
    let b =
      Paced-behind s.ota_size s.firmware_total s.size_acknowledged p.within p.settled.0
        p.settled.1 in
    record { whole = b.0; behind = b.1; within = p.within; no_wrap = p.no_wrap }

module _ (P : Platform) where
  -- The datagram of one byte to the peer.
  abbrev pub reply : Ota → ℕ → Effect
  reply s byte = Effect.datagram (record s.peer { port = ota_port }) (byte ∷ [])

  pub write_byte-Succeeds :
      (s : Ota) (byte : ℕ)
      → Succeeds P
      → s.socket_open ≡ true
      → s.has_peer ≡ true
      → write_byte P s byte ≡ (true, act (reply s byte) s)
  unfolding write_byte send_to_peer
  write_byte-Succeeds s byte ok o h =
      rw (o, h, ok.sent s.turn (record s.peer { port = ota_port }) (byte ∷ [])) refl

  pub yield-Succeeds :
      (s : Ota) → Succeeds P → yield_and_feed_watchdog P s ≡ record s { turn = suc s.turn }
  unfolding yield_and_feed_watchdog handle_frames
  yield-Succeeds s ok = rw (ok.quiet s.turn, handle_frames) refl

  -- A pass of `loop` in the data phase, in time, is a pass of the state's case.
  pub loop-Online :
      (fuel : ℕ) (st : OtaState) (s : Ota)
      → 7 ≤ ordinal st
      → Online st s
      → sub32 (P.millis s.turn) s.data_phase_start_ms ≤ data_timeout_ms
      → loop P fuel s ≡ data_case P fuel st s
  unfolding loop session_step handle_data_step check_timeout
  loop-Online fuel st s n o h =
      let e = ap ordinal o.state in
      let there : not s.socket_open || (not s.has_peer && rx_available s == 0) ≡ false =
        rw (o.socket, o.peer_set) refl in
      let busy : ordinal s.ota_state == ordinal OtaState.idle ≡ false = ground (arith, e, n) in
      let late : ltb (ordinal s.ota_state) (ordinal OtaState.data_auth_ok) ≡ false =
        ground (arith, e, n) in
      let time : ltb data_timeout_ms (sub32 (P.millis s.turn) s.data_phase_start_ms) ≡ false =
        ground (arith, h) in
      rw (there, busy, late, time) (ap (λ x. data_case P fuel x s) o.state)
