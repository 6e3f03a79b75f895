-- ===== src/Ping/Runs.antt =====
-- Runs of the probe (components/ping/ping.cpp): passes of `loop`, polls by `update`, and datagrams,
-- with the datagrams that go out counted.
use esphome_meshmesh.Prelude.{
  ℕ, suc, ◌+◌, ◌≡◌, ap, ◌∙◌, Bool, true, List, [], ◌∷◌, arith, get_or, leb, ◌==◌, if◌then◌else◌,
}
use esphome_meshmesh.Mesh.{MeshAddress, add32}
use esphome_meshmesh.Ping.{
  Effect, Platform, Ping, ping_code, pong_code, ping_text, tell_presence, tell_latency,
  set_target_address, strncmp_same, open_socket, setup, loop, send_failed, update, pong, reached,
  recv_datagram,
}

pub data Event : Type 0 where
  pass : ℕ → Event
  poll : ℕ → Bool → Event
  receive : ℕ → MeshAddress → List ℕ → Event

-- The datagrams sent whose first byte is `code`.
abbrev pub sent : ℕ → List Effect → ℕ
sent code [] = 0
sent code (Effect.datagram to bytes ∷ t) = (if get_or bytes 0 0 == code then 1 else 0) + sent code t
sent code (_ ∷ t) = sent code t

abbrev pub polls : List Event → ℕ
polls [] = 0
polls (poll now b ∷ es) = suc (polls es)
polls (_ ∷ es) = polls es

module _ (P : Platform) where
  -- The datagrams received whose first byte is that of a PING.
  abbrev pub asked : List Event → ℕ
  asked [] = 0
  asked (receive now from buf ∷ es) =
      (if get_or buf 0 P.past_end == ping_code then 1 else 0) + asked es
  asked (_ ∷ es) = asked es

  unfoldable pub step : Event → Ping → Ping
  step (pass now) s = loop P now s
  step (poll now b) s = update P now b s
  step (receive now from buf) s = recv_datagram P now from buf s

  unfoldable pub run : List Event → Ping → Ping
  run [] s = s
  run (e ∷ es) s = run es (step e s)

  -- A step keeps socket and target, and sends `p` PINGs and `q` PONGs.
  pub record Sends (s t : Ping) (p q : ℕ) : Type 0 where
    pub socket_kept : t.socket ≡ s.socket
    pub target_kept : t.target_address ≡ s.target_address
    pub pings : sent ping_code t.trace ≡ p + sent ping_code s.trace
    pub pongs : sent pong_code t.trace ≡ q + sent pong_code s.trace

  tell_presence-Sends : (b : Bool) (s : Ping) → Sends s (tell_presence b s) 0 0
  unfolding tell_presence
  tell_presence-Sends b s = ground arith

  tell_latency-Sends : (n : ℕ) (s : Ping) → Sends s (tell_latency n s) 0 0
  unfolding tell_latency
  tell_latency-Sends n s = ground arith

  loop-Sends : (now : ℕ) (s : Ping) → Sends s (loop P now s) 0 0
  unfolding loop tell_presence
  loop-Sends now s = ground arith

  send_failed-Sends : (s : Ping) → Sends s (send_failed P s) 0 0
  unfolding send_failed tell_latency
  send_failed-Sends s = ground arith

  reached-Sends : (now : ℕ) (s : Ping) → Sends s (reached P now s) 0 0
  unfolding reached tell_latency tell_presence
  reached-Sends now s = ground arith

  -- The number of PINGs that a poll sends.
  abbrev pub pings_of : Ping → ℕ
  pings_of s =
      if leb s.target_address.address (add32 P.no_address 1) then 0 else if s.socket then 1 else 0

  update-Sends : (now : ℕ) (b : Bool) (s : Ping) → Sends s (update P now b s) (pings_of s) 0
  unfolding update
  update-Sends now b s =
      let out = record s {
        last_ping_time = now;
        trace = Effect.datagram s.target_address (ping_code ∷ ping_text) ∷ s.trace;
      } in
      let f = send_failed-Sends out in
      ground (arith, f.socket_kept, f.target_kept, f.pings, f.pongs)

  recv_datagram-Sends :
      (now : ℕ) (from : MeshAddress) (buf : List ℕ) (s : Ping)
      → s.socket ≡ true
      → Sends s
          (recv_datagram P now from buf s)
          0
          (if get_or buf 0 P.past_end == ping_code then 1 else 0)
  unfolding recv_datagram strncmp_same pong
  recv_datagram-Sends now from buf s o =
      let r = reached-Sends now s in ground (arith, r.socket_kept, r.target_kept, r.pings, r.pongs)

  -- From a state with the socket open, in any run of passes, polls and datagrams exactly one PONG
  -- goes out for each datagram received that starts with the code of a PING, and one PING for each
  -- poll; no PING does if the target is the address 0 or 1.
  pub run-sent :
      (es : List Event) (s : Ping)
      → s.socket ≡ true
      → let t = run es s in
        (sent pong_code t.trace ≡ asked es + sent pong_code s.trace)
        × (sent ping_code t.trace
            ≡ (if leb s.target_address.address (add32 P.no_address 1) then 0 else polls es)
              + sent ping_code s.trace)
  unfolding run step
  run-sent [] s o = ground arith
  run-sent (pass now ∷ es) s o =
      let k = loop-Sends now s in
      let (answers, probes) = run-sent es (step (pass now) s) (k.socket_kept ∙ o) in
      let held = ap (λ (a : MeshAddress). leb a.address (add32 P.no_address 1)) k.target_kept in
      ground (arith, answers, probes, held, k.pings, k.pongs)
  run-sent (poll now b ∷ es) s o =
      let k = update-Sends now b s in
      let (answers, probes) = run-sent es (step (poll now b) s) (k.socket_kept ∙ o) in
      let held = ap (λ (a : MeshAddress). leb a.address (add32 P.no_address 1)) k.target_kept in
      ground (arith, answers, probes, held, k.pings, k.pongs)
  run-sent (receive now from buf ∷ es) s o =
      let k = recv_datagram-Sends now from buf s o in
      let (answers, probes) = run-sent es (step (receive now from buf) s) (k.socket_kept ∙ o) in
      let held = ap (λ (a : MeshAddress). leb a.address (add32 P.no_address 1)) k.target_kept in
      ground (arith, answers, probes, held, k.pings, k.pongs)

  -- A coordinator set up to target the coordinator's own address, which is not the empty address,
  -- opens its socket and becomes a server: no run of passes, polls and datagrams sends a PING.
  pub setup-Silent :
      (es : List Event) (s : Ping)
      → s.target_address.address ≡ P.coordinator_address
      → P.no_address ≡ 0
      → let t = setup P true s in
        (t.socket ≡ true) × (sent ping_code (run es t).trace ≡ sent ping_code s.trace)
  unfolding setup open_socket set_target_address
  setup-Silent es s target zero_address = (opened, silent)
    where
      opened : (setup P true s).socket ≡ true
      opened = ground arith

      server : leb (setup P true s).target_address.address (add32 P.no_address 1) ≡ true
      server = ground arith

      untold : (setup P true s).trace ≡ s.trace
      untold = ground arith

      silent : sent ping_code (run es (setup P true s)).trace ≡ sent ping_code s.trace
      silent =
          let k = (run-sent es (setup P true s) opened).1 in
          ground (arith, k, server, ap (sent ping_code) untold)
