-- ===== src/MeshTest/Session.antt =====
-- The first test between a director and another node (components/meshmesh_test/test_broadcast1.cpp).
use esphome_meshmesh.Prelude.{
  ltb, ◌==◌, ok, ℕ, suc, ◌<◌, ◌≡◌, refl, ◌≢◌, true, false, List, [], ◌∷◌, arith,
}
use esphome_meshmesh.Mesh.{MeshAddress, sub32}
use esphome_meshmesh.MeshTest.State.{
  State, Effect, Received, Library, MeshmeshTest, hello_string, reply_string, lore_ipsum, test_port,
  change_state, err_check,
}
use esphome_meshmesh.MeshTest.Steps.{
  checksum, close_test_resources, open_test_socket, after_open_sub_state, open_case, send_case,
  received_case, recv_case, by_checksum, end_case, delayed, broadcast_target, small_packet_test,
  broadcast1, loop_in, loop,
}
use esphome_meshmesh.MeshTest.Runs.{Event, run}

-- A pass in which the socket opens and sends, at the two readings of the clock.
abbrev pub busy_pass : ℕ → ℕ → Event
busy_pass now later =
    Event.pass
      (record { now = now; later = later; opens = true; sends = true; received = Received.failed })

-- A pass in which a datagram comes in.
abbrev pub hearing_pass : ℕ → ℕ → List ℕ → MeshAddress → ℕ → Event
hearing_pass now later bytes from rssi = Event.pass (record {
  now = now;
  later = later;
  opens = true;
  sends = true;
  received = Received.got bytes from rssi;
})

-- At the start of the first test.
abbrev pub ready : ℕ → MeshmeshTest → MeshmeshTest
ready index s = record s { index = index; state = State.broadcast1; sub_state = 0 }

module _ (L : Library) where
  abbrev pub everyone : MeshAddress
  everyone = L.make test_port L.broadcast_address

  -- What a node leaves that has sent two texts in the test and is through with it at `last`.
  abbrev pub passed : ℕ → List ℕ → ℕ → MeshAddress → ℕ → MeshmeshTest → MeshmeshTest
  passed index text last from rssi s = record {
    index = index;
    state = State.broadcast2;
    sub_state = 0;
    last_time = last;
    socket = false;
    buffer = false;
    from = from;
    rssi = rssi;
    trace =
        Effect.delete_socket
        ∷ Effect.datagram everyone lore_ipsum
        ∷ Effect.datagram everyone text
        ∷ Effect.open_socket
        ∷ Effect.delete_socket
        ∷ s.trace;
  }

  director_run :
      (n l : ℕ → ℕ) (from : MeshAddress) (rssi : ℕ) (s : MeshmeshTest)
      → 2000 < sub32 (n 1) (l 0)
      → run L
          (busy_pass (n 0) (l 0)
            ∷ busy_pass (n 1) (l 1)
            ∷ hearing_pass (n 2) (l 2) reply_string from rssi
            ∷ busy_pass (n 3) (l 3)
            ∷ hearing_pass (n 4) (l 4) lore_ipsum from rssi
            ∷ busy_pass (n 5) (l 5)
            ∷ [])
          (ready 0 s)
        ≡ ok (passed 0 hello_string (l 5) from rssi s)
  unfolding loop loop_in broadcast1 small_packet_test open_case open_test_socket
      close_test_resources after_open_sub_state err_check change_state send_case recv_case
      received_case by_checksum checksum hello_string reply_string lore_ipsum end_case delayed
      broadcast_target
  director_run n l from rssi s late =
      let waited : ltb 2000 (sub32 (n 1) (l 0)) ≡ true = ground arith in rw waited refl

  follower_run :
      (k : ℕ) (n l : ℕ → ℕ) (from : MeshAddress) (rssi : ℕ) (s : MeshmeshTest)
      → run L
          (busy_pass (n 0) (l 0)
            ∷ hearing_pass (n 1) (l 1) hello_string from rssi
            ∷ busy_pass (n 2) (l 2)
            ∷ hearing_pass (n 3) (l 3) lore_ipsum from rssi
            ∷ busy_pass (n 4) (l 4)
            ∷ busy_pass (n 5) (l 5)
            ∷ [])
          (ready (suc k) s)
        ≡ ok (passed (suc k) reply_string (l 5) from rssi s)
  unfolding loop loop_in broadcast1 small_packet_test open_case open_test_socket
      close_test_resources after_open_sub_state err_check change_state send_case recv_case
      received_case by_checksum checksum hello_string reply_string lore_ipsum end_case delayed
      broadcast_target
  follower_run k n l from rssi s =
      let follows : (suc k == 0) ≡ false = ground arith in rw follows refl

  -- The first test between a director, whose index is 0, and another node, if the sockets open and
  -- send, the director waits more than two seconds before its second pass, and each pass that waits
  -- for a datagram gets the one that the other node has sent: both are through with the test and ready
  -- for the second, their sockets closed. The director has sent the greeting and the long text, the
  -- other node the reply and the long text, all to everyone.
  pub run-passed :
      (k : ℕ) (nd ld nf lf : ℕ → ℕ) (from_d from_f : MeshAddress) (rssi_d rssi_f : ℕ)
      (d f : MeshmeshTest)
      → 2000 < sub32 (nd 1) (ld 0)
      → (run L
            (busy_pass (nd 0) (ld 0)
              ∷ busy_pass (nd 1) (ld 1)
              ∷ hearing_pass (nd 2) (ld 2) reply_string from_f rssi_f
              ∷ busy_pass (nd 3) (ld 3)
              ∷ hearing_pass (nd 4) (ld 4) lore_ipsum from_f rssi_f
              ∷ busy_pass (nd 5) (ld 5)
              ∷ [])
            (ready 0 d)
          ≡ ok (passed 0 hello_string (ld 5) from_f rssi_f d))
        × (run L
              (busy_pass (nf 0) (lf 0)
                ∷ hearing_pass (nf 1) (lf 1) hello_string from_d rssi_d
                ∷ busy_pass (nf 2) (lf 2)
                ∷ hearing_pass (nf 3) (lf 3) lore_ipsum from_d rssi_d
                ∷ busy_pass (nf 4) (lf 4)
                ∷ busy_pass (nf 5) (lf 5)
                ∷ [])
              (ready (suc k) f)
            ≡ ok (passed (suc k) reply_string (lf 5) from_d rssi_d f))
  run-passed k nd ld nf lf from_d from_f rssi_d rssi_f d f late =
      (director_run nd ld from_f rssi_f d late, follower_run k nf lf from_d rssi_d f)

  -- A node other than the director that in the first test gets, in place of the greeting, any
  -- datagram with another checksum is after one more pass ready for the second test, as after success;
  -- it has sent nothing.
  pub run-wrong :
      (k : ℕ) (n l : ℕ → ℕ) (b : ℕ) (bs : List ℕ) (from : MeshAddress) (rssi : ℕ) (s : MeshmeshTest)
      → checksum (b ∷ bs) ≢ checksum hello_string
      → run L
          (busy_pass (n 0) (l 0)
            ∷ hearing_pass (n 1) (l 1) (b ∷ bs) from rssi
            ∷ busy_pass (n 2) (l 2)
            ∷ [])
          (ready (suc k) s)
        ≡ ok (record {
          index = suc k;
          state = State.broadcast2;
          sub_state = 0;
          last_time = l 2;
          socket = false;
          buffer = false;
          from = from;
          rssi = rssi;
          trace = Effect.delete_socket ∷ Effect.open_socket ∷ Effect.delete_socket ∷ s.trace;
        })
  unfolding loop loop_in broadcast1 small_packet_test open_case open_test_socket
      close_test_resources after_open_sub_state err_check change_state recv_case received_case
      by_checksum end_case
  run-wrong k n l b bs from rssi s differs =
      let follows : (suc k == 0) ≡ false = ground arith in
      let other : (checksum (b ∷ bs) == checksum hello_string) ≡ false = ground arith in
      rw (follows, other) refl
