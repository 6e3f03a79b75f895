-- ===== src/MeshTest/Runs.antt =====
-- Runs of the firmware that tests the mesh (components/meshmesh_test).
use esphome_meshmesh.Prelude.{
  ltb, if◌then◌else◌, Result, ◌>>=◌, Returns, Returns-bind, Returns-map, ok, ℕ, ◌≡◌, refl, sym, ap,
  inl, Bool, true, false, List, [], ◌∷◌, arith,
}
use esphome_meshmesh.Mesh.{MeshAddress, sub32}
use esphome_meshmesh.MeshTest.State.{
  State, Input, Library, MeshmeshTest, fresh, is_director, change_state,
}
use esphome_meshmesh.MeshTest.Steps.{
  wait_start, report_end, unicast2_async_recv, broadcast1, broadcast2, unicast1, unicast2, loop_in,
  loop,
}
use esphome_meshmesh.MeshTest.Safe.{idle, rank, Fits, Good, true_not_false, either}
use esphome_meshmesh.MeshTest.Forward.{
  small_packet_test-Good, compare_test-Good, callback_test-Good, unicast2_async_recv-Good,
}

-- What happens to the component: passes of its loop, and datagrams that the mesh library hands to the
-- callback.
pub data Event : Type 0 where
  pass : Input → Event
  deliver : ℕ → List ℕ → MeshAddress → ℕ → Event

-- The callback belongs to the socket of the last test.
abbrev pub delivered : State → Bool → ℕ → List ℕ → MeshAddress → ℕ → MeshmeshTest → MeshmeshTest
delivered State.unicast2 true now bytes from rssi s = unicast2_async_recv now bytes from rssi s
delivered x b now bytes from rssi s = s

wait_start-Good :
    (i : Input) (s : MeshmeshTest) → s.state ≡ State.wait_start → Fits s → Good s (wait_start i s)
unfolding wait_start change_state
wait_start-Good i s e f =
    either (Good s) (ltb (if is_director s then 2000 else 500) (sub32 i.now s.last_time)) _ _
      (
        record {
          buffers = f.buffers;
          needs = λ l m. absurd (omega arith);
          range = inl (omega arith);
          rests = λ q. absurd (true_not_false (sym q));
        },
        omega (arith, ap rank e),
      )
      (f, omega arith)

report_end-Good : (i : Input) (s : MeshmeshTest) → Fits s → Good s (report_end i s)
unfolding report_end
report_end-Good i s f =
    either (Good s) (ltb 2500 (sub32 i.now s.last_time)) _ _
      (
        record { buffers = f.buffers; needs = f.needs; range = f.range; rests = f.rests },
        omega arith,
      )
      (f, omega arith)

delivered-Good :
    (x : State) (b : Bool) (now : ℕ) (bytes : List ℕ) (from : MeshAddress) (rssi : ℕ)
    (s : MeshmeshTest)
    → s.state ≡ x
    → s.socket ≡ b
    → Fits s
    → Good s (delivered x b now bytes from rssi s)
delivered-Good State.unicast2 true now bytes from rssi s e h f =
    unicast2_async_recv-Good s f (ap idle e) now bytes from rssi h
delivered-Good State.unicast2 false now bytes from rssi s e h f = (f, omega arith)
delivered-Good State.wait_start b now bytes from rssi s e h f = (f, omega arith)
delivered-Good State.broadcast1 b now bytes from rssi s e h f = (f, omega arith)
delivered-Good State.broadcast2 b now bytes from rssi s e h f = (f, omega arith)
delivered-Good State.unicast1 b now bytes from rssi s e h f = (f, omega arith)
delivered-Good State.done b now bytes from rssi s e h f = (f, omega arith)

pub fresh-Fits : (from : MeshAddress) → Fits (fresh from)
unfolding fresh
fresh-Fits from = record {
  buffers = refl;
  needs = λ l m. absurd (omega arith);
  range = inl (omega arith);
  rests = λ e. (refl, refl);
}

module _ (L : Library) where
  abbrev pub step : Event → MeshmeshTest → Result MeshmeshTest
  step (Event.pass i) s = loop L i s
  step (Event.deliver now bytes from rssi) s = ok (delivered s.state s.socket now bytes from rssi s)

  abbrev pub run : List Event → MeshmeshTest → Result MeshmeshTest
  run [] s = ok s
  run (e ∷ es) s = step e s >>= λ t. run es t

  loop_in-Good :
      (x : State) (i : Input) (s : MeshmeshTest)
      → s.state ≡ x
      → Fits s
      → Returns (Good s) (loop_in L x i s)
  unfolding loop_in broadcast1 broadcast2 unicast1 unicast2
  loop_in-Good State.wait_start i s e f = wait_start-Good i s e f
  loop_in-Good State.broadcast1 i s e f =
      small_packet_test-Good s f (ap idle e) _ State.broadcast2 i (omega (arith, ap rank e))
  loop_in-Good State.broadcast2 i s e f =
      compare_test-Good s f (ap idle e) _ State.unicast1 i (omega (arith, ap rank e))
  loop_in-Good State.unicast1 i s e f =
      small_packet_test-Good s f (ap idle e) _ State.unicast2 i (omega (arith, ap rank e))
  loop_in-Good State.unicast2 i s e f =
      callback_test-Good s f (ap idle e) _ State.done i (omega (arith, ap rank e))
  loop_in-Good State.done i s e f = report_end-Good i s f

  step-Good : (e : Event) (s : MeshmeshTest) → Fits s → Returns (Good s) (step e s)
  unfolding loop
  step-Good (Event.pass i) s f = loop_in-Good s.state i s refl f
  step-Good (Event.deliver now bytes from rssi) s f =
      delivered-Good s.state s.socket now bytes from rssi s refl refl f

  -- From the object as constructed, or any state that fits, whatever comes in and whatever the socket
  -- answers: the component never uses a null socket; it has a buffer where it has a socket, a socket in
  -- the sub-states that use it and none before and after the tests; and its tests only go forward.
  pub run-Good : (es : List Event) (s : MeshmeshTest) → Fits s → Returns (Good s) (run es s)
  run-Good [] s f = (f, omega arith)
  run-Good (e ∷ es) s f = Returns-bind (Good s) (Good s) (step e s) _ (step-Good e s f) (λ t g.
      Returns-map (Good t) (Good s) (run es t) (run-Good es t g.0)
        (λ u h. (h.0, omega (arith, g.1, h.1))))
