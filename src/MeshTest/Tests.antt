-- ===== src/MeshTest/Tests.antt =====
-- Sample nodes of the test firmware (components/meshmesh_test), and the theorems about them at concrete
-- inputs.
use esphome_meshmesh.Prelude.{
  length, ◌>>=◌, Returns, ok, ℕ, ◌*◌, ◌≡◌, refl, Bool, false, List, [], ◌∷◌, arith,
}
use esphome_meshmesh.Mesh.{MeshAddress}
use esphome_meshmesh.MeshTest.State.{
  State, Effect, Library, MeshmeshTest, fresh, hello_string, reply_string, lore_ipsum, change_state,
  err_check, timeout_check,
}
use esphome_meshmesh.MeshTest.Steps.{
  setup, checksum, close_test_resources, open_test_socket, after_open_sub_state, send_case,
  by_checksum, end_case, delayed, unicast_target, open_callback_case, callback_test, async_next,
  unicast2_async_recv, unicast2, loop_in, loop,
}
use esphome_meshmesh.MeshTest.Safe.{Good}
use esphome_meshmesh.MeshTest.Runs.{Event, fresh-Fits, run, run-Good}
use esphome_meshmesh.MeshTest.Session.{
  busy_pass, hearing_pass, ready, passed, run-passed, run-wrong,
}

abbrev library : Library
library = record {
  broadcast_address = 0xFFFFFFFF;
  make = λ port address. record {
    port = port;
    address = address;
    repeaters = [];
    source_protocol = 0;
  };
  make_unicast = λ port address. record {
    port = port;
    address = address;
    repeaters = [];
    source_protocol = 1;
  };
}

abbrev director : MeshAddress
director = record { port = 0x11; address = 1; repeaters = []; source_protocol = 0 }

abbrev follower : MeshAddress
follower = record { port = 0x11; address = 2; repeaters = []; source_protocol = 0 }

unfoldable node : MeshmeshTest
node = setup 0 (fresh director)

length_lem : length lore_ipsum ≡ 792
unfolding lore_ipsum
length_lem = refl

-- The last test, up to its end, with a reply that comes to the callback, and one that comes too late.
abbrev last_test : List Event
last_test =
    busy_pass 0 0
    ∷ busy_pass 2001 2001
    ∷ Event.deliver 2100 reply_string follower 7
    ∷ busy_pass 2200 2200
    ∷ busy_pass 8000 8000
    ∷ busy_pass 8100 8100
    ∷ Event.deliver 8200 lore_ipsum follower 7
    ∷ []

abbrev summary : MeshmeshTest → State × (ℕ × (Bool × ℕ))
summary s = (s.state, (s.sub_state, (s.socket, s.last_time)))

run-last_test :
    (run library last_test (record node { state = State.unicast2 }) >>= λ t. ok (summary t))
    ≡ ok (State.done, (0, (false, 8100)))
unfolding node setup fresh loop loop_in unicast2 callback_test open_callback_case open_test_socket
    close_test_resources after_open_sub_state err_check change_state send_case timeout_check delayed
    unicast2_async_recv async_next by_checksum checksum hello_string reply_string lore_ipsum
    end_case unicast_target
run-last_test = refl

run-Good_example :
    Returns
      (Good (fresh director))
      (run library (busy_pass 600 601 ∷ busy_pass 3000 3001 ∷ last_test) (fresh director))
run-Good_example =
    run-Good library (busy_pass 600 601 ∷ busy_pass 3000 3001 ∷ last_test) (fresh director)
      (fresh-Fits director)

abbrev clock : ℕ → ℕ
clock n = 3000 * n

run-passed_example :
    (run library
        (busy_pass 0 0
          ∷ busy_pass 3000 3000
          ∷ hearing_pass 6000 6000 reply_string follower 9
          ∷ busy_pass 9000 9000
          ∷ hearing_pass 12000 12000 lore_ipsum follower 9
          ∷ busy_pass 15000 15000
          ∷ [])
        (ready 0 node)
      ≡ ok (passed library 0 hello_string 15000 follower 9 node))
    × (run library
          (busy_pass 0 0
            ∷ hearing_pass 3000 3000 hello_string director 8
            ∷ busy_pass 6000 6000
            ∷ hearing_pass 9000 9000 lore_ipsum director 8
            ∷ busy_pass 12000 12000
            ∷ busy_pass 15000 15000
            ∷ [])
          (ready 1 node)
        ≡ ok (passed library 1 reply_string 15000 director 8 node))
run-passed_example =
    run-passed library 0 clock clock clock clock director follower 8 9 node node (omega arith)

run-wrong_example :
    run library
      (busy_pass 0 0 ∷ hearing_pass 3000 3000 (1 ∷ []) director 8 ∷ busy_pass 6000 6000 ∷ [])
      (ready 1 node)
    ≡ ok (record {
      index = 1;
      state = State.broadcast2;
      sub_state = 0;
      last_time = 6000;
      socket = false;
      buffer = false;
      from = director;
      rssi = 8;
      trace = Effect.delete_socket ∷ Effect.open_socket ∷ Effect.delete_socket ∷ node.trace;
    })
unfolding checksum hello_string
run-wrong_example = run-wrong library 0 clock clock 1 [] director 8 node (omega arith)
