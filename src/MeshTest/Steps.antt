-- ===== src/MeshTest/Steps.antt =====
-- The passes of `MeshmeshTest` (components/meshmesh_test/meshmesh_test.cpp, test_broadcast1.cpp,
-- test_broadcast2.cpp, test_unicast1.cpp, test_unicast2.cpp). A fault is a call on a null socket.
use esphome_meshmesh.Prelude.{
  ltb, ◌==◌, if◌then◌else◌, bytes_eq, Result, ok, fault, ℕ, ◌+◌, ◌%◌, ◌^◌, true, false, ◌||◌, List,
  [], ◌∷◌,
}
use esphome_meshmesh.Mesh.{MeshAddress, sub32}
use esphome_meshmesh.MeshTest.State.{
  State, Effect, Received, Input, Library, MeshmeshTest, act, hello_string, reply_string,
  lore_ipsum, test_port, is_director, change_state, err_check, timeout_check,
}

unfoldable pub setup : ℕ → MeshmeshTest → MeshmeshTest
setup now s = record s { last_time = now }

unfoldable pub set_index : ℕ → MeshmeshTest → MeshmeshTest
set_index index s = record s { index = index }

-- The sum in a `uint8_t`.
unfoldable pub checksum : List ℕ → ℕ
checksum [] = 0
checksum (b ∷ bs) = (b + checksum bs) % 2 ^ 8

unfoldable pub close_test_resources : MeshmeshTest → MeshmeshTest
close_test_resources s = act Effect.delete_socket (record s { socket = false; buffer = false })

unfoldable pub open_test_socket : MeshmeshTest → MeshmeshTest
open_test_socket s =
    act Effect.open_socket (record (close_test_resources s) { socket = true; buffer = true })

unfoldable pub after_open_sub_state : MeshmeshTest → ℕ
after_open_sub_state s = if is_director s then 1 else 2

unfoldable pub wait_start : Input → MeshmeshTest → MeshmeshTest
wait_start i s =
    if ltb (if is_director s then 2000 else 500) (sub32 i.now s.last_time)
    then change_state State.broadcast1 0 i.later s
    else s

-- Case 0 of the first three tests.
unfoldable pub open_case : Input → MeshmeshTest → Result MeshmeshTest
open_case i s =
    let s' = open_test_socket s in
    ok (err_check i.opens i.later s' (change_state s'.state (after_open_sub_state s') i.later s'))

-- A case that sends a text and goes on to the sub-state `next`.
unfoldable pub send_case : MeshAddress → List ℕ → ℕ → Input → MeshmeshTest → Result MeshmeshTest
send_case target text next i s =
    let s' = act (Effect.datagram target text) s in
    if s.socket
    then ok (err_check i.sends i.later s' (change_state s'.state next i.later s'))
    else fault

-- What a case that receives makes of the answer: `next` is the sub-state after some bytes.
unfoldable pub received_case : Received → (List ℕ → ℕ) → ℕ → Input → MeshmeshTest → MeshmeshTest
received_case Received.failed next limit i s = change_state s.state 98 i.later s
received_case (Received.got [] from rssi) next limit i s =
    timeout_check limit i (record s { from = from; rssi = rssi })
received_case (Received.got (b ∷ bs) from rssi) next limit i s =
    change_state s.state (next (b ∷ bs)) i.later (record s { from = from; rssi = rssi })

unfoldable pub recv_case : (List ℕ → ℕ) → ℕ → Input → MeshmeshTest → Result MeshmeshTest
recv_case next limit i s = if s.socket then ok (received_case i.received next limit i s) else fault

-- The sub-state after a text that is expected, told by its checksum.
unfoldable pub by_checksum : List ℕ → ℕ → ℕ → List ℕ → ℕ
by_checksum text right wrong bytes = if checksum bytes == checksum text then right else wrong

-- Cases 98 and 99.
unfoldable pub end_case : State → Input → MeshmeshTest → Result MeshmeshTest
end_case next i s = ok (change_state next 0 i.later (close_test_resources s))

-- A case that waits two seconds before it acts.
unfoldable pub delayed : Input → MeshmeshTest → Result MeshmeshTest → Result MeshmeshTest
delayed i s r = if ltb 2000 (sub32 i.now s.last_time) then r else ok s

module _ (L : Library) where
  unfoldable pub broadcast_target : MeshmeshTest → MeshAddress
  broadcast_target s = L.make test_port L.broadcast_address

  unfoldable pub unicast_target : MeshmeshTest → MeshAddress
  unicast_target s = L.make_unicast test_port s.from.address

-- The cases that `broadcast1` and `unicast1` have in common, but for the target and the next test.
unfoldable pub small_packet_test : MeshAddress → State → Input → MeshmeshTest → Result MeshmeshTest
small_packet_test target next i s =
    let sub = s.sub_state in
    if sub == 0
    then open_case i s
    else if sub == 1
    then delayed i s (send_case target hello_string 3 i s)
    else if sub == 2
    then recv_case (by_checksum hello_string 4 99) 30000 i s
    else if sub == 3
    then recv_case (by_checksum reply_string 5 99) 1000 i s
    else if sub == 4
    then send_case target reply_string 6 i s
    else if sub == 5
    then send_case target lore_ipsum 7 i s
    else if sub == 6
    then recv_case (λ bytes. 8) 1000 i s
    else if sub == 7
    then recv_case (λ bytes. 99) 1000 i s
    else if sub == 8
    then send_case target lore_ipsum 99 i s
    else if sub == 98
    then end_case State.done i s
    else if sub == 99
    then end_case next i s
    else ok s

-- Whatever reply comes, case 3 goes on to 5.
unfoldable pub compare_test : MeshAddress → State → Input → MeshmeshTest → Result MeshmeshTest
compare_test target next i s =
    let sub = s.sub_state in
    if sub == 0
    then open_case i s
    else if sub == 1
    then send_case target hello_string 3 i s
    else if sub == 2
    then recv_case (λ bytes. 4) 5000 i s
    else if sub == 3
    then recv_case (λ bytes. if bytes_eq bytes reply_string then 5 else 5) 1000 i s
    else if sub == 4
    then send_case target reply_string 6 i s
    else if sub == 5
    then send_case target lore_ipsum 7 i s
    else if sub == 6
    then recv_case (λ bytes. 8) 1000 i s
    else if sub == 7
    then recv_case (λ bytes. 99) 1000 i s
    else if sub == 8
    then send_case target lore_ipsum 99 i s
    else if sub == 98
    then end_case State.done i s
    else if sub == 99
    then end_case next i s
    else ok s

-- Case 0 of the last test.
unfoldable pub open_callback_case : Input → MeshmeshTest → Result MeshmeshTest
open_callback_case i s =
    let s' = act Effect.set_callback (open_test_socket s) in
    ok (err_check i.opens i.later s' (change_state s'.state (after_open_sub_state s') i.later s'))

-- The last test, whose datagrams come in by `unicast2_async_recv`.
unfoldable pub callback_test : MeshAddress → State → Input → MeshmeshTest → Result MeshmeshTest
callback_test target next i s =
    let sub = s.sub_state in
    if sub == 0
    then open_callback_case i s
    else if sub == 1
    then delayed i s (send_case target hello_string 3 i s)
    else if sub == 4
    then send_case target reply_string 6 i s
    else if sub == 5
    then send_case target lore_ipsum 7 i s
    else if sub == 2 || (sub == 3 || (sub == 6 || sub == 7))
    then ok (timeout_check 5000 i s)
    else if sub == 8
    then send_case target lore_ipsum 99 i s
    else if sub == 98
    then end_case State.done i s
    else if sub == 99
    then end_case next i s
    else ok s

-- The report of the end, every two and a half seconds.
unfoldable pub report_end : Input → MeshmeshTest → MeshmeshTest
report_end i s = if ltb 2500 (sub32 i.now s.last_time) then record s { last_time = i.later } else s

-- The sub-state after a datagram in the last test.
unfoldable pub async_next : ℕ → List ℕ → ℕ
async_next sub bytes =
    if sub == 2
    then by_checksum hello_string 4 98 bytes
    else if sub == 3
    then by_checksum reply_string 5 98 bytes
    else if sub == 6
    then 8
    else if sub == 7
    then 99
    else sub

-- The clock is read where the sub-state changes.
unfoldable pub unicast2_async_recv : ℕ → List ℕ → MeshAddress → ℕ → MeshmeshTest → MeshmeshTest
unicast2_async_recv now bytes from rssi s =
    let s' = record s { from = from; rssi = rssi } in
    let sub = s.sub_state in
    if sub == 2 || (sub == 3 || (sub == 6 || sub == 7))
    then change_state s'.state (async_next sub bytes) now s'
    else s'

module _ (L : Library) where
  unfoldable pub broadcast1 : Input → MeshmeshTest → Result MeshmeshTest
  broadcast1 i s = small_packet_test (broadcast_target L s) State.broadcast2 i s

  unfoldable pub broadcast2 : Input → MeshmeshTest → Result MeshmeshTest
  broadcast2 i s = compare_test (broadcast_target L s) State.unicast1 i s

  unfoldable pub unicast1 : Input → MeshmeshTest → Result MeshmeshTest
  unicast1 i s = small_packet_test (unicast_target L s) State.unicast2 i s

  unfoldable pub unicast2 : Input → MeshmeshTest → Result MeshmeshTest
  unicast2 i s = callback_test (unicast_target L s) State.done i s

  unfoldable pub loop_in : State → Input → MeshmeshTest → Result MeshmeshTest
  loop_in State.wait_start i s = ok (wait_start i s)
  loop_in State.broadcast1 i s = broadcast1 i s
  loop_in State.broadcast2 i s = broadcast2 i s
  loop_in State.unicast1 i s = unicast1 i s
  loop_in State.unicast2 i s = unicast2 i s
  loop_in State.done i s = ok (report_end i s)

  unfoldable pub loop : Input → MeshmeshTest → Result MeshmeshTest
  loop i s = loop_in s.state i s
