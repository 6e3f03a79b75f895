-- ===== src/Socket/Tests.antt =====
-- A sample of mesh sockets (components/socket/meshmesh_socket_impl.cpp), and the theorems about them
-- at concrete inputs.
use esphome_meshmesh.Prelude.{
  ltb, ◌==◌, if◌then◌else◌, Bool-cases, length, take, drop, length-take, Result, ◌>>=◌, Returns, ok,
  fault, ℕ, ◌+◌, ◌-◌, ◌^◌, ◌≡◌, refl, ◌≢◌, inl, inr, true, false, Option, none, some, List, [], ◌∷◌,
  arith,
}
use esphome_meshmesh.Socket.State.{
  minus_one, sock_stream, SocketType, Library, World, put, get_socket, store, add_socket,
  remove_socket, make_socket_impl,
}
use esphome_meshmesh.Socket.Calls.{
  Impl, socket_type, read_code, create_socket_of, create_socket, accepted, accept_loop_monitored,
  listen, close, destroy, getpeername, read_errno, read, readv_from, readv, write, writev,
}
use esphome_meshmesh.Socket.Owners.{Call, System, Owners, Answer, run, own_run}
use esphome_meshmesh.Socket.Storing.{IsValid, Shows}
use esphome_meshmesh.Socket.Owned.{Agree}
use esphome_meshmesh.Socket.Refines.{run-Agree}
use esphome_meshmesh.Socket.Vectors.{Honest, concat, Filled, Counts, Held, readv-VectorRead}
use esphome_meshmesh.Socket.Writing.{writev-sending, close-Throws}

-- Bytes that have come in, and the connections that wait, each with its bytes.
record Sample : Type 0 where
  inbox : List ℕ
  waiting : List (List ℕ)

abbrev next_waiting : Sample → Option Sample × Sample
next_waiting s = elim s.waiting as (λ _. Option Sample × Sample) [
  | [] ↦ (none, s)
  | b ∷ bs ↦ (some (record { inbox = b; waiting = [] }), record s { waiting = bs })
]

abbrev receive : ℕ → Sample → (ℕ × List ℕ) × Sample
receive len s =
    if length s.inbox == 0
    then ((2 ^ 32 - 3, []), s)
    else ((length (take len s.inbox), take len s.inbox), record s { inbox = drop len s.inbox })

abbrev library : Library Sample
library = record {
  make = λ type. record { inbox = 1 ∷ 2 ∷ 3 ∷ 4 ∷ 5 ∷ []; waiting = (7 ∷ 8 ∷ []) ∷ [] };
  accept = next_waiting;
  bind = λ port s. (0, s);
  listen = λ backlog s. (0, s);
  recv = receive;
  send = λ buf s. (if ltb (length buf) 3 then length buf else minus_one, s);
  close = λ s. 0;
  target_address = λ s. 0xA10000 + length s.inbox;
  err_buffer_too_small = 2 ^ 32 - 3;
  err_is_not_connected = 2 ^ 32 - 4;
}

library-Honest : Honest library
library-Honest = record {
  received = λ len s. elim (Bool-cases (length s.inbox == 0)) [
    | inl b ↦ rw b (inr (refl, inl refl))
    | inr b ↦ rw b (inl (refl, omega (arith, length-take len s.inbox)))
  ];
  codes = (refl, (refl, refl));
}

abbrev no_object : Impl
no_object = record { fd = minus_one; closed = true; loop_monitored = false }

-- Before the first socket.
abbrev start : System Sample
start = record {
  count = 0;
  object = λ i. no_object;
  world = record { sockets = λ k. none; last_fd = 0; errno = 0 };
}

abbrev nobody : Owners Sample
nobody = record { count = 0; own = λ i. none }

not_open : true ≢ false
not_open c = cc

start-IsValid : IsValid start
start-IsValid = record {
  room = omega arith;
  unused = λ k l. refl;
  closed_fd = λ i c. refl;
  open_fd = λ i c. absurd (not_open c);
  held = λ i c. absurd (not_open c);
  distinct = λ i j c d e. absurd (not_open c);
  fresh = λ i l. refl;
}

start-Shows : Shows start nobody
start-Shows = record { counts = refl; views = λ i. refl }

abbrev calls : List Call
calls =
    Call.create_call sock_stream true
    ∷ Call.create_call 7 true
    ∷ Call.listen_call 0 1
    ∷ Call.accept_call 0
    ∷ Call.read_call 1 1
    ∷ Call.close_call 0
    ∷ Call.read_call 1 4
    ∷ Call.read_call 1 4
    ∷ Call.close_call 0
    ∷ []

abbrev answers : Result (List Answer × System Sample) → Result (List Answer)
answers r = r >>= λ x. ok x.0

run-calls :
    answers (run library calls start)
    ≡ ok (
        (1, [])
        ∷ (0, [])
        ∷ (0, [])
        ∷ (1, [])
        ∷ (1, 7 ∷ [])
        ∷ (0, [])
        ∷ (1, 8 ∷ [])
        ∷ (minus_one, [])
        ∷ (0, [])
        ∷ [])
unfolding create_socket create_socket_of socket_type add_socket make_socket_impl listen
    accept_loop_monitored accepted get_socket store read read_code read_errno close remove_socket
run-calls = refl

run-Agree_example : Agree 3 (run library calls start) (own_run library calls nobody)
run-Agree_example = run-Agree library calls start nobody start-IsValid start-Shows (omega arith)

abbrev opened : World Sample
opened = record {
  sockets = put 0 (some (library.make SocketType.mm_sock_stream)) (λ k. none);
  last_fd = 1;
  errno = 0;
}

abbrev first : Impl
first = record { fd = 0; closed = false; loop_monitored = false }

first-Held : Held library first opened
unfolding get_socket
first-Held = (library.make SocketType.mm_sock_stream, refl)

readv-VectorRead_example :
    Returns
      (λ r. Filled (2 ∷ 4 ∷ 1 ∷ []) r.0.1 × Counts r.0.0 (concat r.0.1))
      (readv library (2 ∷ 4 ∷ 1 ∷ []) first opened)
readv-VectorRead_example =
    readv-VectorRead library library-Honest (2 ∷ 4 ∷ 1 ∷ []) first opened (omega arith) first-Held

run-readv :
    (readv library (2 ∷ 4 ∷ 1 ∷ []) first opened >>= λ r. ok r.0.1)
    ≡ ok ((1 ∷ 2 ∷ []) ∷ (3 ∷ 4 ∷ 5 ∷ []) ∷ [])
unfolding readv readv_from read read_code read_errno get_socket store
run-readv = refl

-- Two bytes are taken, three refused: the answer is 1.
writev-sending_example :
    (writev library ((1 ∷ 2 ∷ []) ∷ (3 ∷ 4 ∷ 5 ∷ []) ∷ []) first opened >>= λ r. ok r.0) ≡ ok 1
writev-sending_example =
    writev-sending library ((1 ∷ 2 ∷ []) ∷ (3 ∷ 4 ∷ 5 ∷ []) ∷ []) first first-Held.0 opened
      first-Held.1

close-Throws_example :
    let o' : Impl = no_object in
    let w' = remove_socket 0 opened in
    (close library first opened ≡ ok (0, (o', w')))
    × ((read library 4 o' w' ≡ fault)
        × ((write library (1 ∷ []) o' w' ≡ fault)
            × ((listen library 2 o' w' ≡ fault)
                × ((accept_loop_monitored library o' w' ≡ fault)
                    × ((getpeername library o' w' ≡ fault)
                        × ((close library o' w' ≡ ok (0, (o', w')))
                            × (destroy library o' w' ≡ ok w')))))))
close-Throws_example =
    close-Throws library 4 2 (1 ∷ []) first first-Held.0 opened refl first-Held.1 refl

abbrev second : Impl
second = record { fd = 1; closed = false; loop_monitored = false }

-- The peers 0xA10005 and 0xA20005.
abbrev peers : Library ℕ
peers = record {
  make = λ type. 0;
  accept = λ s. (none, s);
  bind = λ port s. (0, s);
  listen = λ backlog s. (0, s);
  recv = λ len s. ((2 ^ 32 - 3, []), s);
  send = λ buf s. (length buf, s);
  close = λ s. 0;
  target_address = λ s. s;
  err_buffer_too_small = 2 ^ 32 - 3;
  err_is_not_connected = 2 ^ 32 - 4;
}

abbrev two : World ℕ
two = record {
  sockets = put 1 (some 0xA20005) (put 0 (some 0xA10005) (λ k. none));
  last_fd = 2;
  errno = 0;
}

get_first : get_socket 0 two ≡ ok 0xA10005
unfolding get_socket
get_first = refl

get_second : get_socket 1 two ≡ ok 0xA20005
unfolding get_socket
get_second = refl
