-- ===== src/Socket/Calls.antt =====
-- The member functions of `MeshMeshSocketImpl` (components/socket/meshmesh_socket_impl.cpp). A fault
-- is the exception of a missing descriptor; a buffer to read into is its length.
use esphome_meshmesh.Prelude.{
  ◌==◌, if◌then◌else◌, replicate, Result, ◌>>=◌, ok, ℕ, ◌+◌, ◌-◌, ◌*◌, ◌/◌, ◌%◌, ◌^◌, Bool, true,
  not, ◌&&◌, Option, none, some, List, [], ◌∷◌,
}
use esphome_meshmesh.Mesh.{add32}
use esphome_meshmesh.Socket.State.{
  minus_one, negative, ewouldblock, sock_stream, sock_dgram, af_inet, SocketType, SockAddr, Library,
  World, MeshMeshSocketImpl, get_socket, store, add_socket, remove_socket, make_socket_impl,
}

abbrev pub Impl : Type 0
Impl = MeshMeshSocketImpl

-- `type` as one of the mesh library's.
unfoldable pub socket_type : ℕ → Option SocketType
socket_type type =
    if type == sock_stream
    then some SocketType.mm_sock_stream
    else if type == sock_dgram
    then some SocketType.mm_sock_dgram
    else none

-- `htons` and `ntohs` of the little-endian targets.
unfoldable pub swap16 : ℕ → ℕ
swap16 n = n % 2 ^ 8 * 2 ^ 8 + n / 2 ^ 8 % 2 ^ 8

abbrev pub connect : ℕ
connect = minus_one

abbrev pub accept : Option Impl
accept = none

abbrev pub getsockname : ℕ
getsockname = minus_one

-- A `size_t`.
abbrev pub getsockname_to : ℕ
getsockname_to = minus_one

-- The option's value is filled with zeros.
unfoldable pub getsockopt : ℕ → ℕ × List ℕ
getsockopt optlen = (0, replicate optlen 0)

abbrev pub setsockopt : ℕ
setsockopt = 0

abbrev pub recvfrom : ℕ
recvfrom = minus_one

abbrev pub sendto : ℕ
sendto = minus_one

unfoldable pub setblocking : Bool → ℕ
setblocking blocking = if blocking then minus_one else 0

-- What `read` makes of the answer of `recv`.
unfoldable pub read_code : ℕ → ℕ → ℕ → ℕ
read_code too_small not_connected received =
    if negative received
    then (if received == too_small
        then minus_one
        else if received == not_connected
        then 0
        else received)
    else received

module _ {S : Type 0} (M : Library S) where
  -- The branch of a valid type.
  unfoldable pub create_socket_of : Option SocketType → Bool → World S → Option Impl × World S
  create_socket_of none monitored w = (none, w)
  create_socket_of (some type) monitored w =
      let (fd, w') = add_socket (M.make type) w in (some (make_socket_impl fd monitored), w')

  -- `mesh_there`: the mesh library has its instance.
  unfoldable pub create_socket : ℕ → Bool → Bool → World S → Option Impl × World S
  create_socket type mesh_there monitored w =
      if mesh_there then create_socket_of (socket_type type) monitored w else (none, w)

  -- The branch of a connection that waits.
  unfoldable pub accepted : Option S → World S → Option Impl × World S
  accepted none w = (none, w)
  accepted (some s) w =
      let w' = (add_socket s w).1 in (some (make_socket_impl (w'.last_fd - 1) true), w')

  unfoldable pub accept_loop_monitored : Impl → World S → Result (Option Impl × World S)
  accept_loop_monitored o w =
      get_socket o.fd w >>= λ s. ok (accepted (M.accept s).0 (store o.fd (M.accept s).1 w))

  -- A call to the socket behind the descriptor.
  abbrev pub on_socket : (S → ℕ × S) → Impl → World S → Result (ℕ × World S)
  on_socket call o w = get_socket o.fd w >>= λ s. ok ((call s).0, store o.fd (call s).1 w)

  -- A specific address is only logged.
  unfoldable pub bind : Bool → SockAddr → Impl → World S → Result (ℕ × World S)
  bind mesh_there addr o w =
      if mesh_there then on_socket (M.bind (swap16 addr.sin_port)) o w else ok (minus_one, w)

  unfoldable pub listen : ℕ → Impl → World S → Result (ℕ × World S)
  listen backlog o w = on_socket (M.listen backlog) o w

  unfoldable pub close : Impl → World S → Result (ℕ × (Impl × World S))
  close o w =
      if o.closed
      then ok (0, (o, w))
      else get_socket o.fd w >>= λ s.
          ok (M.close s, (record o { fd = minus_one; closed = true }, remove_socket o.fd w))

  unfoldable pub shutdown : ℕ → Impl → World S → Result (ℕ × (Impl × World S))
  shutdown how o w = close o w

  -- The destructor.
  unfoldable pub destroy : Impl → World S → Result (World S)
  destroy o w = if o.closed then ok w else close o w >>= λ r. ok r.1.1

  -- The answer and the address filled in.
  unfoldable pub getpeername : Impl → World S → Result (ℕ × SockAddr)
  getpeername o w = get_socket o.fd w >>= λ s. ok (
    0,
    record {
      sin_len = 16;
      sin_family = af_inet;
      sin_port = 0;
      s_addr = swap16 (M.target_address s);
    },
  )

  -- `format` is `format_sockaddr_to`. `getpeername` answers 0 or throws.
  unfoldable pub getpeername_to : (SockAddr → List ℕ) → Impl → World S → Result (List ℕ)
  getpeername_to format o w = getpeername o w >>= λ r. ok (if r.0 == 0 then format r.1 else [])

  -- `errno` after a `recv`.
  unfoldable pub read_errno : ℕ → World S → World S
  read_errno received w =
      if negative received && received == M.err_buffer_too_small
      then record w { errno = ewouldblock }
      else w

  -- The answer, and what was put into the buffer.
  unfoldable pub read : ℕ → Impl → World S → Result ((ℕ × List ℕ) × World S)
  read len o w = get_socket o.fd w >>= λ s.
      let ((received, bytes), s') = M.recv len s in
      ok (
        (read_code M.err_buffer_too_small M.err_is_not_connected received, bytes),
        read_errno received (store o.fd s' w),
      )

  -- The loop of `readv` over the lengths of the buffers that are left, `ret` read so far: the answer,
  -- and what was put into each buffer.
  unfoldable pub readv_from : ℕ → List ℕ → Impl → World S → Result ((ℕ × List (List ℕ)) × World S)
  readv_from ret [] o w = ok ((ret, []), w)
  readv_from ret (len ∷ iov) o w = read len o w >>= λ r.
      let err = r.0.0 in
      let ret' = add32 ret err in
      let rest = readv_from ret' iov o r.1 in
      if err == minus_one
      then ok ((if not (ret == 0) then ret else err, r.0.1 ∷ []), r.1)
      else if not (err == len)
      then ok ((ret', r.0.1 ∷ []), r.1)
      else rest >>= λ t. ok ((t.0.0, r.0.1 ∷ t.0.1), t.1)

  unfoldable pub readv : List ℕ → Impl → World S → Result ((ℕ × List (List ℕ)) × World S)
  readv iov o w = readv_from 0 iov o w

  unfoldable pub write : List ℕ → Impl → World S → Result (ℕ × World S)
  write buf o w = get_socket o.fd w >>= λ s.
      let (sent, s') = M.send buf s in
      ok (if negative sent then minus_one else sent, store o.fd s' w)

  -- The flags are ignored.
  unfoldable pub send : List ℕ → ℕ → Impl → World S → Result (ℕ × World S)
  send buf flags o w = get_socket o.fd w >>= λ s.
      let (sent, s') = M.send buf s in
      ok (if negative sent then minus_one else sent, store o.fd s' w)

  -- The loop of `writev` over the buffers that are left.
  unfoldable pub writev_from : ℕ → List (List ℕ) → Impl → World S → Result (ℕ × World S)
  writev_from written [] o w = ok (written, w)
  writev_from written (buf ∷ iov) o w =
      write buf o w >>= λ r. writev_from (add32 written r.0) iov o r.1

  unfoldable pub writev : List (List ℕ) → Impl → World S → Result (ℕ × World S)
  writev iov o w = writev_from 0 iov o w
