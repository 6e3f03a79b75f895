-- ===== src/Socket/State.antt =====
-- The table of mesh sockets and the objects that refer to it by a descriptor
-- (components/socket/meshmesh_socket_impl.h). An `int` is a word of 32 bits.
use esphome_meshmesh.Prelude.{
  leb, ◌==◌, if◌then◌else◌, Result, ok, fault, ℕ, ◌+◌, ◌-◌, ◌%◌, ◌^◌, Bool, false, Option, none,
  some, List,
}

abbrev pub minus_one : ℕ
minus_one = 2 ^ 32 - 1

-- The sign of an `int`.
abbrev pub negative : ℕ → Bool
negative n = leb (2 ^ 31) n

abbrev pub ewouldblock : ℕ
ewouldblock = 11

abbrev pub sock_stream : ℕ
sock_stream = 1

abbrev pub sock_dgram : ℕ
sock_dgram = 2

abbrev pub af_inet : ℕ
af_inet = 2

-- `MeshSocket::SocketType`.
pub data SocketType : Type 0 where
  mm_sock_stream mm_sock_dgram : SocketType

-- `struct sockaddr_in` without its padding.
pub record SockAddr : Type 0 where
  pub sin_len : ℕ
  pub sin_family : ℕ
  pub sin_port : ℕ
  pub s_addr : ℕ

-- `MeshSocket`, a class of the mesh library: its constructor, and its member functions, each with
-- the `int` that it answers and the socket after the call. `recv` also gives what it has put into
-- the buffer.
pub record Library (S : Type 0) : Type 0 where
  pub make : SocketType → S
  pub accept : S → Option S × S
  pub bind : ℕ → S → ℕ × S
  pub listen : ℕ → S → ℕ × S
  pub recv : ℕ → S → (ℕ × List ℕ) × S
  pub send : List ℕ → S → ℕ × S
  pub close : S → ℕ
  pub target_address : S → ℕ
  pub err_buffer_too_small : ℕ
  pub err_is_not_connected : ℕ

-- The static members, and `errno`. The table is a `std::map` from 16-bit keys.
pub record World (S : Type 0) : Type 0 where
  pub sockets : ℕ → Option S
  pub last_fd : ℕ
  pub errno : ℕ

pub record MeshMeshSocketImpl : Type 0 where
  pub fd : ℕ
  pub closed : Bool
  pub loop_monitored : Bool

abbrev pub put {ℓ} : {A : Type ℓ} → ℕ → A → (ℕ → A) → ℕ → A
put k a f = λ j. if j == k then a else f j

-- A descriptor as a key of the table.
abbrev pub key : ℕ → ℕ
key fd = fd % 2 ^ 16

-- `sockets_.at(fd)`, which throws where there is no such key.
abbrev pub found {ℓ} : {A : Type ℓ} → Option A → Result A
found none = fault
found (some a) = ok a

unfoldable pub get_socket : {S : Type 0} → ℕ → World S → Result S
get_socket fd w = found (w.sockets (key fd))

-- The object behind the pointer changes in place.
unfoldable pub store : {S : Type 0} → ℕ → S → World S → World S
store fd s w = record w { sockets = put (key fd) (some s) w.sockets }

-- The counter is an `int` and a key its last 16 bits.
unfoldable pub add_socket : {S : Type 0} → S → World S → ℕ × World S
add_socket s w = (
  w.last_fd,
  record w { sockets = put (key w.last_fd) (some s) w.sockets; last_fd = w.last_fd + 1 },
)

unfoldable pub remove_socket : {S : Type 0} → ℕ → World S → World S
remove_socket fd w = record w { sockets = put (key fd) none w.sockets }

-- The constructor. Monitoring is not there yet.
unfoldable pub make_socket_impl : ℕ → Bool → MeshMeshSocketImpl
make_socket_impl fd monitor_loop = record { fd = fd; closed = false; loop_monitored = false }
