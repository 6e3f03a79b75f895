-- ===== src/MeshTest/State.antt =====
-- The state of `MeshmeshTest` (components/meshmesh_test/meshmesh_test.h), its texts (globals.cpp),
-- and its macros (defines.h). Log output is left out.
use Prim.Native.Char.{code}
use Prim.Native.String.{String}
use esphome_meshmesh.Prelude.{ltb, ◌==◌, if◌then◌else◌, ℕ, Bool, false, List, [], ◌∷◌, ◌++◌}
use esphome_meshmesh.Mesh.{MeshAddress, sub32}

-- The enumeration of the tests.
pub data State : Type 0 where
  wait_start broadcast1 broadcast2 unicast1 unicast2 done : State

-- What the component does, newest first. A socket is opened with its buffer of 1024 bytes and deleted
-- with it; deleting where there is none has no effect but stands here too.
pub data Effect : Type 0 where
  open_socket set_callback delete_socket : Effect
  datagram : MeshAddress → List ℕ → Effect

-- What `recvDatagram` answers: an error, or the bytes it has put into the buffer, if any, and the
-- sender and the signal strength that it has stored.
pub data Received : Type 0 where
  failed : Received
  got : List ℕ → MeshAddress → ℕ → Received

-- What a pass of the loop meets: the clock at its test and at its change of state, and the answers of
-- the socket.
pub record Input : Type 0 where
  pub now : ℕ
  pub later : ℕ
  pub opens : Bool
  pub sends : Bool
  pub received : Received

-- The constructors of mesh addresses, with a port and an address.
pub record Library : Type 0 where
  pub broadcast_address : ℕ
  pub make : ℕ → ℕ → MeshAddress
  pub make_unicast : ℕ → ℕ → MeshAddress

pub record MeshmeshTest : Type 0 where
  pub index : ℕ
  pub state : State
  pub sub_state : ℕ
  pub last_time : ℕ
  pub socket : Bool
  pub buffer : Bool
  pub from : MeshAddress
  pub rssi : ℕ
  pub trace : List Effect

-- The object as constructed.
unfoldable pub fresh : MeshAddress → MeshmeshTest
fresh from = record {
  index = 0;
  state = State.wait_start;
  sub_state = 0;
  last_time = 0;
  socket = false;
  buffer = false;
  from = from;
  rssi = 0;
  trace = [];
}

abbrev pub act : Effect → MeshmeshTest → MeshmeshTest
act e s = record s { trace = e ∷ s.trace }

-- The bytes of a text.
abbrev pub codes : String → List ℕ
codes String.[] = []
codes (String.◌∷◌ c s) = code c ∷ codes s

abbrev concat_texts : List (List ℕ) → List ℕ
concat_texts [] = []
concat_texts (t ∷ ts) = t ++ concat_texts ts

unfoldable pub hello_string : List ℕ
hello_string = codes "Hello!!"

unfoldable pub reply_string : List ℕ
reply_string = codes "Hi!!"

-- 792 bytes.
unfoldable pub lore_ipsum : List ℕ
lore_ipsum = concat_texts (
    codes "Lorem ipsum dolor sit amet, consectetur adipiscing elit. Etiam ullamcorper, sem "
    ∷ codes "at elementum accumsan, ex arcu cursus purus, id feugiat magna risus et orci. "
    ∷ codes "Proin et magna sit amet nibh porttitor tempus sit amet id dui. Vivamus "
    ∷ codes "facilisis orci et justo bibendum consequat. Suspendisse diam massa, aliquet in "
    ∷ codes "arcu at, rutrum condimentum tellus. Nullam consequat lobortis libero, non "
    ∷ codes "porttitor velit tristique ut. Duis sit amet nunc sed augue ultrices imperdiet. "
    ∷ codes "Aliquam in iaculis augue. Sed in interdum risus, dapibus accumsan augue. In "
    ∷ codes "pulvinar risus id mauris euismod eleifend. Vestibulum luctus ac dolor sit amet "
    ∷ codes "mattis. Sed justo dolor, bibendum in ex eu, pulvinar tempus est. Integer quis "
    ∷ codes "gravida elit. Proin tincidunt volutpat dui, vel ullamcorper purus convallis ac. "
    ∷ codes "Nunc id nisl justo."
    ∷ [])

abbrev pub test_port : ℕ
test_port = 0x11

-- `IS_DIRECTOR`.
abbrev pub is_director : MeshmeshTest → Bool
is_director s = s.index == 0

-- `CHANGE_STATE`.
unfoldable pub change_state : State → ℕ → ℕ → MeshmeshTest → MeshmeshTest
change_state x y t s = record s { state = x; sub_state = y; last_time = t }

-- `ERR_CHECK`: an error ends the test.
unfoldable pub err_check : Bool → ℕ → MeshmeshTest → MeshmeshTest → MeshmeshTest
err_check good t s s' = if good then s' else change_state s.state 98 t s

-- `TIMEOUT_CHECK`.
unfoldable pub timeout_check : ℕ → Input → MeshmeshTest → MeshmeshTest
timeout_check limit i s =
    if ltb limit (sub32 i.now s.last_time) then change_state s.state 98 i.later s else s
