-- ===== src/Socket/Peers.antt =====
-- The peer's name (components/socket/meshmesh_socket_impl.cpp).
use esphome_meshmesh.Prelude.{ok, ℕ, ◌%◌, ◌^◌, ◌≡◌, refl, arith}
use esphome_meshmesh.Socket.State.{Library, World, get_socket}
use esphome_meshmesh.Socket.Calls.{Impl, swap16, getpeername}

swap16-low : (a b : ℕ) → a % 2 ^ 16 ≡ b % 2 ^ 16 → swap16 a ≡ swap16 b
unfolding swap16
swap16-low a b e = omega arith

-- Two sockets in the table whose peers' addresses have the same lower 16 bits give their peers the
-- same name.
pub getpeername-low :
    {S : Type 0} (M : Library S) (o p : Impl) (s t : S) (w : World S)
    → get_socket o.fd w ≡ ok s
    → get_socket p.fd w ≡ ok t
    → M.target_address s % 2 ^ 16 ≡ M.target_address t % 2 ^ 16
    → getpeername M o w ≡ getpeername M p w
unfolding getpeername
getpeername-low M o p s t w e f h =
    rw (e, f, swap16-low (M.target_address s) (M.target_address t) h) refl
