-- ===== src/Socket/Steps.antt =====
-- One call through the table, and the same call in the view of the owners
-- (components/socket/meshmesh_socket_impl.cpp).
use esphome_meshmesh.Prelude.{
  ok, ℕ, ◌+◌, ◌-◌, ◌≤◌, ◌<◌, ◌≡◌, refl, Bool, true, false, Option, none, some, arith,
}
use esphome_meshmesh.Socket.State.{
  SocketType, Library, World, put, store, add_socket, make_socket_impl,
}
use esphome_meshmesh.Socket.Calls.{
  socket_type, create_socket_of, create_socket, accepted, accept_loop_monitored,
}
use esphome_meshmesh.Socket.Owners.{
  Call, System, Owners, joined, entered, made, creates, step, own_step,
}
use esphome_meshmesh.Socket.Storing.{
  IsValid, Shows, get_socket_lem, open_lem, stored-IsValid, stored-Shows,
}
use esphome_meshmesh.Socket.Joining.{with_socket-IsValid, with_socket-Shows}
use esphome_meshmesh.Socket.Owned.{
  Agree, Agree-mono, by_found, bind-Agree, close-Agree, listen-Agree, read-Agree, write-Agree,
}

module _ {S : Type 0} (M : Library S) (σ : System S) (a : Owners S) (v : IsValid σ) (h : Shows σ a)
    (more : σ.world.last_fd < 65535) where
  abbrev bound : ℕ
  bound = σ.world.last_fd + 1

  joined-Agree :
      (s : S)
      → Agree bound
          (ok (joined (some (make_socket_impl σ.world.last_fd true), (add_socket s σ.world).1) σ))
          (ok (entered (some s) a))
  unfolding make_socket_impl add_socket
  joined-Agree s =
      (refl, (omega arith, (with_socket-IsValid σ a v h s more, with_socket-Shows σ a v h s more)))

  create_socket_of-Agree :
      (type : Option SocketType)
      → Agree bound
          (ok (joined (create_socket_of M type false σ.world) σ))
          (ok (entered (made M type) a))
  unfolding create_socket_of make_socket_impl add_socket
  create_socket_of-Agree none = (refl, (omega (arith, more), (v, h)))
  create_socket_of-Agree (some type) = joined-Agree (M.make type)

  create-Agree :
      (type : ℕ) (mesh_there : Bool)
      → Agree bound
          (step M (Call.create_call type mesh_there) σ)
          (own_step M (Call.create_call type mesh_there) a)
  unfolding create_socket
  create-Agree type false = (refl, (omega (arith, more), (v, h)))
  create-Agree type true = create_socket_of-Agree (socket_type type)

module _ {S : Type 0} (M : Library S) where
  accepted-Agree :
      (n : Option S) (w : World S) (σ : System S) (a : Owners S)
      → IsValid (record σ { world = w })
      → Shows (record σ { world = w }) a
      → w.last_fd < 65535
      → Agree (w.last_fd + 1) (ok (joined (accepted M n w) σ)) (ok (entered n a))
  unfolding accepted add_socket
  accepted-Agree none w σ a v h more = (refl, (omega (arith, more), (v, h)))
  accepted-Agree (some s) w σ a v h more =
      let e : w.last_fd + 1 - 1 ≡ w.last_fd = omega arith in
      rw e (joined-Agree M (record σ { world = w }) a v h more s)

  accept-Agree :
      (i : ℕ) (σ : System S) (a : Owners S)
      → IsValid σ
      → Shows σ a
      → σ.world.last_fd < 65535
      → Agree
          (σ.world.last_fd + 1)
          (step M (Call.accept_call i) σ)
          (own_step M (Call.accept_call i) a)
  unfolding accept_loop_monitored store
  accept-Agree i σ a v h more =
      by_found (σ.world.last_fd + 1) _ (a.own i) (get_socket_lem σ a v h i) _ _ _ (λ s e.
        let c = open_lem σ a v h i s e in
        let s' = (M.accept s).1 in
        accepted-Agree (M.accept s).0 (store (σ.object i).fd s' σ.world) σ
          (record a { own = put i (some s') a.own }) (stored-IsValid σ a v h i s' c)
          (stored-Shows σ a v h i s' c) more)

  pub step-Agree :
      (c : Call) (σ : System S) (a : Owners S)
      → IsValid σ
      → Shows σ a
      → σ.world.last_fd + creates c ≤ 65535
      → Agree (σ.world.last_fd + creates c) (step M c σ) (own_step M c a)
  step-Agree (Call.create_call type mesh_there) σ a v h m =
      create-Agree M σ a v h (omega (arith, m)) type mesh_there
  step-Agree (Call.accept_call i) σ a v h m = accept-Agree i σ a v h (omega (arith, m))
  step-Agree (Call.close_call i) σ a v h m =
      Agree-mono σ.world.last_fd _ _ _ (omega arith) (close-Agree M σ a v h i)
  step-Agree (Call.bind_call i mesh_there addr) σ a v h m =
      Agree-mono σ.world.last_fd _ _ _ (omega arith) (bind-Agree M σ a v h i mesh_there addr)
  step-Agree (Call.listen_call i backlog) σ a v h m =
      Agree-mono σ.world.last_fd _ _ _ (omega arith) (listen-Agree M σ a v h i backlog)
  step-Agree (Call.read_call i len) σ a v h m =
      Agree-mono σ.world.last_fd _ _ _ (omega arith) (read-Agree M σ a v h i len)
  step-Agree (Call.write_call i buf) σ a v h m =
      Agree-mono σ.world.last_fd _ _ _ (omega arith) (write-Agree M σ a v h i buf)
