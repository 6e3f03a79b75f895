-- ===== src/Socket/Refines.antt =====
-- The table of descriptors is an implementation of ownership, over any sequence of calls
-- (components/socket/meshmesh_socket_impl.cpp).
use esphome_meshmesh.Prelude.{
  Result, ◌>>=◌, ok, fault, ℕ, ◌+◌, ◌≤◌, ◌≡◌, refl, List, [], ◌∷◌, arith,
}
use esphome_meshmesh.Socket.State.{Library}
use esphome_meshmesh.Socket.Owners.{
  Call, System, Owners, Answer, creates, creations, step, own_step, run, own_run,
}
use esphome_meshmesh.Socket.Storing.{IsValid, Shows}
use esphome_meshmesh.Socket.Owned.{Agree, Agree-mono}
use esphome_meshmesh.Socket.Steps.{step-Agree}

module _ {S : Type 0} (M : Library S) where
  run_bind :
      (cs : List Call) (n m : ℕ) (r : Result (Answer × System S)) (t : Result (Answer × Owners S))
      → Agree n r t
      → ((σ : System S) (a : Owners S)
          → IsValid σ
          → Shows σ a
          → σ.world.last_fd ≤ n
          → Agree m (run M cs σ) (own_run M cs a))
      → Agree m
          (r >>= λ x. run M cs x.1 >>= λ z. ok (x.0 ∷ z.0, z.1))
          (t >>= λ x. own_run M cs x.1 >>= λ z. ok (x.0 ∷ z.0, z.1))
  run_bind cs n m fault fault e k = tt
  run_bind cs n m (ok (x, σ)) (ok (y, a)) (e, (l, (v, h))) k =
      answered x y e (run M cs σ) (own_run M cs a) (k σ a v h l)
    where
      answered :
          (x y : Answer)
          → x ≡ y
          → (r : Result (List Answer × System S)) (t : Result (List Answer × Owners S))
          → Agree m r t
          → Agree m (r >>= λ z. ok (x ∷ z.0, z.1)) (t >>= λ z. ok (y ∷ z.0, z.1))
      answered x y e fault fault q = tt
      answered x y e (ok (xs, σ)) (ok (ys, a)) (q, l) = (λ i. e i ∷ q i, l)
      answered x y e fault (ok z) q = absurd q
      answered x y e (ok z) fault q = absurd q
  run_bind cs n m fault (ok y) e k = absurd e
  run_bind cs n m (ok x) fault e k = absurd e

  -- If the table and the objects fit together and show the owners, then any sequence of calls, in
  -- which the counter of descriptors and the calls that create or accept come to at most 65535, answers as if each object owned its socket;
  -- a call on a closed object, other than to close it or to bind it without the mesh library, fails in
  -- both. Afterwards the table and the objects fit together and show the owners.
  pub run-Agree :
      (cs : List Call) (σ : System S) (a : Owners S)
      → IsValid σ
      → Shows σ a
      → σ.world.last_fd + creations cs ≤ 65535
      → Agree (σ.world.last_fd + creations cs) (run M cs σ) (own_run M cs a)
  run-Agree [] σ a v h m = (refl, (omega arith, (v, h)))
  run-Agree (c ∷ cs) σ a v h m =
      run_bind cs (σ.world.last_fd + creates c) (σ.world.last_fd + creations (c ∷ cs)) (step M c σ)
        (own_step M c a) (step-Agree M c σ a v h (omega arith))
        (λ τ b w k l.
          Agree-mono (τ.world.last_fd + creations cs) (σ.world.last_fd + creations (c ∷ cs))
            (run M cs τ) (own_run M cs b) (omega (arith, l))
            (run-Agree cs τ b w k (omega (arith, l, m))))
