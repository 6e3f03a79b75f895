-- ===== src/Socket/Joining.antt =====
-- What a new socket adds to the table and the objects (components/socket/meshmesh_socket_impl.cpp).
use esphome_meshmesh.Prelude.{
  if◌then◌else◌, Bool-cases, ℕ, suc, ◌<◌, ◌≡◌, sym, ap, ◌∙◌, ◌≢◌, inl, inr, true, false, Option,
  none, some, arith,
}
use esphome_meshmesh.Socket.State.{put, key, add_socket}
use esphome_meshmesh.Socket.Calls.{Impl}
use esphome_meshmesh.Socket.Owners.{System, Owners}
use esphome_meshmesh.Socket.Storing.{
  view, IsValid, Shows, key_small, key_open, own_closed, own_open, put_same, put_other, same_or,
}

module _ {S : Type 0} (σ : System S) (a : Owners S) (v : IsValid σ) (h : Shows σ a) (s : S)
    (more : σ.world.last_fd < 65535) where
  abbrev new_object : Impl
  new_object = record { fd = σ.world.last_fd; closed = false; loop_monitored = false }

  abbrev pub with_socket : System S
  with_socket = record {
    count = suc σ.count;
    object = put σ.count new_object σ.object;
    world = (add_socket s σ.world).1;
  }

  abbrev pub with_owner : Owners S
  with_owner = record { count = suc a.count; own = put a.count (some s) a.own }

  small_key : key σ.world.last_fd ≡ σ.world.last_fd
  small_key = key_small _ (omega arith)

  object_here : with_socket.object σ.count ≡ new_object
  object_here = put_same σ.count new_object σ.object

  object_there : (j : ℕ) → j ≢ σ.count → with_socket.object j ≡ σ.object j
  object_there j n = put_other σ.count j new_object σ.object n

  table_there : (n : ℕ) → n ≢ σ.world.last_fd → with_socket.world.sockets n ≡ σ.world.sockets n
  unfolding add_socket
  table_there n q =
      put_other (key σ.world.last_fd) n (some s) σ.world.sockets (λ e. q (e ∙ small_key))

  table_here : with_socket.world.sockets σ.world.last_fd ≡ some s
  unfolding add_socket
  table_here =
      ap with_socket.world.sockets (sym small_key)
      ∙ put_same (key σ.world.last_fd) (some s) σ.world.sockets

  was : (j : ℕ) → j ≢ σ.count → (with_socket.object j).closed ≡ false → (σ.object j).closed ≡ false
  was j n c = sym (ap (λ o. o.closed) (object_there j n)) ∙ c

  fd_there : (j : ℕ) → j ≢ σ.count → (with_socket.object j).fd ≡ (σ.object j).fd
  fd_there j n = ap (λ o. o.fd) (object_there j n)

  fd_here : (j : ℕ) → j ≡ σ.count → (with_socket.object j).fd ≡ σ.world.last_fd
  fd_here j q = ap (λ o. o.fd) (ap with_socket.object q ∙ object_here)

  closed_here : (j : ℕ) → j ≡ σ.count → (with_socket.object j).closed ≡ false
  closed_here j q = ap (λ o. o.closed) (ap with_socket.object q ∙ object_here)

  -- An older descriptor is smaller than the new one.
  older :
      (j : ℕ)
      → j ≢ σ.count
      → (with_socket.object j).closed ≡ false
      → (with_socket.object j).fd < σ.world.last_fd
  older j n c = omega (arith, fd_there j n, v.open_fd j (was j n c))

  pub with_socket-IsValid : IsValid with_socket
  unfolding add_socket
  with_socket-IsValid = record {
    room = omega arith;
    unused = λ n l. table_there n (λ q. omega (arith, q, l)) ∙ v.unused n (omega (arith, l));
    closed_fd = λ j c. elim (same_or j σ.count) [
      | inl q ↦ let no : true ≡ false = sym c ∙ closed_here j q in cc
      | inr n ↦ fd_there j n ∙ v.closed_fd j (sym (ap (λ o. o.closed) (object_there j n)) ∙ c)
    ];
    open_fd = λ j c. elim (same_or j σ.count) [
      | inl q ↦ omega (arith, fd_here j q)
      | inr n ↦ omega (arith, older j n c)
    ];
    held = λ j c. elim (same_or j σ.count) [
      | inl q ↦ (s, ap with_socket.world.sockets (fd_here j q) ∙ table_here)
      | inr n ↦
          let x = v.held j (was j n c) in
          (
            x.0,
            ap with_socket.world.sockets (fd_there j n)
                ∙ table_there _ (λ e. omega (arith, e, v.open_fd j (was j n c)))
                ∙ x.1,
          )
    ];
    distinct = λ j l c d e. elim (same_or j σ.count) [
      | inl q ↦ elim (same_or l σ.count) [
        | inl r ↦ q ∙ sym r
        | inr r ↦ absurd (omega (arith, fd_here j q, older l r d, e))
      ]
      | inr n ↦ elim (same_or l σ.count) [
        | inl r ↦ absurd (omega (arith, fd_here l r, older j n c, e))
        | inr r ↦ v.distinct j l (was j n c) (was l r d) (sym (fd_there j n) ∙ e ∙ fd_there l r)
      ]
    ];
    fresh = λ j l.
        ap (λ o. o.closed) (object_there j (λ q. omega (arith, q, l)))
        ∙ v.fresh j (omega (arith, l));
  }

  abbrev seen : (ℕ → Option S) → Impl → Option S
  seen table o = if o.closed then none else table (key o.fd)

  view_here : view with_socket σ.count ≡ some s
  view_here =
      ap (seen with_socket.world.sockets) object_here
      ∙ ap with_socket.world.sockets small_key
      ∙ table_here

  view_there : (j : ℕ) → j ≢ σ.count → view with_socket j ≡ a.own j
  view_there j n =
      ap (seen with_socket.world.sockets) (object_there j n)
      ∙ elim (Bool-cases (σ.object j).closed) [
        | inl c ↦ rw c (sym (own_closed σ a v h j c))
        | inr c ↦
            let kj = key_open σ a v h j c in
            rw c (
              table_there _ (λ q. omega (arith, q, kj, v.open_fd j c)) ∙ sym (own_open σ a v h j c))
      ]

  pub with_socket-Shows : Shows with_socket with_owner
  with_socket-Shows = record {
    counts = ap suc h.counts;
    views = λ j. elim (same_or j σ.count) [
      | inl q ↦
          ap (view with_socket) q
          ∙ view_here
          ∙ sym (ap with_owner.own (q ∙ h.counts) ∙ put_same a.count (some s) a.own)
      | inr n ↦
          view_there j n ∙ sym (put_other a.count j (some s) a.own (λ q. n (q ∙ sym h.counts)))
    ];
  }
