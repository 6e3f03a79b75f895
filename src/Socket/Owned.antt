-- ===== src/Socket/Owned.antt =====
-- A call to one socket through the table, and in the view of the owners
-- (components/socket/meshmesh_socket_impl.cpp).
use esphome_meshmesh.Prelude.{
  ◌==◌, Bool-cases, Result, ◌>>=◌, ok, fault, ℕ, ◌≤◌, ◌≡◌, refl, sym, ap, ◌∙◌, subst, inl, inr,
  Bool, true, false, ◌&&◌, Option, none, some, List, [], arith,
}
use esphome_meshmesh.Socket.State.{
  minus_one, negative, ewouldblock, SockAddr, Library, World, put, found, get_socket, store,
  remove_socket,
}
use esphome_meshmesh.Socket.Calls.{
  Impl, swap16, on_socket, bind, listen, close, read_errno, read, write,
}
use esphome_meshmesh.Socket.Owners.{Call, System, Owners, Answer, step, own_call, own_step}
use esphome_meshmesh.Socket.Storing.{
  IsValid, Shows, key_open, own_closed, own_open, get_socket_lem, open_lem, put_same, put_other,
  same_or, stored-IsValid, stored-Shows,
}
use esphome_meshmesh.Socket.Closing.{without-IsValid, without-Shows}

-- Both fail, or both answer the same and leave states that fit, with a counter of at most `n`.
abbrev pub Agree : {A S : Type 0} → ℕ → Result (A × System S) → Result (A × Owners S) → Type 0
Agree n fault fault = Unit {0}
Agree n (ok (x, σ)) (ok (y, a)) = (x ≡ y) × ((σ.world.last_fd ≤ n) × (IsValid σ × Shows σ a))
Agree n fault (ok y) = ⊥
Agree n (ok x) fault = ⊥

pub Agree-mono :
    {A S : Type 0} (n m : ℕ) (r : Result (A × System S)) (t : Result (A × Owners S))
    → n ≤ m
    → Agree n r t
    → Agree m r t
Agree-mono n m fault fault l e = tt
Agree-mono n m (ok (x, σ)) (ok (y, a)) l (e, (k, q)) = (e, (omega arith, q))
Agree-mono n m fault (ok y) l e = absurd e
Agree-mono n m (ok x) fault l e = absurd e

pub by_found :
    {A B S : Type 0} (n : ℕ) (r : Result S) (o : Option S)
    → r ≡ found o
    → (f : S → Result B) (h : B → Result (A × System S)) (g : S → Result (A × Owners S))
    → ((s : S) → o ≡ some s → Agree n (f s >>= h) (g s))
    → Agree n ((r >>= f) >>= h) (found o >>= g)
by_found n r none e f h g k = subst (λ z. Agree n ((z >>= f) >>= h) fault) (sym e) tt
by_found n r (some s) e f h g k = subst (λ z. Agree n ((z >>= f) >>= h) (g s)) (sym e) (k s refl)

put_self : {A : Type 0} (i : ℕ) (f : ℕ → A) → put i (f i) f ≡ f
put_self i f =
    let here = λ (j : ℕ). elim (same_or j i) as (λ _. put i (f i) f j ≡ f j) [
      | inl q ↦ ap (put i (f i) f) q ∙ put_same i (f i) f ∙ sym (ap f q)
      | inr n ↦ put_other i j (f i) f n
    ] in
    λ t j. here j t

-- `errno` has no part in what fits.
errno-Agree :
    {A S : Type 0} (n k : ℕ) (x y : A) (σ : System S) (a : Owners S)
    → Agree n (ok (x, σ)) (ok (y, a))
    → Agree n (ok (x, record σ { world = record σ.world { errno = k } })) (ok (y, a))
errno-Agree n k x y σ a (e, (l, (v, h))) = (
  e,
  (
    l,
    (
      record {
        room = v.room;
        unused = v.unused;
        closed_fd = v.closed_fd;
        open_fd = v.open_fd;
        held = v.held;
        distinct = v.distinct;
        fresh = v.fresh;
      },
      record { counts = h.counts; views = h.views },
    ),
  ),
)

module _ {S : Type 0} (M : Library S) (σ : System S) (a : Owners S) (v : IsValid σ)
    (h : Shows σ a) where
  abbrev bound : ℕ
  bound = σ.world.last_fd

  -- The state after a call that changes the object's own socket and nothing else.
  stored-Agree :
      (i : ℕ) (s s' : S) (x : Answer)
      → a.own i ≡ some s
      → Agree bound
          (ok (x, record σ { world = store (σ.object i).fd s' σ.world }))
          (ok (x, record a { own = put i (some s') a.own }))
  unfolding store
  stored-Agree i s s' x e =
      let c = open_lem σ a v h i s e in
      (refl, (omega arith, (stored-IsValid σ a v h i s' c, stored-Shows σ a v h i s' c)))

  on_socket-Agree :
      (call : S → ℕ × S) (i : ℕ)
      → Agree bound
          (on_socket M call (σ.object i) σ.world >>= λ r. ok ((r.0, []), record σ { world = r.1 }))
          (own_call M (λ s. (((call s).0, []), (call s).1)) i a)
  on_socket-Agree call i =
      by_found bound _ (a.own i) (get_socket_lem σ a v h i) _ _ _
        (λ s e. stored-Agree i s (call s).1 ((call s).0, []) e)

  pub bind-Agree :
      (i : ℕ) (mesh_there : Bool) (addr : SockAddr)
      → Agree bound
          (step M (Call.bind_call i mesh_there addr) σ)
          (own_step M (Call.bind_call i mesh_there addr) a)
  unfolding bind
  bind-Agree i true addr = on_socket-Agree (M.bind (swap16 addr.sin_port)) i
  bind-Agree i false addr = (refl, (omega arith, (v, h)))

  owner_lem : (i : ℕ) → (σ.object i).closed ≡ false → (s : S) × (a.own i ≡ some s)
  owner_lem i c =
      let x = v.held i c in
      (x.0, own_open σ a v h i c ∙ ap σ.world.sockets (key_open σ a v h i c) ∙ x.1)

  close_closed : (o : Impl) (w : World S) → o.closed ≡ true → close M o w ≡ ok (0, (o, w))
  unfolding close
  close_closed o w c = rw c refl

  close_open :
      (o : Impl) (w : World S) (s : S)
      → o.closed ≡ false
      → get_socket o.fd w ≡ ok s
      → close M o w
        ≡ ok (M.close s, (record o { fd = minus_one; closed = true }, remove_socket o.fd w))
  unfolding close
  close_open o w s c e = rw (c, e) refl

  pub close-Agree :
      (i : ℕ) → Agree bound (step M (Call.close_call i) σ) (own_step M (Call.close_call i) a)
  unfolding remove_socket
  close-Agree i = elim (Bool-cases (σ.object i).closed) [
    | inl c ↦
        let self = put_self i σ.object in
        let same = λ (f : ℕ → Impl). record σ { object = f } in
        rw (close_closed (σ.object i) σ.world c, own_closed σ a v h i c)
          (
            refl,
            (
              omega arith,
              (
                subst (λ f. IsValid (same f)) (sym self) v,
                subst (λ f. Shows (same f) a) (sym self) h,
              ),
            ),
          )
    | inr c ↦
        let (s, e) = owner_lem i c in
        let got = get_socket_lem σ a v h i ∙ ap found e in
        rw (close_open (σ.object i) σ.world s c got, e)
          (refl, (omega arith, (without-IsValid σ a v h i c, without-Shows σ a v h i c)))
  ]

  pub listen-Agree :
      (i backlog : ℕ)
      → Agree bound
          (step M (Call.listen_call i backlog) σ)
          (own_step M (Call.listen_call i backlog) a)
  unfolding listen
  listen-Agree i backlog = on_socket-Agree (M.listen backlog) i

  read_errno-Agree :
      (i : ℕ) (s s' : S) (received : ℕ) (x : Answer)
      → a.own i ≡ some s
      → Agree bound
          (ok (x, record σ { world = read_errno M received (store (σ.object i).fd s' σ.world) }))
          (ok (x, record a { own = put i (some s') a.own }))
  unfolding read_errno
  read_errno-Agree i s s' received x e =
      let kept = stored-Agree i s s' x e in
      let σ' : System S = record σ { world = store (σ.object i).fd s' σ.world } in
      let a' : Owners S = record a { own = put i (some s') a.own } in
      elim (Bool-cases (negative received && received == M.err_buffer_too_small)) [
        | inl b ↦ rw b (errno-Agree bound ewouldblock x x σ' a' kept)
        | inr b ↦ rw b kept
      ]

  pub read-Agree :
      (i len : ℕ)
      → Agree bound (step M (Call.read_call i len) σ) (own_step M (Call.read_call i len) a)
  unfolding read
  read-Agree i len =
      by_found bound _ (a.own i) (get_socket_lem σ a v h i) _ _ _
        (λ s e. read_errno-Agree i s (M.recv len s).1 (M.recv len s).0.0 _ e)

  pub write-Agree :
      (i : ℕ) (buf : List ℕ)
      → Agree bound (step M (Call.write_call i buf) σ) (own_step M (Call.write_call i buf) a)
  unfolding write
  write-Agree i buf =
      by_found bound _ (a.own i) (get_socket_lem σ a v h i) _ _ _
        (λ s e. stored-Agree i s (M.send buf s).1 _ e)
