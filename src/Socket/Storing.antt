-- ===== src/Socket/Storing.antt =====
-- The table and the objects fit together (components/socket/meshmesh_socket_impl.cpp), as long as
-- fewer than 65536 sockets have been made.
use esphome_meshmesh.Prelude.{
  ◌==◌, if◌then◌else◌, Bool-cases, ℕ, ◌≤◌, ◌<◌, ◌≡◌, refl, sym, ap, ◌∙◌, ◌≢◌, ◌⊎◌, inl, inr, true,
  false, Option, none, some, arith,
}
use esphome_meshmesh.Socket.State.{minus_one, put, key, found, get_socket, store}
use esphome_meshmesh.Socket.Owners.{System, Owners}

-- The socket that an object refers to.
abbrev pub view : {S : Type 0} → System S → ℕ → Option S
view σ i = if (σ.object i).closed then none else σ.world.sockets (key (σ.object i).fd)

pub record IsValid {S : Type 0} (σ : System S) : Type 0 where
  pub room : σ.world.last_fd ≤ 65535
  pub unused : (k : ℕ) → σ.world.last_fd ≤ k → σ.world.sockets k ≡ none
  pub closed_fd : (i : ℕ) → (σ.object i).closed ≡ true → (σ.object i).fd ≡ minus_one
  pub open_fd : (i : ℕ) → (σ.object i).closed ≡ false → (σ.object i).fd < σ.world.last_fd
  pub held :
      (i : ℕ) → (σ.object i).closed ≡ false → (s : S) × (σ.world.sockets (σ.object i).fd ≡ some s)
  pub distinct :
      (i j : ℕ)
      → (σ.object i).closed ≡ false
      → (σ.object j).closed ≡ false
      → (σ.object i).fd ≡ (σ.object j).fd
      → i ≡ j
  pub fresh : (i : ℕ) → σ.count ≤ i → (σ.object i).closed ≡ true

pub record Shows {S : Type 0} (σ : System S) (a : Owners S) : Type 0 where
  pub counts : σ.count ≡ a.count
  pub views : (i : ℕ) → view σ i ≡ a.own i

pub key_small : (n : ℕ) → n < 65536 → key n ≡ n
key_small n h = omega arith

module _ {S : Type 0} (σ : System S) (a : Owners S) (v : IsValid σ) (h : Shows σ a) where
  pub key_open : (i : ℕ) → (σ.object i).closed ≡ false → key (σ.object i).fd ≡ (σ.object i).fd
  key_open i c = key_small _ (omega (arith, v.open_fd i c, v.room))

  pub own_closed : (i : ℕ) → (σ.object i).closed ≡ true → a.own i ≡ none
  own_closed i c = sym (h.views i) ∙ rw c refl

  pub own_open :
      (i : ℕ) → (σ.object i).closed ≡ false → a.own i ≡ σ.world.sockets (key (σ.object i).fd)
  own_open i c = sym (h.views i) ∙ rw c refl

  -- The table gives what the object owns, and throws for a closed one.
  pub get_socket_lem : (i : ℕ) → get_socket (σ.object i).fd σ.world ≡ found (a.own i)
  unfolding get_socket
  get_socket_lem i = elim (Bool-cases (σ.object i).closed) [
    | inl c ↦
        let none_there : σ.world.sockets (key minus_one) ≡ none =
          v.unused _ (omega (arith, v.room)) in
        ap (λ k. found (σ.world.sockets (key k))) (v.closed_fd i c)
        ∙ ap found (none_there ∙ sym (own_closed i c))
    | inr c ↦ ap found (sym (own_open i c))
  ]

  pub open_lem : (i : ℕ) (s : S) → a.own i ≡ some s → (σ.object i).closed ≡ false
  open_lem i s e = elim (Bool-cases (σ.object i).closed) [
    | inl c ↦ let no : none ≡ some s = sym (own_closed i c) ∙ e in cc
    | inr c ↦ c
  ]

pub put_same : {A : Type 0} (k : ℕ) (x : A) (f : ℕ → A) → put k x f k ≡ x
put_same k x f = let e : (k == k) ≡ true = ground arith in rw e refl

pub put_other : {A : Type 0} (k j : ℕ) (x : A) (f : ℕ → A) → j ≢ k → put k x f j ≡ f j
put_other k j x f n = let e : (j == k) ≡ false = ground arith in rw e refl

pub same_or : (j i : ℕ) → (j ≡ i) ⊎ (j ≢ i)
same_or j i = elim (Bool-cases (j == i)) [
  | inl e ↦ inl (ground arith)
  | inr e ↦ inr (λ q. ground arith)
]

-- What a call leaves that changes the socket of one open object.
module _ {S : Type 0} (σ : System S) (a : Owners S) (v : IsValid σ) (h : Shows σ a) (i : ℕ) (s : S)
    (open' : (σ.object i).closed ≡ false) where
  abbrev pub stored : System S
  stored = record σ { world = store (σ.object i).fd s σ.world }

  abbrev pub owned : Owners S
  owned = record a { own = put i (some s) a.own }

  small_key : key (σ.object i).fd ≡ (σ.object i).fd
  small_key = key_open σ a v h i open'

  abbrev table : ℕ → Option S
  table = put (key (σ.object i).fd) (some s) σ.world.sockets

  pub stored-IsValid : IsValid stored
  unfolding store
  stored-IsValid = record {
    room = v.room;
    unused = λ n l.
        put_other (key (σ.object i).fd) n (some s) σ.world.sockets
          (λ q. omega (arith, q, small_key, v.open_fd i open', l))
        ∙ v.unused n l;
    closed_fd = v.closed_fd;
    open_fd = v.open_fd;
    held = λ j c. elim (same_or (σ.object j).fd (key (σ.object i).fd)) [
      | inl q ↦ (s, ap table q ∙ put_same (key (σ.object i).fd) (some s) σ.world.sockets)
      | inr n ↦ (
        (v.held j c).0,
        put_other (key (σ.object i).fd) _ (some s) σ.world.sockets n ∙ (v.held j c).1,
      )
    ];
    distinct = v.distinct;
    fresh = v.fresh;
  }

  view_here : view stored i ≡ some s
  unfolding store
  view_here = rw open' (put_same (key (σ.object i).fd) (some s) σ.world.sockets)

  view_there : (j : ℕ) → j ≢ i → view stored j ≡ a.own j
  unfolding store
  view_there j n = elim (Bool-cases (σ.object j).closed) [
    | inl c ↦ rw c (sym (own_closed σ a v h j c))
    | inr c ↦
        let kj = key_open σ a v h j c in
        let far : key (σ.object j).fd ≢ key (σ.object i).fd =
          λ q. n (v.distinct j i c open' (sym kj ∙ q ∙ small_key)) in
        rw c (
          put_other (key (σ.object i).fd) _ (some s) σ.world.sockets far
          ∙ sym (own_open σ a v h j c))
  ]

  pub stored-Shows : Shows stored owned
  unfolding store
  stored-Shows = record {
    counts = h.counts;
    views = λ j. elim (same_or j i) [
      | inl q ↦
          ap (view stored) q
          ∙ view_here
          ∙ sym (put_same i (some s) a.own)
          ∙ sym (ap (put i (some s) a.own) q)
      | inr n ↦ view_there j n ∙ sym (put_other i j (some s) a.own n)
    ];
  }
