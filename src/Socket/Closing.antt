-- ===== src/Socket/Closing.antt =====
-- What `close` leaves of the table and the objects (components/socket/meshmesh_socket_impl.cpp).
use esphome_meshmesh.Prelude.{
  if◌then◌else◌, Bool-cases, ℕ, ◌≡◌, sym, ap, ◌∙◌, ◌≢◌, inl, inr, true, false, Option, none, arith,
}
use esphome_meshmesh.Socket.State.{minus_one, put, key, remove_socket}
use esphome_meshmesh.Socket.Calls.{Impl}
use esphome_meshmesh.Socket.Owners.{System, Owners}
use esphome_meshmesh.Socket.Storing.{
  view, IsValid, Shows, key_open, own_closed, own_open, put_same, put_other, same_or,
}

module _ {S : Type 0} (σ : System S) (a : Owners S) (v : IsValid σ) (h : Shows σ a) (i : ℕ)
    (open' : (σ.object i).closed ≡ false) where
  abbrev ended_object : Impl
  ended_object = record (σ.object i) { fd = minus_one; closed = true }

  abbrev pub without : System S
  without = record σ {
    object = put i ended_object σ.object;
    world = remove_socket (σ.object i).fd σ.world;
  }

  abbrev pub released : Owners S
  released = record a { own = put i none a.own }

  small_key : key (σ.object i).fd ≡ (σ.object i).fd
  small_key = key_open σ a v h i open'

  object_here : without.object i ≡ ended_object
  object_here = put_same i ended_object σ.object

  object_there : (j : ℕ) → j ≢ i → without.object j ≡ σ.object j
  object_there j n = put_other i j ended_object σ.object n

  -- An object that is still open is another one.
  still : (j : ℕ) → (without.object j).closed ≡ false → j ≢ i
  still j c q =
      let no : true ≡ false = sym (ap (λ o. o.closed) (ap without.object q ∙ object_here)) ∙ c in cc

  was_open : (j : ℕ) → (without.object j).closed ≡ false → (σ.object j).closed ≡ false
  was_open j c = sym (ap (λ o. o.closed) (object_there j (still j c))) ∙ c

  same_fd : (j : ℕ) → j ≢ i → (without.object j).fd ≡ (σ.object j).fd
  same_fd j n = ap (λ o. o.fd) (object_there j n)

  far : (j : ℕ) → j ≢ i → (σ.object j).closed ≡ false → (σ.object j).fd ≢ key (σ.object i).fd
  far j n c q = n (v.distinct j i c open' (q ∙ small_key))

  pub without-IsValid : IsValid without
  unfolding remove_socket
  without-IsValid = record {
    room = v.room;
    unused = λ n l.
        put_other (key (σ.object i).fd) n none σ.world.sockets
          (λ q. omega (arith, q, small_key, v.open_fd i open', l))
        ∙ v.unused n l;
    closed_fd = λ j c. elim (same_or j i) [
      | inl q ↦ ap (λ o. o.fd) (ap without.object q ∙ object_here)
      | inr n ↦ same_fd j n ∙ v.closed_fd j (sym (ap (λ o. o.closed) (object_there j n)) ∙ c)
    ];
    open_fd = λ j c. omega (arith, same_fd j (still j c), v.open_fd j (was_open j c));
    held = λ j c.
        let x = v.held j (was_open j c) in
        (
          x.0,
          ap (put (key (σ.object i).fd) none σ.world.sockets) (same_fd j (still j c))
              ∙ put_other (key (σ.object i).fd) _ none σ.world.sockets
                  (far j (still j c) (was_open j c))
              ∙ x.1,
        );
    distinct = λ j l c d e.
        v.distinct j l (was_open j c) (was_open l d)
          (sym (same_fd j (still j c)) ∙ e ∙ same_fd l (still l d));
    fresh = λ j l. elim (same_or j i) [
      | inl q ↦ ap (λ o. o.closed) (ap without.object q ∙ object_here)
      | inr n ↦ ap (λ o. o.closed) (object_there j n) ∙ v.fresh j l
    ];
  }

  -- What an object refers to in a table.
  abbrev seen : (ℕ → Option S) → Impl → Option S
  seen table o = if o.closed then none else table (key o.fd)

  view_there : (j : ℕ) → j ≢ i → view without j ≡ a.own j
  unfolding remove_socket
  view_there j n =
      ap (seen without.world.sockets) (object_there j n) ∙ elim (Bool-cases (σ.object j).closed) [
        | inl c ↦ rw c (sym (own_closed σ a v h j c))
        | inr c ↦
            let kj = key_open σ a v h j c in
            rw c (
              put_other (key (σ.object i).fd) _ none σ.world.sockets (λ q. far j n c (sym kj ∙ q))
              ∙ sym (own_open σ a v h j c))
      ]

  pub without-Shows : Shows without released
  without-Shows = record {
    counts = h.counts;
    views = λ j. elim (same_or j i) [
      | inl q ↦
          ap (seen without.world.sockets) (ap without.object q ∙ object_here)
          ∙ sym (ap (put i none a.own) q ∙ put_same i none a.own)
      | inr n ↦ view_there j n ∙ sym (put_other i j none a.own n)
    ];
  }
