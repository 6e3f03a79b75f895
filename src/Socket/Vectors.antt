-- ===== src/Socket/Vectors.antt =====
-- Reads and writes over several buffers (components/socket/meshmesh_socket_impl.cpp).
use esphome_meshmesh.Prelude.{
  ◌==◌, if◌then◌else◌, Bool-cases, length, length-append, length_zero, ◌>>=◌, Returns, Returns-bind,
  Returns-map, ok, ℕ, ◌+◌, ◌^◌, ◌≤◌, ◌<◌, ◌≡◌, refl, sym, ap, ◌∙◌, ◌⊎◌, inl, inr, true, false, not,
  ◌&&◌, List, [], ◌∷◌, ◌++◌, arith,
}
use esphome_meshmesh.Mesh.{add32}
use esphome_meshmesh.Socket.State.{minus_one, negative, Library, World, key, get_socket, store}
use esphome_meshmesh.Socket.Calls.{Impl, read_code, read_errno, read, readv_from, readv}

-- What `recv` answers: the number of bytes that it has put into the buffer, or one of two codes.
pub record Honest {S : Type 0} (M : Library S) : Type 0 where
  pub received :
      (len : ℕ) (s : S)
      → let r = (M.recv len s).0 in
        ((r.0 ≡ length r.1) × (length r.1 ≤ len))
        ⊎ ((r.1 ≡ []) × ((r.0 ≡ M.err_buffer_too_small) ⊎ (r.0 ≡ M.err_is_not_connected)))
  pub codes :
      (negative M.err_buffer_too_small ≡ true)
      × ((negative M.err_is_not_connected ≡ true)
          × ((M.err_is_not_connected == M.err_buffer_too_small) ≡ false))

abbrev pub concat : List (List ℕ) → List ℕ
concat [] = []
concat (b ∷ bs) = b ++ concat bs

abbrev pub sum : List ℕ → ℕ
sum [] = 0
sum (n ∷ ns) = n + sum ns

-- Every buffer before the last one that was filled is full.
abbrev pub Filled : List ℕ → List (List ℕ) → Type 0
Filled iov [] = Unit {0}
Filled [] (b ∷ bs) = ⊥
Filled (len ∷ iov) (b ∷ bs) = (length b ≤ len) × (((bs ≡ []) ⊎ (length b ≡ len)) × Filled iov bs)

-- An error, and nothing read; or the number of bytes read.
abbrev pub Counts : ℕ → List ℕ → Type 0
Counts ret bytes = ((ret ≡ minus_one) × (bytes ≡ [])) ⊎ (ret ≡ length bytes)

-- What one read answers: an error with nothing read, or the number of bytes read.
abbrev OneRead : ℕ → ℕ × List ℕ → Type 0
OneRead len (err, bytes) =
    ((err ≡ minus_one) × (bytes ≡ [])) ⊎ ((err ≡ length bytes) × (length bytes ≤ len))

-- What is left of a vector read after `ret` bytes.
abbrev VectorRead : ℕ → List ℕ → ℕ × List (List ℕ) → Type 0
VectorRead ret iov (n, bufs) =
    Filled iov bufs
    × (((n ≡ minus_one) × ((ret ≡ 0) × (concat bufs ≡ []))) ⊎ (n ≡ ret + length (concat bufs)))

code_read : (a b r : ℕ) → r < 2 ^ 31 → read_code a b r ≡ r
unfolding read_code
code_read a b r h = ground arith

code_too_small : (a b : ℕ) → negative a ≡ true → read_code a b a ≡ minus_one
unfolding read_code
code_too_small a b h = ground arith

code_not_connected : (a b : ℕ) → negative b ≡ true → (b == a) ≡ false → read_code a b b ≡ 0
unfolding read_code
code_not_connected a b h e = ground arith

-- The length of what stands in the buffers, one more in front.
length-concat :
    (b : List ℕ) (bs : List (List ℕ)) → length (concat (b ∷ bs)) ≡ length b + length (concat bs)
length-concat b bs = length-append b (concat bs)

counted :
    (n : ℕ) (iov : List ℕ) (bufs : List (List ℕ))
    → VectorRead 0 iov (n, bufs)
    → Counts n (concat bufs)
counted n iov bufs (f, inl (m, (z, c))) = inl (m, c)
counted n iov bufs (f, inr m) = inr (omega arith)

-- A buffer was filled, and a read into the others followed.
VectorRead-cons :
    (ret ret' len n : ℕ) (iov : List ℕ) (bytes : List ℕ) (bufs : List (List ℕ))
    → ret' ≡ ret + length bytes
    → length bytes ≡ len
    → VectorRead ret' iov (n, bufs)
    → VectorRead ret (len ∷ iov) (n, bytes ∷ bufs)
VectorRead-cons ret ret' len n iov bytes bufs e b (f, inl (m, (z, c))) = (
  (omega arith, (inr b, f)),
  inl (m, (omega arith, ap (λ k. k ++ concat bufs) (length_zero bytes (omega arith)) ∙ c)),
)
VectorRead-cons ret ret' len n iov bytes bufs e b (f, inr m) =
    ((omega arith, (inr b, f)), inr (omega (arith, length-concat bytes bufs)))

module _ {S : Type 0} (M : Library S) where
  -- The descriptor is in the table.
  abbrev pub Held : Impl → World S → Type 0
  Held o w = (s : S) × (get_socket o.fd w ≡ ok s)

  pub get_store : (fd : ℕ) (s : S) (w : World S) → get_socket fd (store fd s w) ≡ ok s
  unfolding get_socket store
  get_store fd s w = let e : (key fd == key fd) ≡ true = ground arith in rw e refl

  get_read_errno :
      (fd received : ℕ) (w : World S) → get_socket fd (read_errno M received w) ≡ get_socket fd w
  unfolding get_socket read_errno
  get_read_errno fd received w =
      elim (Bool-cases (negative received && received == M.err_buffer_too_small)) [
        | inl b ↦ rw b refl
        | inr b ↦ rw b refl
      ]

  read_code-OneRead :
      (honest : Honest M) (len : ℕ) (s : S)
      → len < 2 ^ 31
      → let r = (M.recv len s).0 in
        OneRead len (read_code M.err_buffer_too_small M.err_is_not_connected r.0, r.1)
  read_code-OneRead honest len s l =
      let too_small = M.err_buffer_too_small in
      let not_connected = M.err_is_not_connected in
      let code = read_code too_small not_connected in
      elim (honest.received len s) [
        | inl (e, b) ↦
            let small : (M.recv len s).0.0 < 2 ^ 31 = omega arith in
            inr (code_read too_small not_connected _ small ∙ e, b)
        | inr (n, inl t) ↦
            inl (ap code t ∙ code_too_small too_small not_connected honest.codes.0, n)
        | inr (n, inr t) ↦
            let zero' =
              code_not_connected too_small not_connected honest.codes.1.0 honest.codes.1.1 in
            inr (ap code t ∙ zero' ∙ sym (ap length n), omega (arith, ap length n))
      ]

  read-OneRead :
      (honest : Honest M) (len : ℕ) (o : Impl) (w : World S)
      → len < 2 ^ 31
      → Held o w
      → Returns (λ r. Held o r.1 × OneRead len r.0) (read M len o w)
  unfolding read
  read-OneRead honest len o w l (s, e) = rw e (
    (_, get_read_errno o.fd _ _ ∙ get_store o.fd (M.recv len s).1 w),
    read_code-OneRead honest len s l,
  )

  abbrev Read : ℕ → List ℕ → (ℕ × List (List ℕ)) × World S → Type 0
  Read ret iov r = VectorRead ret iov r.0

  -- What follows one read.
  vector_step :
      (len : ℕ) (iov : List ℕ) (ret : ℕ) (o : Impl) (err : ℕ) (bytes : List ℕ) (w : World S)
      → ret + sum (len ∷ iov) < 2 ^ 31
      → OneRead len (err, bytes)
      → ((ret' : ℕ) → ret' + sum iov < 2 ^ 31 → Returns (Read ret' iov) (readv_from M ret' iov o w))
      → Returns (Read ret (len ∷ iov)) (
          if err == minus_one
          then ok ((if not (ret == 0) then ret else err, bytes ∷ []), w)
          else if not (err == len)
          then ok ((add32 ret err, bytes ∷ []), w)
          else readv_from M (add32 ret err) iov o w >>= λ t. ok ((t.0.0, bytes ∷ t.0.1), t.1))
  vector_step len iov ret o err bytes w l (inl (e, n)) k =
      let minus : (err == minus_one) ≡ true = ground (arith, e) in
      let none_read : length bytes ≡ 0 = ap length n in
      let all_none : concat (bytes ∷ []) ≡ [] = ap (λ b. b ++ []) n in
      elim (Bool-cases (ret == 0)) [
        | inl z ↦ rw (minus, z) ((omega arith, (inl refl, tt)), inl (e, (ground arith, all_none)))
        | inr z ↦
            rw (minus, z) ((omega arith, (inl refl, tt)), inr (omega (arith, ap length all_none)))
      ]
  vector_step len iov ret o err bytes w l (inr (e, b)) k =
      let plus : (err == minus_one) ≡ false = ground (arith, e, b, l) in
      let whole : add32 ret err ≡ ret + length bytes = omega (arith, e, b, l) in
      elim (Bool-cases (err == len)) [
        | inl z ↦
            rw (plus, z)
              (Returns-bind _ (Read ret (len ∷ iov)) (readv_from M (add32 ret err) iov o w) _
                (k (add32 ret err) (omega (arith, whole, b, l)))
                (λ t q.
                  VectorRead-cons ret (add32 ret err) len t.0.0 iov bytes t.0.1 whole
                    (ground (arith, e, z)) q))
        | inr z ↦
            rw (plus, z) ((b, (inl refl, tt)), inr (omega (arith, whole, length-concat bytes [])))
      ]

  readv_from-VectorRead :
      (honest : Honest M) (iov : List ℕ) (ret : ℕ) (o : Impl) (w : World S)
      → ret + sum iov < 2 ^ 31
      → Held o w
      → Returns (Read ret iov) (readv_from M ret iov o w)
  unfolding readv_from
  readv_from-VectorRead honest [] ret o w l h = (tt, inr (omega arith))
  readv_from-VectorRead honest (len ∷ iov) ret o w l h =
      Returns-bind _ (Read ret (len ∷ iov)) (read M len o w) _
        (read-OneRead honest len o w (omega arith) h)
        (λ r q.
          vector_step len iov ret o r.0.0 r.0.1 r.1 l q.1
            (λ ret' m. readv_from-VectorRead honest iov ret' o r.1 m q.0))

  -- With a mesh socket that answers the number of bytes it has put into the buffer, or one of its two
  -- error codes, `readv` on a descriptor in the table, into buffers of less than 2^31 bytes in all,
  -- comes back. It answers -1 and has read nothing, or it answers the number of bytes in the buffers,
  -- of which every one before the last is full.
  pub readv-VectorRead :
      (honest : Honest M) (iov : List ℕ) (o : Impl) (w : World S)
      → sum iov < 2 ^ 31
      → Held o w
      → Returns (λ r. Filled iov r.0.1 × Counts r.0.0 (concat r.0.1)) (readv M iov o w)
  unfolding readv
  readv-VectorRead honest iov o w l h =
      Returns-map (Read 0 iov) (λ r. Filled iov r.0.1 × Counts r.0.0 (concat r.0.1))
        (readv_from M 0 iov o w) (readv_from-VectorRead honest iov 0 o w (omega arith) h)
        (λ r q. (q.0, counted r.0.0 iov r.0.1 q))
