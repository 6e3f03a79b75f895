-- ===== src/Socket/Writing.antt =====
-- Writes of several buffers, and what a closed socket answers
-- (components/socket/meshmesh_socket_impl.cpp).
use esphome_meshmesh.Prelude.{
  ◌==◌, if◌then◌else◌, Bool-cases, ◌>>=◌, ok, fault, ℕ, suc, ◌+◌, ◌*◌, ◌%◌, ◌^◌, ◌<◌, ◌≡◌, refl, ap,
  ◌∙◌, inl, inr, true, false, none, List, [], ◌∷◌, arith,
}
use esphome_meshmesh.Mesh.{add32}
use esphome_meshmesh.Socket.State.{
  minus_one, negative, Library, World, key, found, get_socket, store, remove_socket,
}
use esphome_meshmesh.Socket.Calls.{
  Impl, accept_loop_monitored, listen, close, destroy, getpeername, read, write, writev_from,
  writev,
}
use esphome_meshmesh.Socket.Vectors.{get_store}

module _ {S : Type 0} (M : Library S) where
  -- Sending buffers one after the other: the bytes that the socket says it has taken, and how many
  -- buffers it has refused.
  abbrev pub sending : List (List ℕ) → S → ℕ × ℕ
  sending [] s = (0, 0)
  sending (buf ∷ iov) s =
      let (sent, s') = M.send buf s in
      let (taken, refused) = sending iov s' in
      if negative sent then (taken, suc refused) else (sent + taken, refused)

  write_lem :
      (buf : List ℕ) (o : Impl) (s : S) (w : World S)
      → get_socket o.fd w ≡ ok s
      → write M buf o w
        ≡ ok (
          if negative (M.send buf s).0 then minus_one else (M.send buf s).0,
          store o.fd (M.send buf s).1 w,
        )
  unfolding write
  write_lem buf o s w e = rw e refl

  writev_from-sending :
      (iov : List (List ℕ)) (written : ℕ) (o : Impl) (s : S) (w : World S)
      → written < 2 ^ 32
      → get_socket o.fd w ≡ ok s
      → (writev_from M written iov o w >>= λ r. ok r.0)
        ≡ ok ((written + (sending iov s).0 + (sending iov s).1 * minus_one) % 2 ^ 32)
  unfolding writev_from
  writev_from-sending [] written o s w l e = ap ok (omega arith)
  writev_from-sending (buf ∷ iov) written o s w l e =
      let s' = (M.send buf s).1 in
      let rest = λ (code : ℕ).
        writev_from-sending iov (add32 written code) o s' (store o.fd s' w) (omega arith)
          (get_store M o.fd s' w) in
      let t = sending iov s' in
      elim (Bool-cases (negative (M.send buf s).0)) [
        | inl b ↦ rw (write_lem buf o s w e, b) (rest minus_one ∙ ap ok (omega arith))
        | inr b ↦ rw (write_lem buf o s w e, b) (rest (M.send buf s).0 ∙ ap ok (omega arith))
      ]

  -- `writev` on a descriptor in the table answers, modulo 2^32, the bytes taken minus the number of
  -- buffers refused: each refused one counts as -1.
  pub writev-sending :
      (iov : List (List ℕ)) (o : Impl) (s : S) (w : World S)
      → get_socket o.fd w ≡ ok s
      → (writev M iov o w >>= λ r. ok r.0)
        ≡ ok (((sending iov s).0 + (sending iov s).1 * minus_one) % 2 ^ 32)
  unfolding writev
  writev-sending iov o s w e = writev_from-sending iov 0 o s w (omega arith) e ∙ ap ok (omega arith)

  get_socket-closed :
      (o : Impl) (w : World S)
      → w.sockets 65535 ≡ none
      → get_socket minus_one (remove_socket o.fd w) ≡ fault
  unfolding get_socket remove_socket
  get_socket-closed o w n = elim (Bool-cases (65535 == key o.fd)) [
    | inl b ↦ rw b refl
    | inr b ↦ rw b (ap found n)
  ]

  close_lem :
      (o : Impl) (s : S) (w : World S)
      → o.closed ≡ false
      → get_socket o.fd w ≡ ok s
      → close M o w
        ≡ ok (M.close s, (record o { fd = minus_one; closed = true }, remove_socket o.fd w))
  unfolding close
  close_lem o s w c e = rw (c, e) refl

  -- Where key 65535 is unused, closing an open object whose descriptor is in the table closes its
  -- socket and answers what that answers. After it, reading, writing, listening, accepting and asking
  -- for the peer throw; closing again answers 0, and neither that nor the destructor changes anything.
  pub close-Throws :
      (len backlog : ℕ) (buf : List ℕ) (o : Impl) (s : S) (w : World S)
      → o.closed ≡ false
      → get_socket o.fd w ≡ ok s
      → w.sockets 65535 ≡ none
      → let o' : Impl = record o { fd = minus_one; closed = true } in
        let w' = remove_socket o.fd w in
        (close M o w ≡ ok (M.close s, (o', w')))
        × ((read M len o' w' ≡ fault)
            × ((write M buf o' w' ≡ fault)
                × ((listen M backlog o' w' ≡ fault)
                    × ((accept_loop_monitored M o' w' ≡ fault)
                        × ((getpeername M o' w' ≡ fault)
                            × ((close M o' w' ≡ ok (0, (o', w'))) × (destroy M o' w' ≡ ok w')))))))
  unfolding read write listen accept_loop_monitored getpeername close destroy
  close-Throws len backlog buf o s w c e n =
      let gone = get_socket-closed o w n in
      (
        close_lem o s w c e,
        (
          rw gone refl,
          (rw gone refl, (rw gone refl, (rw gone refl, (rw gone refl, (refl, refl))))),
        ),
      )
