-- ===== src/MeshTest/Forward.antt =====
-- The tests of the firmware that tests the mesh, pass by pass (components/meshmesh_test).
use esphome_meshmesh.Prelude.{
  ltb, ◌==◌, if◌then◌else◌, bytes_eq, Result, Returns, ok, ℕ, ◌≤◌, ◌≡◌, refl, inl, inr, true, false,
  ◌||◌, List, arith,
}
use esphome_meshmesh.Mesh.{MeshAddress, sub32}
use esphome_meshmesh.MeshTest.State.{
  State, Input, MeshmeshTest, hello_string, reply_string, lore_ipsum, timeout_check,
}
use esphome_meshmesh.MeshTest.Steps.{
  checksum, send_case, recv_case, by_checksum, end_case, delayed, small_packet_test, compare_test,
  callback_test, async_next, unicast2_async_recv,
}
use esphome_meshmesh.MeshTest.Safe.{
  idle, rank, InRange, Fits, Good, either, pick, moved, stays, timeout_check-Good, open_case-Good,
  open_callback_case-Good, send_case-Good, heard, recv_case-Good, end_case-Good,
}

module _ (s : MeshmeshTest) (fits : Fits s) (busy : idle s.state ≡ false) where
  abbrev Stays : Result MeshmeshTest → Type 0
  Stays = Returns (Good s)

  there : (k : ℕ) → 1 ≤ k → k ≤ 8 → (s.sub_state == k) ≡ true → s.socket ≡ true
  there k l m e = fits.needs (ground (arith, l)) (ground (arith, m))

  by_checksum-InRange :
      (text : List ℕ) (right wrong : ℕ)
      → InRange right
      → InRange wrong
      → (bytes : List ℕ) → InRange (by_checksum text right wrong bytes)
  unfolding by_checksum
  by_checksum-InRange text right wrong a b bytes =
      either InRange (checksum bytes == checksum text) right wrong a b

  delayed-Good : (i : Input) (r : Result MeshmeshTest) → Stays r → Stays (delayed i s r)
  unfolding delayed
  delayed-Good i r h =
      either Stays (ltb 2000 (sub32 i.now s.last_time)) r (ok s) h (stays s fits busy)

  at :
      (k : ℕ) (x y : Result MeshmeshTest)
      → ((s.sub_state == k) ≡ true → Stays x)
      → Stays y
      → Stays (if s.sub_state == k then x else y)
  at k x y = pick Stays (s.sub_state == k) x y

  sends :
      (k : ℕ) (target : MeshAddress) (text : List ℕ) (next : ℕ) (i : Input)
      → 1 ≤ k
      → k ≤ 8
      → InRange next
      → (s.sub_state == k) ≡ true
      → Stays (send_case target text next i s)
  sends k target text next i l m r e =
      send_case-Good s fits busy target text next i (there k l m e) r

  receives :
      (k : ℕ) (next : List ℕ → ℕ) (limit : ℕ) (i : Input)
      → 1 ≤ k
      → k ≤ 8
      → ((bytes : List ℕ) → InRange (next bytes))
      → (s.sub_state == k) ≡ true
      → Stays (recv_case next limit i s)
  receives k next limit i l m r e = recv_case-Good s fits busy next limit i (there k l m e) r

  low : (n : ℕ) → n ≤ 8 → InRange n
  low n l = inl l

  last : InRange 99
  last = inr (inr refl)

  ends : (next : State) (i : Input) → rank s.state ≤ rank next → Stays (end_case next i s)
  ends next i l = end_case-Good s fits busy next i l

  rank_done : rank s.state ≤ rank State.done
  rank_done = rank_le s.state
    where
      rank_le : (x : State) → rank x ≤ 5
      rank_le State.wait_start = omega arith
      rank_le State.broadcast1 = omega arith
      rank_le State.broadcast2 = omega arith
      rank_le State.unicast1 = omega arith
      rank_le State.unicast2 = omega arith
      rank_le State.done = omega arith

  pub small_packet_test-Good :
      (target : MeshAddress) (next : State) (i : Input)
      → rank s.state ≤ rank next
      → Stays (small_packet_test target next i s)
  unfolding small_packet_test
  small_packet_test-Good target next i l =
      at 0 _ _ (λ _. open_case-Good s fits busy i)
        (at 1 _ _
          (λ e.
            delayed-Good i _
              (sends 1 target hello_string 3 i (omega arith) (omega arith) (low 3 (omega arith)) e))
          (at 2 _ _
            (receives 2 _ 30000 i (omega arith) (omega arith)
              (by_checksum-InRange hello_string 4 99 (low 4 (omega arith)) last))
            (at 3 _ _
              (receives 3 _ 1000 i (omega arith) (omega arith)
                (by_checksum-InRange reply_string 5 99 (low 5 (omega arith)) last))
              (at 4 _ _
                (sends 4 target reply_string 6 i (omega arith) (omega arith) (low 6 (omega arith)))
                (at 5 _ _
                  (sends 5 target lore_ipsum 7 i (omega arith) (omega arith) (low 7 (omega arith)))
                  (at 6 _ _
                    (receives 6 _ 1000 i (omega arith) (omega arith) (λ b. low 8 (omega arith)))
                    (at 7 _ _ (receives 7 _ 1000 i (omega arith) (omega arith) (λ b. last)) (
                      at 8 _ _ (sends 8 target lore_ipsum 99 i (omega arith) (omega arith) last) (
                        at 98 _ _ (λ _. ends State.done i rank_done)
                          (at 99 _ _ (λ _. ends next i l) (stays s fits busy)))))))))))

  pub compare_test-Good :
      (target : MeshAddress) (next : State) (i : Input)
      → rank s.state ≤ rank next
      → Stays (compare_test target next i s)
  unfolding compare_test
  compare_test-Good target next i l =
      at 0 _ _ (λ _. open_case-Good s fits busy i)
        (at 1 _ _
          (sends 1 target hello_string 3 i (omega arith) (omega arith) (low 3 (omega arith)))
          (at 2 _ _ (receives 2 _ 5000 i (omega arith) (omega arith) (λ b. low 4 (omega arith))) (
            at 3 _ _
              (receives 3 _ 1000 i (omega arith) (omega arith) (λ b.
                either InRange (bytes_eq b reply_string) 5 5 (low 5 (omega arith))
                  (low 5 (omega arith))))
              (at 4 _ _
                (sends 4 target reply_string 6 i (omega arith) (omega arith) (low 6 (omega arith)))
                (at 5 _ _
                  (sends 5 target lore_ipsum 7 i (omega arith) (omega arith) (low 7 (omega arith)))
                  (at 6 _ _
                    (receives 6 _ 1000 i (omega arith) (omega arith) (λ b. low 8 (omega arith)))
                    (at 7 _ _ (receives 7 _ 1000 i (omega arith) (omega arith) (λ b. last)) (
                      at 8 _ _ (sends 8 target lore_ipsum 99 i (omega arith) (omega arith) last) (
                        at 98 _ _ (λ _. ends State.done i rank_done)
                          (at 99 _ _ (λ _. ends next i l) (stays s fits busy)))))))))))

  waits :
      (i : Input) (x : Result MeshmeshTest)
      → Stays x
      → Stays (
          if s.sub_state == 2 || (s.sub_state == 3 || (s.sub_state == 6 || s.sub_state == 7))
          then ok (timeout_check 5000 i s)
          else x)
  waits i x h =
      either Stays
        (s.sub_state == 2 || (s.sub_state == 3 || (s.sub_state == 6 || s.sub_state == 7)))
        (ok (timeout_check 5000 i s)) x
        (timeout_check-Good s fits busy 5000 i s (stays s fits busy) refl fits.buffers) h

  pub callback_test-Good :
      (target : MeshAddress) (next : State) (i : Input)
      → rank s.state ≤ rank next
      → Stays (callback_test target next i s)
  unfolding callback_test
  callback_test-Good target next i l =
      at 0 _ _ (λ _. open_callback_case-Good s fits busy i)
        (at 1 _ _
          (λ e.
            delayed-Good i _
              (sends 1 target hello_string 3 i (omega arith) (omega arith) (low 3 (omega arith)) e))
          (at 4 _ _
            (sends 4 target reply_string 6 i (omega arith) (omega arith) (low 6 (omega arith)))
            (at 5 _ _
              (sends 5 target lore_ipsum 7 i (omega arith) (omega arith) (low 7 (omega arith)))
              (waits i _ (
                at 8 _ _ (sends 8 target lore_ipsum 99 i (omega arith) (omega arith) last) (
                  at 98 _ _ (λ _. ends State.done i rank_done)
                    (at 99 _ _ (λ _. ends next i l) (stays s fits busy))))))))

  async_next-InRange : (bytes : List ℕ) → InRange (async_next s.sub_state bytes)
  unfolding async_next
  async_next-InRange bytes =
      either InRange (s.sub_state == 2) _ _
        (by_checksum-InRange hello_string 4 98 (low 4 (omega arith)) (inr (inl refl)) bytes)
        (either InRange (s.sub_state == 3) _ _
          (by_checksum-InRange reply_string 5 98 (low 5 (omega arith)) (inr (inl refl)) bytes)
          (either InRange (s.sub_state == 6) _ _ (low 8 (omega arith))
            (either InRange (s.sub_state == 7) _ _ last fits.range)))

  pub unicast2_async_recv-Good :
      (now : ℕ) (bytes : List ℕ) (from : MeshAddress) (rssi : ℕ)
      → s.socket ≡ true
      → Good s (unicast2_async_recv now bytes from rssi s)
  unfolding unicast2_async_recv
  unicast2_async_recv-Good now bytes from rssi h =
      either (Good s) _ _ _
        (moved s fits busy (record s { from = from; rssi = rssi }) (async_next s.sub_state bytes)
          now refl fits.buffers (λ l m. h) (async_next-InRange bytes))
        (heard s fits busy from rssi)
