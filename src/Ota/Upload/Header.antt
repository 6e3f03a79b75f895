-- ===== src/Ota/Upload/Header.antt =====
-- The pass of components/meshmesh/ota/ota_meshmesh.cpp that reads the size and the checksum and begins
-- the update, on a platform on which all goes well.
use esphome_meshmesh.Prelude.{
  ℕ, zero, suc, ◌+◌, ◌-◌, ◌≤◌, ◌<◌, ◌≡◌, refl, ap, sym, ◌∙◌, true, false, not, List, [], ◌∷◌, arith,
  length, blit, length-blit, take-blit, ltb, leb, ◌==◌, take, drop, length-take, length-drop,
  get_or,
}
use esphome_meshmesh.Ota.State.{OtaState, Effect, Platform, Ota, done}
use esphome_meshmesh.Ota.Rx.{rx_read, transition_ota_state}
use esphome_meshmesh.Ota.Data.{
  readall, data_md5_ok, md5_received, data_md5, data_prepare_ok, data_begin, size_of_bytes,
  size_received, data_size, data_auth_ok,
}
use esphome_meshmesh.Ota.Queue.{contents, RxValid, rx_read_lem}
use esphome_meshmesh.Ota.Upload.Setting.{Succeeds, reply, write_byte-Succeeds}

-- `len` waiting bytes have gone to the front of the data buffer.
record Fetched (len : ℕ) (s u : Ota) : Type 0 where
  frame : u ≡ record s {
    rx_buf = u.rx_buf;
    rx_read_pos = u.rx_read_pos;
    data_buf = blit s.data_buf 0 (take len (contents s));
  }
  valid : RxValid u
  rest : contents u ≡ drop len (contents s)

-- What an online session needs for the calls below.
record Linked (s : Ota) : Type 0 where
  socket : s.socket_open ≡ true
  peer_set : s.has_peer ≡ true
  backend_set : s.backend ≡ true

Fetched-Linked : (len : ℕ) (s u : Ota) → Fetched len s u → Linked s → Linked u
Fetched-Linked len s u f l = record {
  socket = ap (λ x. x.socket_open) f.frame ∙ l.socket;
  peer_set = ap (λ x. x.has_peer) f.frame ∙ l.peer_set;
  backend_set = ap (λ x. x.backend) f.frame ∙ l.backend_set;
}

module _ (P : Platform) where
  readall-Fetched :
      (f len : ℕ) (s : Ota)
      → RxValid s
      → 0 < len
      → len ≤ length (contents s)
      → (u : Ota) × (readall P (suc (suc f)) s 0 len ≡ done (true, u)) × Fetched len s u
  unfolding readall
  readall-Fetched f len s v p h =
      let r = rx_read_lem s len v in
      let got = (rx_read s len).0 in
      let s' = (rx_read s len).1 in
      let u : Ota = record s' { data_buf = blit s'.data_buf 0 got } in
      let n : length got ≡ len =
        ground (arith, ap length r.got_oldest, length-take len (contents s), h) in
      let all : len - 0 ≡ len = omega arith in
      let none_yet : leb len 0 ≡ false = ground (arith, p) in
      let some_got : ltb 0 (length got) ≡ true = ground (arith, n, p) in
      let full : leb len (0 + length got) ≡ true = ground (arith, n) in
      (
        u,
        rw (none_yet, all, some_got, full) refl,
        record {
          frame = λ i. record (r.frame i) {
            rx_buf = s'.rx_buf;
            rx_read_pos = s'.rx_read_pos;
            data_buf = blit (r.frame i).data_buf 0 (r.got_oldest i);
          };
          valid = record { pos_in = r.valid.pos_in; pos_small = r.valid.pos_small };
          rest = r.rest;
        },
      )

get_or-take : (n i : ℕ) (xs : List ℕ) → i < n → get_or (take n xs) i 0 ≡ get_or xs i 0
get_or-take zero i xs h = absurd (omega arith)
get_or-take (suc n) i [] h = refl
get_or-take (suc n) zero (x ∷ xs) h = refl
get_or-take (suc n) (suc i) (x ∷ xs) h = get_or-take n i xs (omega arith)

-- Only the first four bytes count.
pub size_of_bytes-take : (xs : List ℕ) → size_of_bytes (take 4 xs) ≡ size_of_bytes xs
unfolding size_of_bytes
size_of_bytes-take xs =
    rw
      (
        get_or-take 4 0 xs (omega arith),
        get_or-take 4 1 xs (omega arith),
        get_or-take 4 2 xs (omega arith),
        get_or-take 4 3 xs (omega arith),
      )
      refl

size_of_bytes-blit :
    (dst src : List ℕ)
    → 4 ≤ length dst
    → 4 ≤ length src
    → size_of_bytes (blit dst 0 (take 4 src)) ≡ size_of_bytes src
size_of_bytes-blit dst src d h =
    sym (size_of_bytes-take (blit dst 0 (take 4 src)))
    ∙ ap size_of_bytes
        (take-blit dst 0 (take 4 src) 4 (omega (arith, length-take 4 src, h)) (omega (arith, d)))
    ∙ size_of_bytes-take src

module _ (P : Platform) (ok : Succeeds P) (f : ℕ) where
  -- From `s`, the checksum is read and handed over; firmware is next.
  record Checked (s t : Ota) : Type 0 where
    same : t ≡ record s {
      rx_buf = t.rx_buf;
      rx_read_pos = t.rx_read_pos;
      data_buf = t.data_buf;
      handshake_buf_pos = 0;
      ota_state = OtaState.data_firmware;
      turn = suc (suc (suc s.turn));
      trace =
          reply P s P.response.bin_md5_ok
          ∷ Effect.set_md5 (take 32 (contents s))
          ∷ reply P s P.response.update_prepare_ok
          ∷ s.trace;
    }
    rest : contents t ≡ drop 32 (contents s)

  data_prepare_ok-Checked :
      (s : Ota)
      → Linked s
      → RxValid s
      → 32 ≤ length s.data_buf
      → 32 ≤ length (contents s)
      → (t : Ota) × (data_prepare_ok P (suc (suc f)) s ≡ done t) × Checked s t
  unfolding data_prepare_ok data_md5 md5_received data_md5_ok transition_ota_state
  data_prepare_ok-Checked s l v d h =
      let sent = write_byte-Succeeds P s P.response.update_prepare_ok ok l.socket l.peer_set in
      let s1 : Ota = record s {
        turn = suc s.turn;
        trace = reply P s P.response.update_prepare_ok ∷ s.trace;
        ota_state = OtaState.data_md5;
        handshake_buf_pos = 0;
      } in
      let (u, e, q) =
        readall-Fetched P f 32 s1 (record { pos_in = v.pos_in; pos_small = v.pos_small })
          (omega arith) h in
      let k =
        Fetched-Linked 32 s1 u q
          (record { socket = l.socket; peer_set = l.peer_set; backend_set = l.backend_set }) in
      let u1 : Ota = record u {
        turn = suc u.turn;
        trace = Effect.set_md5 (take 32 u.data_buf) ∷ u.trace;
        ota_state = OtaState.data_md5_ok;
        handshake_buf_pos = 0;
      } in
      let sent_md5 = write_byte-Succeeds P u1 P.response.bin_md5_ok ok k.socket k.peer_set in
      let md5 : take 32 u.data_buf ≡ take 32 (contents s) =
        ap (λ x. take 32 x.data_buf) q.frame
        ∙ take-blit s.data_buf 0 (take 32 (contents s)) 32
            (omega (arith, length-take 32 (contents s), h)) d in
      let finish : Ota → List ℕ → Ota = λ x sum. record x {
        rx_buf = u.rx_buf;
        rx_read_pos = u.rx_read_pos;
        data_buf = u.data_buf;
        ota_state = OtaState.data_firmware;
        handshake_buf_pos = 0;
        turn = suc (suc x.turn);
        trace = reply P x P.response.bin_md5_ok ∷ Effect.set_md5 sum ∷ x.trace;
      } in
      (
        finish u (take 32 u.data_buf),
        rw (sent, e, ap not k.backend_set, sent_md5) refl,
        record { same = λ i. finish (q.frame i) (md5 i); rest = q.rest },
      )

  -- From `s`, the size is read, the update begun, and the checksum handed over; firmware is next.
  pub record Opens (s t : Ota) : Type 0 where
    pub same : t ≡ record s {
      rx_buf = t.rx_buf;
      rx_read_pos = t.rx_read_pos;
      data_buf = t.data_buf;
      handshake_buf_pos = 0;
      ota_state = OtaState.data_firmware;
      ota_size = size_of_bytes (contents s);
      update_started = true;
      firmware_total = 0;
      last_progress_ms = P.millis (suc (suc s.turn));
      size_acknowledged = 0;
      turn = suc (suc (suc (suc (suc s.turn))));
      trace =
          reply P s P.response.bin_md5_ok
          ∷ Effect.set_md5 (take 32 (drop 4 (contents s)))
          ∷ reply P s P.response.update_prepare_ok
          ∷ Effect.begin_update (size_of_bytes (contents s))
          ∷ reply P s P.response.auth_ok
          ∷ s.trace;
    }
    pub rest : contents t ≡ drop 32 (drop 4 (contents s))

  pub data_auth_ok-Opens :
      (s : Ota)
      → s.socket_open ≡ true
      → s.has_peer ≡ true
      → s.backend ≡ true
      → RxValid s
      → 32 ≤ length s.data_buf
      → 36 ≤ length (contents s)
      → (t : Ota) × (data_auth_ok P (suc (suc f)) s ≡ done t) × Opens s t
  unfolding data_auth_ok data_size size_received data_begin transition_ota_state
  data_auth_ok-Opens s o p b v d h =
      let sent = write_byte-Succeeds P s P.response.auth_ok ok o p in
      let s1 : Ota = record s {
        turn = suc s.turn;
        trace = reply P s P.response.auth_ok ∷ s.trace;
        ota_state = OtaState.data_size;
        handshake_buf_pos = 0;
      } in
      let (u, e, q) =
        readall-Fetched P f 4 s1 (record { pos_in = v.pos_in; pos_small = v.pos_small })
          (omega arith) (omega (arith, h)) in
      let k = Fetched-Linked 4 s1 u q (record { socket = o; peer_set = p; backend_set = b }) in
      let n = size_of_bytes u.data_buf in
      let w : Ota = record u {
        ota_size = n;
        ota_state = OtaState.data_prepare_ok;
        handshake_buf_pos = 0;
        turn = suc u.turn;
        trace = Effect.begin_update n ∷ u.trace;
        update_started = true;
        firmware_total = 0;
        last_progress_ms = P.millis (suc u.turn);
        size_acknowledged = 0;
      } in
      let begun : P.begin_code u.turn n == P.response.ok ≡ true =
        ground (arith, ok.begun_ok u.turn n) in
      let (t, g, c) =
        data_prepare_ok-Checked w
          (record { socket = k.socket; peer_set = k.peer_set; backend_set = k.backend_set })
          (record { pos_in = q.valid.pos_in; pos_small = q.valid.pos_small })
          (omega (
            arith,
            ap (λ x. length x.data_buf) q.frame,
            length-blit s.data_buf 0 (take 4 (contents s)),
            d,
          ))
          (omega (arith, ap length q.rest, length-drop 4 (contents s), h)) in
      let size : n ≡ size_of_bytes (contents s) =
        ap (λ x. size_of_bytes x.data_buf) q.frame
        ∙ size_of_bytes-blit s.data_buf (contents s) (omega (arith, d)) (omega (arith, h)) in
      let build : Ota → ℕ → List ℕ → Ota = λ x m left. record x {
        rx_buf = t.rx_buf;
        rx_read_pos = t.rx_read_pos;
        data_buf = t.data_buf;
        handshake_buf_pos = 0;
        ota_state = OtaState.data_firmware;
        ota_size = m;
        update_started = true;
        firmware_total = 0;
        last_progress_ms = P.millis (suc x.turn);
        size_acknowledged = 0;
        turn = suc (suc (suc (suc x.turn)));
        trace =
            reply P x P.response.bin_md5_ok
            ∷ Effect.set_md5 (take 32 left)
            ∷ reply P x P.response.update_prepare_ok
            ∷ Effect.begin_update m
            ∷ x.trace;
      } in
      (
        t,
        rw (sent, e, ap not k.backend_set, begun) g,
        record {
          same = c.same ∙ (λ i. build (q.frame i) (size i) (q.rest i));
          rest = c.rest ∙ ap (drop 32) q.rest;
        },
      )
