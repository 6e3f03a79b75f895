-- ===== src/Ota/Chunks.antt =====
-- The loop that acknowledges blocks of firmware in components/meshmesh/ota/ota_meshmesh.cpp.
use esphome_meshmesh.Prelude.{
  ℕ, zero, suc, ◌+◌, ◌*◌, ◌/◌, ◌^◌, ◌≤◌, ◌<◌, ◌≡◌, refl, ap, ◌∙◌, ◌⊎◌, inl, inr, Bool, true, false,
  List, [], ◌∷◌, ◌++◌, replicate, arith, Bool-cases,
}
use esphome_meshmesh.Mesh.{add32}
use esphome_meshmesh.Ota.State.{Effect, ota_port, Platform, Ota, done, ota_block_size}
use esphome_meshmesh.Ota.Rx.{send_to_peer}
use esphome_meshmesh.Ota.Data.{write_byte, chunk_due, acknowledge_chunks}
use esphome_meshmesh.Ota.Keep.{send_to_peer-frame}

-- The counters that the loop reads, in range: whole blocks are acknowledged, none that is not yet
-- written but the last, partial one, and the sum with the next block does not wrap around 32 bits.
pub record Counted (s : Ota) (blocks : ℕ) : Type 0 where
  pub whole : s.size_acknowledged ≡ 8192 * blocks
  pub behind :
      (s.size_acknowledged ≤ s.firmware_total)
      ⊎ ((s.firmware_total ≡ s.ota_size) × (s.size_acknowledged < s.ota_size + 8192))
  pub within : s.firmware_total ≤ s.ota_size
  pub no_wrap : s.ota_size + 16384 ≤ 2 ^ 32

-- Every whole block written is acknowledged, and the last one too once all is written.
abbrev pub Settled : Ota → Type 0
Settled s =
    (s.firmware_total < s.ota_size → s.size_acknowledged ≡ 8192 * (s.firmware_total / 8192))
    × (s.firmware_total ≡ s.ota_size → s.size_acknowledged ≡ 8192 * ((s.ota_size + 8191) / 8192))

chunk_due-cases :
    (s : Ota) (k : ℕ)
    → Counted s k
    → ((chunk_due s ≡ true)
        × (s.size_acknowledged < s.ota_size)
        × (add32 s.size_acknowledged ota_block_size ≡ s.size_acknowledged + 8192)
        × ((s.size_acknowledged + 8192 ≤ s.firmware_total) ⊎ (s.firmware_total ≡ s.ota_size)))
      ⊎ ((chunk_due s ≡ false) × Settled s)
unfolding chunk_due
chunk_due-cases s k c = ground arith

module _ (P : Platform) where
  abbrev pub chunk : Ota → Effect
  chunk s = Effect.datagram (record s.peer { port = ota_port }) (P.response.chunk_ok ∷ [])

  -- The loop's result: the counters of the update are as before, and if no send fails then every
  -- due acknowledgement is out, one datagram for each block.
  pub record Acknowledged (s : Ota) (b : Bool) (t : Ota) : Type 0 where
    pub total : t.firmware_total ≡ s.firmware_total
    pub size : t.ota_size ≡ s.ota_size
    pub peer : t.peer ≡ s.peer
    pub settled : b ≡ true → Settled t
    pub blocks : ℕ
    pub counted : t.size_acknowledged ≡ s.size_acknowledged + 8192 * blocks
    pub sent : b ≡ true → t.trace ≡ replicate blocks (chunk s) ++ s.trace

  -- One round whose send succeeds.
  sent_chunk :
      (s : Ota)
      → (write_byte P s P.response.chunk_ok).0 ≡ true
      → (write_byte P s P.response.chunk_ok).1
        ≡ record s { turn = suc s.turn; trace = chunk s ∷ s.trace }
  unfolding write_byte send_to_peer
  sent_chunk s e = ground arith

  after_chunk : Ota → Ota
  after_chunk s = record s {
    turn = suc s.turn;
    trace = chunk s ∷ s.trace;
    size_acknowledged = add32 s.size_acknowledged ota_block_size;
  }

  replicate-suc_append :
      (n : ℕ) (e : Effect) (t : List Effect) → replicate n e ++ (e ∷ t) ≡ replicate (suc n) e ++ t
  replicate-suc_append zero e t = refl
  replicate-suc_append (suc n) e t = ap (λ u. e ∷ u) (replicate-suc_append n e t)

  round :
      (s t : Ota) (b : Bool)
      → add32 s.size_acknowledged ota_block_size ≡ s.size_acknowledged + 8192
      → Acknowledged (after_chunk s) b t
      → Acknowledged s b t
  unfolding after_chunk
  round s t b w a = record {
    total = a.total;
    size = a.size;
    peer = a.peer;
    settled = a.settled;
    blocks = suc a.blocks;
    counted = omega (arith, a.counted);
    sent = λ h. a.sent h ∙ replicate-suc_append a.blocks (chunk s) s.trace;
  }

  Counted-next :
      (s : Ota) (k : ℕ)
      → Counted s k
      → add32 s.size_acknowledged ota_block_size ≡ s.size_acknowledged + 8192
      → (s.size_acknowledged + 8192 ≤ s.firmware_total) ⊎ (s.firmware_total ≡ s.ota_size)
      → s.size_acknowledged < s.ota_size
      → Counted (after_chunk s) (suc k)
  unfolding after_chunk
  Counted-next s k c w q lt = ground arith

  enough :
      (s : Ota) (fuel : ℕ)
      → add32 s.size_acknowledged ota_block_size ≡ s.size_acknowledged + 8192
      → s.ota_size ≤ s.size_acknowledged + 8192 * suc fuel
      → s.ota_size ≤ (after_chunk s).size_acknowledged + 8192 * fuel
  unfolding after_chunk
  enough s fuel w h = omega arith

  Settled-already : (s : Ota) → Settled s → Acknowledged s true s
  Settled-already s q = record {
    total = refl;
    size = refl;
    peer = refl;
    settled = λ _. q;
    blocks = 0;
    counted = omega arith;
    sent = λ _. refl;
  }

  failed :
      (s : Ota)
      → (write_byte P s P.response.chunk_ok).0 ≡ false
      → Acknowledged s false (write_byte P s P.response.chunk_ok).1
  unfolding write_byte
  failed s z =
      let e = send_to_peer-frame P s (P.response.chunk_ok ∷ []) in
      record {
        total = ap (λ u. u.firmware_total) e;
        size = ap (λ u. u.ota_size) e;
        peer = ap (λ u. u.peer) e;
        settled = λ h. cc;
        blocks = 0;
        counted = omega (arith, ap (λ u. u.size_acknowledged) e);
        sent = λ h. cc;
      }

  -- With fuel for every block the loop ends; it stops early only on a send that fails, and else every
  -- block that is due has been acknowledged, once.
  pub acknowledge_chunks_lem :
      (fuel : ℕ) (s : Ota) (k : ℕ)
      → Counted s k
      → s.ota_size ≤ s.size_acknowledged + 8192 * fuel
      → (b : Bool) × (t : Ota) × (acknowledge_chunks P (suc fuel) s ≡ done (b, t))
        × Acknowledged s b t
  unfolding acknowledge_chunks after_chunk
  acknowledge_chunks_lem zero s k c h = elim (chunk_due-cases s k c) [
    | inr (e, q) ↦ (true, s, rw e, Settled-already s q)
    | inl (e, lt, w, q) ↦ absurd (omega arith)
  ]
  acknowledge_chunks_lem (suc fuel) s k c h = elim (chunk_due-cases s k c) [
    | inr (e, q) ↦ (true, s, rw e, Settled-already s q)
    | inl (e, lt, w, q) ↦ elim (Bool-cases (write_byte P s P.response.chunk_ok).0) [
      | inr z ↦ (false, (write_byte P s P.response.chunk_ok).1, rw (e, z), failed s z)
      | inl z ↦
          let next : Counted (after_chunk s) (suc k) = Counted-next s k c w q lt in
          let (b, t, g, a) =
            acknowledge_chunks_lem fuel (after_chunk s) (suc k) next (enough s fuel w h) in
          (b, t, rw (e, z, sent_chunk s z) g, round s t b w a)
    ]
  ]
