-- ===== src/Ota/Queue.antt =====
-- The receive buffer of components/meshmesh/ota/ota_meshmesh.cpp as a queue of bytes.
use esphome_meshmesh.Prelude.{
  ℕ, ◌+◌, ◌≤◌, ◌<◌, ◌≡◌, refl, sym, ◌∙◌, List, [], ◌++◌, arith, length, take, drop, length-drop,
  drop-drop, drop-append, drop_all, take_all, drop-nil, length-append, ltb, take-nil, length_zero,
  true, inl, inr, Bool-cases, ◌==◌, if◌then◌else◌,
}
use esphome_meshmesh.Ota.State.{Ota}
use esphome_meshmesh.Ota.Rx.{rx_append, rx_available, rx_advance, rx_read}

-- The bytes received and not yet read, oldest first.
abbrev pub contents : Ota → List ℕ
contents s = drop s.rx_read_pos s.rx_buf

-- The read position lies in the buffer, and the read part is dropped before it reaches 4096 bytes.
pub record RxValid (s : Ota) : Type 0 where
  pub pos_in : s.rx_read_pos ≤ length s.rx_buf
  pub pos_small : s.rx_read_pos < 4096

pub rx_available-length : (s : Ota) → rx_available s ≡ length (contents s)
unfolding rx_available
rx_available-length s = ground (arith, length-drop s.rx_read_pos s.rx_buf)

-- Appending keeps the invariant and puts the bytes behind the ones that wait.
pub rx_append_lem :
    (s : Ota) (bytes : List ℕ)
    → RxValid s
    → RxValid (rx_append s bytes) × (contents (rx_append s bytes) ≡ contents s ++ bytes)
unfolding rx_append
rx_append_lem s bytes v = (
  ground (arith, length-append s.rx_buf bytes),
  drop-append s.rx_read_pos s.rx_buf bytes v.pos_in,
)

rx_advance_lem :
    (s : Ota) (n : ℕ)
    → RxValid s
    → s.rx_read_pos + n ≤ length s.rx_buf
    → RxValid (rx_advance s n) × (contents (rx_advance s n) ≡ drop n (contents s))
unfolding rx_advance
rx_advance_lem s n v h =
    ground (arith, drop-drop s.rx_read_pos n s.rx_buf, drop_all (s.rx_read_pos + n) s.rx_buf)

-- A read hands over the oldest bytes, `len` of them or all there are, and keeps the rest in order;
-- nothing but the buffer and the read position changes.
pub record Reads (s : Ota) (len : ℕ) (got : List ℕ) (s' : Ota) : Type 0 where
  pub got_oldest : got ≡ take len (contents s)
  pub rest : contents s' ≡ drop len (contents s)
  pub valid : RxValid s'
  pub frame : s' ≡ record s { rx_buf = s'.rx_buf; rx_read_pos = s'.rx_read_pos }

take_min : (n : ℕ) (xs : List ℕ) → take (if ltb (length xs) n then length xs else n) xs ≡ take n xs
take_min n xs = ground (arith, take_all n xs, take_all (length xs) xs)

drop_min : (n : ℕ) (xs : List ℕ) → drop (if ltb (length xs) n then length xs else n) xs ≡ drop n xs
drop_min n xs = ground (arith, drop_all n xs, drop_all (length xs) xs)

rx_advance-frame :
    (s : Ota) (n : ℕ)
    → rx_advance s n
      ≡ record s { rx_buf = (rx_advance s n).rx_buf; rx_read_pos = (rx_advance s n).rx_read_pos }
unfolding rx_advance
rx_advance-frame s n = ground arith

-- On a valid receive buffer, a read of `len` bytes hands over the oldest `len` waiting bytes, or all
-- there are, keeps the others in order and the buffer valid, and changes no other field.
pub rx_read_lem :
    (s : Ota) (len : ℕ) → RxValid s → let (got, s') = rx_read s len in Reads s len got s'
unfolding rx_read
rx_read_lem s len v = elim (Bool-cases (rx_available s == 0)) [
  | inl e ↦ rw e (record {
    got_oldest = rw (empty e) (sym (take-nil len));
    rest = rw (empty e) (sym (drop-nil len));
    valid = v;
    frame = refl;
  })
  | inr e ↦
      rw (e, rx_available-length)
        (record {
          got_oldest = take_min len (contents s);
          rest = (rx_advance_lem s _ v inside).1 ∙ drop_min len (contents s);
          valid = (rx_advance_lem s _ v inside).0;
          frame = rx_advance-frame s _;
        })
]
  where
    empty : rx_available s == 0 ≡ true → contents s ≡ []
    empty e = length_zero (contents s) (ground (arith, rx_available-length s))

    inside :
        s.rx_read_pos + (if ltb (length (contents s)) len then length (contents s) else len)
        ≤ length s.rx_buf
    inside = ground (arith, length-drop s.rx_read_pos s.rx_buf, v.pos_in)
