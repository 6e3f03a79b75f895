-- ===== src/Ota/Response.antt =====
-- The response to the challenge of the OTA handshake (components/meshmesh/ota/ota_meshmesh.cpp),
-- apart from the buffer that the code keeps it in.
use esphome_meshmesh.Prelude.{
  ℕ, ◌+◌, ◌-◌, ◌≤◌, ◌<◌, ◌≡◌, refl, sym, ap, ◌∙◌, Bool, List, [], ◌∷◌, ◌++◌, arith, length, take,
  drop, blit, length-append, length-take, length-drop, length-blit, take-blit, take_all, take-take,
  take-append-drop, take_past, drop-append, drop-drop, drop_all, append_assoc, take-nil, suc,
}
use esphome_meshmesh.Ota.State.{Platform, Ota}
use esphome_meshmesh.Ota.Auth.{response_matches}
use esphome_meshmesh.Ota.Queue.{contents}

-- The characters that the peer still owes.
abbrev pub owed : Ota → ℕ
owed s = 128 - s.auth_buf_pos

-- The challenge buffer once the characters that wait are in.
abbrev pub received : Ota → List ℕ → List ℕ
received s buf = blit buf (65 + s.auth_buf_pos) (take (owed s) (contents s))

-- The 64 characters of the nonce that the challenge has sent, behind the byte of its type.
abbrev pub nonce_of : List ℕ → List ℕ
nonce_of buf = take 64 (drop 1 buf)

-- The peer's 128 characters: those that earlier passes have stored, and those that wait.
abbrev pub answer : Ota → List ℕ → List ℕ
answer s buf = drop 65 (take (65 + s.auth_buf_pos) buf) ++ take (owed s) (contents s)

-- The last 64 characters of the answer are the digest over the password, the nonce and the first 64,
-- which are the client's nonce.
abbrev pub proves : Platform → List ℕ → List ℕ → List ℕ → Bool
proves P password nonce text = P.equals_hex (password ++ (nonce ++ take 64 text)) (drop 64 text)

drop-take : (n : ℕ) (xs : List ℕ) → drop 1 (take (suc n) xs) ≡ take n (drop 1 xs)
drop-take n [] = sym (take-nil n)
drop-take n (x ∷ xs) = refl

received_lem :
    (s : Ota) (buf : List ℕ)
    → length buf ≡ 193
    → s.auth_buf_pos < 128
    → owed s ≤ length (contents s)
    → received s buf ≡ take 65 buf ++ answer s buf
received_lem s buf n p h =
    let got = take (owed s) (contents s) in
    let old = take (65 + s.auth_buf_pos) buf in
    let m : length got ≡ owed s = omega (arith, length-take (owed s) (contents s), h) in
    sym
      (take_all 193 (received s buf) (omega (arith, length-blit buf (65 + s.auth_buf_pos) got, n)))
    ∙ take-blit buf (65 + s.auth_buf_pos) got 193 (omega (arith, m, p)) (omega (arith, n))
    ∙ ap (λ k. k ++ got) (sym (take-append-drop 65 old))
    ∙ append_assoc (take 65 old) (drop 65 old) got
    ∙ ap (λ k. k ++ answer s buf) (take-take 65 (65 + s.auth_buf_pos) buf (omega arith))

length-answer :
    (s : Ota) (buf : List ℕ)
    → length buf ≡ 193
    → s.auth_buf_pos < 128
    → owed s ≤ length (contents s)
    → length (answer s buf) ≡ 128
length-answer s buf n p h = omega (
  arith,
  n,
  p,
  h,
  length-append (drop 65 (take (65 + s.auth_buf_pos) buf)) (take (owed s) (contents s)),
  length-drop 65 (take (65 + s.auth_buf_pos) buf),
  length-take (65 + s.auth_buf_pos) buf,
  length-take (owed s) (contents s),
)

-- In a full buffer the code looks at the password, the nonce, the client's nonce and the response.
matches_lem :
    (P : Platform) (password buf text : List ℕ)
    → length buf ≡ 193
    → length text ≡ 128
    → response_matches P password (take 65 buf ++ text) ≡ proves P password (nonce_of buf) text
unfolding response_matches
matches_lem P password buf text n m =
    let nonce = drop 1 (take 65 buf) in
    let k : length nonce ≡ 64 = omega (arith, length-drop 1 (take 65 buf), length-take 65 buf, n) in
    let front : drop 1 (take 65 buf ++ text) ≡ nonce ++ text =
      drop-append 1 (take 65 buf) text (omega (arith, length-take 65 buf, n)) in
    let behind : drop 64 (nonce ++ text) ≡ text =
      drop-append 64 nonce text (omega (arith, k))
      ∙ ap (λ z. z ++ text) (drop_all 64 nonce (omega (arith, k))) in
    let both : take 128 (drop 1 (take 65 buf ++ text)) ≡ nonce_of buf ++ take 64 text =
      ap (take 128) front
      ∙ take_past 128 64 nonce text (omega (arith, k))
      ∙ ap (λ z. z ++ take 64 text) (drop-take 64 buf) in
    let last : take 64 (drop 128 (drop 1 (take 65 buf ++ text))) ≡ drop 64 text =
      ap (λ z. take 64 (drop 128 z)) front
      ∙ ap (take 64) (sym (drop-drop 64 64 (nonce ++ text)))
      ∙ ap (λ z. take 64 (drop 64 z)) behind
      ∙ take_all 64 (drop 64 text) (omega (arith, length-drop 64 text, m)) in
    λ i. P.equals_hex (password ++ both i) (last i)

pub response_lem :
    (P : Platform) (password : List ℕ) (s : Ota) (buf : List ℕ)
    → length buf ≡ 193
    → s.auth_buf_pos < 128
    → owed s ≤ length (contents s)
    → response_matches P password (received s buf) ≡ proves P password (nonce_of buf) (answer s buf)
response_lem P password s buf n p h =
    ap (response_matches P password) (received_lem s buf n p h)
    ∙ matches_lem P password buf (answer s buf) n (length-answer s buf n p h)
