-- ===== src/Direct/Replies.antt =====
-- What a frame from the mesh makes `handleFrame` send
-- (components/meshmesh_direct/meshmesh_direct.cpp).
use esphome_meshmesh.Prelude.{
  ℕ, ◌+◌, ◌%◌, ◌^◌, ◌≡◌, ◌⊎◌, inl, inr, refl, ap, subst, true, false, ◌∙◌, Bool, not, ◌||◌, Option,
  none, some, List, [], ◌∷◌, arith, Bool-cases, length, get_or, drop, ltb, ◌==◌, bit_and,
}
use esphome_meshmesh.Mesh.{MeshAddress}
use esphome_meshmesh.Direct.Sends.{word_at}
use esphome_meshmesh.Direct.State.{
  App, Switch, Library, Direct, cmd_entity_req, custom_data_req, entities_count_req,
  entities_count_rep, get_entity_hash_req, get_entity_state_req, set_entity_state_req,
  pub_entity_state_req, switch_entity,
}
use esphome_meshmesh.Direct.Find.{find_switch}
use esphome_meshmesh.Direct.Handlers.{
  reply, count, Found, deliver, publish_to, hash_reply, state_reply, handle_entities_count_frame,
  handle_get_entity_hash_frame, handle_get_entity_state_frame, handle_set_entity_state_frame,
  handle_publish_entity_state_frame, handle_custom_data_frame,
}
use esphome_meshmesh.Direct.Remote.{
  handle_command_reply, handle_request, handle_entity_frame, handle_frame,
}
use esphome_meshmesh.Direct.Forwarding.{
  outgoing, Answers, Answers-reply, Forwards, set_entity_state-Sends,
}

entities_count-Answers :
    (app : App) (buf : List ℕ) (from : MeshAddress) (s : Direct)
    → Answers from s (handle_entities_count_frame app buf from s)
unfolding handle_entities_count_frame
entities_count-Answers app buf from s = elim (Bool-cases (length buf == 1)) [
  | inl e ↦ rw e (inr (_, refl))
  | inr e ↦ rw e (inl refl)
]

outgoing-deliver :
    (hs : List ℕ) (address : ℕ) (payload : List ℕ) (s : Direct)
    → outgoing (deliver hs address payload s).trace ≡ outgoing s.trace
unfolding deliver
outgoing-deliver [] address payload s = refl
outgoing-deliver (h ∷ hs) address payload s = outgoing-deliver hs address payload _

custom_data-Answers :
    (buf : List ℕ) (from : MeshAddress) (s : Direct)
    → Answers from s (handle_custom_data_frame buf from s)
unfolding handle_custom_data_frame
custom_data-Answers buf from s = elim (Bool-cases (ltb 1 (length buf))) [
  | inl e ↦ rw e (inl (outgoing-deliver _ _ _ s))
  | inr e ↦ rw e (inl refl)
]

publish_to-outgoing :
    (o : Option Switch) (b : Bool) (s : Direct)
    → outgoing (publish_to o b s).trace ≡ outgoing s.trace
unfolding publish_to
publish_to-outgoing (some x) b s = refl
publish_to-outgoing none b s = refl

module _ (L : Library) where
  hash_reply-Answers :
      (o : Option (ℕ × List ℕ)) (from : MeshAddress) (s : Direct)
      → Answers from s (hash_reply L o from s)
  unfolding hash_reply
  hash_reply-Answers (some (hash, info)) from s = inr (_, refl)
  hash_reply-Answers none from s = inr (_, refl)

  state_reply-Answers :
      (f : Found) (hash : ℕ) (from : MeshAddress) (s : Direct)
      → Answers from s (state_reply L f hash from s)
  unfolding state_reply
  state_reply-Answers (Found.number v) hash from s = inr (_, refl)
  state_reply-Answers (Found.text t) hash from s =
      elim (Bool-cases (ltb ((5 + length t) % 2 ^ 16) (5 + length t))) [
        | inl e ↦ rw e (inr (_, refl))
        | inr e ↦ rw e (inr (_, refl))
      ]
  state_reply-Answers Found.unknown hash from s = inl refl

  get_entity_hash-Answers :
      (app : App) (buf : List ℕ) (from : MeshAddress) (s : Direct)
      → Answers from s (handle_get_entity_hash_frame L app buf from s)
  unfolding handle_get_entity_hash_frame
  get_entity_hash-Answers app buf from s = elim (Bool-cases (length buf == 3)) [
    | inl e ↦ rw e (hash_reply-Answers _ from s)
    | inr e ↦ rw e (inl refl)
  ]

  get_entity_state-Answers :
      (app : App) (buf : List ℕ) (from : MeshAddress) (s : Direct)
      → Answers from s (handle_get_entity_state_frame L app buf from s)
  unfolding handle_get_entity_state_frame
  get_entity_state-Answers app buf from s = elim (Bool-cases (length buf == 4)) [
    | inl e ↦ rw e (state_reply-Answers _ _ from s)
    | inr e ↦ rw e (inl refl)
  ]

  publish-Answers :
      (app : App) (buf : List ℕ) (from : MeshAddress) (s : Direct)
      → Answers from s (handle_publish_entity_state_frame L app buf from s)
  unfolding handle_publish_entity_state_frame
  publish-Answers app buf from s =
      let x = find_switch (word_at L buf 2) app in
      let b = ltb 0 (word_at L buf 4) in
      elim (Bool-cases (length buf == 6)) [
        | inr e ↦ rw e (inl refl)
        | inl e ↦ rw e (elim (Bool-cases (get_or buf 1 0 == switch_entity)) [
          | inl z ↦ rw z (Answers-reply from _ s (publish_to x b s) (publish_to-outgoing x b s))
          | inr z ↦ rw z (inr (_, refl))
        ])
      ]

  -- At most an answer goes out, or, on a request to set a state, an answer after a remote switch's
  -- request.
  abbrev pub Sends : MeshAddress → ℕ → Direct → Direct → Type 0
  Sends from cmd s t = Answers from s t ⊎ ((cmd ≡ set_entity_state_req) × Forwards L from s t)

  set_request-Sends :
      (app : App) (buf : List ℕ) (from : MeshAddress) (s : Direct)
      → get_or buf 0 0 ≡ set_entity_state_req
      → Sends from (get_or buf 0 0) s (handle_set_entity_state_frame L app buf from s)
  set_request-Sends app buf from s e = elim (set_entity_state-Sends L app buf from s) [
    | inl a ↦ inl a
    | inr f ↦ inr (e, f)
  ]

  handle_request-Sends :
      (app : App) (buf : List ℕ) (from : MeshAddress) (s : Direct)
      → Sends from (get_or buf 0 0) s (handle_request L app buf from s)
  unfolding handle_request
  handle_request-Sends app buf from s =
      let is = λ (k : ℕ). Bool-cases (get_or buf 0 0 == k) in
      elim (is entities_count_req) [
        | inl a ↦ rw a (inl (entities_count-Answers app buf from s))
        | inr a ↦ rw a (elim (is get_entity_hash_req) [
          | inl b ↦ rw b (inl (get_entity_hash-Answers app buf from s))
          | inr b ↦ rw b (elim (is get_entity_state_req) [
            | inl c ↦ rw c (inl (get_entity_state-Answers app buf from s))
            | inr c ↦ rw c (elim (is set_entity_state_req) [
              | inl d ↦ rw d (set_request-Sends app buf from s (ground (arith, d)))
              | inr d ↦ rw d (elim (is pub_entity_state_req) [
                | inl e ↦ rw e (inl (publish-Answers app buf from s))
                | inr e ↦ rw e (elim (is custom_data_req) [
                  | inl f ↦ rw f (inl (custom_data-Answers buf from s))
                  | inr f ↦ rw f (inl (inl refl))
                ])
              ])
            ])
          ])
        ])
      ]

  handle_command_reply-trace :
      (buf : List ℕ) (s : Direct) → (handle_command_reply L buf s).trace ≡ s.trace
  unfolding handle_command_reply
  handle_command_reply-trace buf s = ground arith

  Answers-from :
      (from : MeshAddress) (s u t : Direct)
      → u.trace ≡ s.trace
      → Answers from u t
      → Answers from s t
  Answers-from from s u t e (inl h) = inl (h ∙ ap outgoing e)
  Answers-from from s u t e (inr (bytes, h)) =
      inr (bytes, h ∙ ap (λ o. (from, bytes) ∷ outgoing o) e)

  -- An odd command is no request to set a state.
  odd-Answers :
      (from : MeshAddress) (cmd : ℕ) (s t : Direct)
      → (bit_and cmd 0x01 == 0) ≡ false
      → Sends from cmd s t
      → Answers from s t
  odd-Answers from cmd s t z (inl a) = a
  odd-Answers from cmd s t z (inr (e, f)) =
      let even : (bit_and cmd 0x01 == 0) ≡ true = ap (λ (k : ℕ). bit_and k 0x01 == 0) e in
      absurd (ground (arith, even, z))

  handle_entity_frame-Sends :
      (app : App) (buf : List ℕ) (from : MeshAddress) (s : Direct)
      → Sends from (get_or buf 0 0) s (handle_entity_frame L app buf from s)
  unfolding handle_entity_frame
  handle_entity_frame-Sends app buf from s = elim (Bool-cases (ltb (length buf) 1)) [
    | inl e ↦ rw e (inl (inl refl))
    | inr e ↦ rw e (elim (Bool-cases (bit_and (get_or buf 0 0) 0x01 == 0)) [
      | inl z ↦ rw z (handle_request-Sends app buf from s)
      | inr z ↦
          let u = handle_command_reply L buf s in
          let t = handle_request L app buf from u in
          rw z (
            inl (
              Answers-from from s u t (handle_command_reply-trace buf s)
                (odd-Answers from (get_or buf 0 0) u t z (handle_request-Sends app buf from u))))
    ])
  ]

  -- Whatever frame comes in, at most one answer goes out, to the frame's sender. Nothing else does,
  -- but that a request to set a state may reach a remote switch among the handlers: then one request
  -- for a state goes out before the answer, to that switch's own node.
  pub handle_frame-Sends :
      (app : App) (frame : List ℕ) (from : MeshAddress) (s : Direct)
      → Sends from (get_or frame 1 0) s (handle_frame L app frame from s)
  unfolding handle_frame
  handle_frame-Sends app frame from s =
      elim (Bool-cases (ltb (length frame) 1 || not (get_or frame 0 0 == cmd_entity_req))) [
        | inl e ↦ rw e (inl (inl refl))
        | inr e ↦ rw e (
            subst (λ (k : ℕ). Sends from k s (handle_entity_frame L app (drop 1 frame) from s))
              (second frame) (handle_entity_frame-Sends app (drop 1 frame) from s))
      ]
    where
      second : (xs : List ℕ) → get_or (drop 1 xs) 0 0 ≡ get_or xs 1 0
      second [] = refl
      second (x ∷ xs) = refl

-- The reply to a request for the counts, which is a lone command byte, is addressed to the sender
-- and carries the number of entities of all kinds and of each kind, all modulo 256.
pub handle_entities_count_frame_lem :
    (app : App) (from : MeshAddress) (s : Direct)
    → let sensors = length app.sensors in
      let binaries = length app.binary_sensors in
      let switches = length app.switches in
      let lights = length app.lights in
      let texts = length app.text_sensors in
      handle_entities_count_frame app (entities_count_req ∷ []) from s
      ≡ reply from
          (cmd_entity_req
            ∷ entities_count_rep
            ∷ (sensors + binaries + switches + lights + texts) % 2 ^ 8
            ∷ sensors % 2 ^ 8
            ∷ binaries % 2 ^ 8
            ∷ switches % 2 ^ 8
            ∷ lights % 2 ^ 8
            ∷ texts % 2 ^ 8
            ∷ [])
          s
unfolding handle_entities_count_frame count
handle_entities_count_frame_lem app from s = ground arith
