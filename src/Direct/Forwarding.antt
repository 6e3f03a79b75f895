-- ===== src/Direct/Forwarding.antt =====
-- What a request to set a state makes a node send (components/meshmesh_direct/meshmesh_direct.cpp), a
-- remote switch's own request (components/meshmesh_direct/switch/meshmesh_switch.cpp) included.
use esphome_meshmesh.Prelude.{
  true, false, ℕ, ◌≡◌, ◌⊎◌, inl, inr, refl, Bool, Option, none, some, List, [], ◌∷◌, Bool-cases,
  length, get_elem?, leb, ◌==◌,
}
use esphome_meshmesh.Mesh.{MeshAddress}
use esphome_meshmesh.Direct.State.{
  App, Switch, Light, Effect, Library, Direct, act, cmd_entity_req, switch_entity, light_entity,
}
use esphome_meshmesh.Direct.Handlers.{
  reply, positive16, switch_effect, light_effect, set_effect, set_reply,
  handle_set_entity_state_frame,
}
use esphome_meshmesh.Direct.State.{MeshSwitch, get_entity_state_rep, meshmesh_direct_port}
use esphome_meshmesh.Direct.Sends.{remote_of, called, driven, turn, perform}
use esphome_meshmesh.Direct.EndToEnd.{set_request, passed_on, write_remote-passed_on}

-- The datagrams sent, newest first.
abbrev pub outgoing : List Effect → List (MeshAddress × List ℕ)
outgoing [] = []
outgoing (Effect.datagram to bytes ∷ t) = (to, bytes) ∷ outgoing t
outgoing (_ ∷ t) = outgoing t

-- From `s` to `t` at most one datagram goes out, and it goes to `from`.
abbrev pub Answers : MeshAddress → Direct → Direct → Type 0
Answers from s t =
    (outgoing t.trace ≡ outgoing s.trace)
    ⊎ ((bytes : List ℕ) × (outgoing t.trace ≡ (from, bytes) ∷ outgoing s.trace))

-- A reply to the sender after steps that sent nothing.
pub Answers-reply :
    (from : MeshAddress) (bytes : List ℕ) (s t : Direct)
    → outgoing t.trace ≡ outgoing s.trace
    → Answers from s (reply from bytes t)
Answers-reply from bytes s t e = inr (bytes, λ i. (from, bytes) ∷ e i)

module _ (L : Library) where
  -- Before the answer, a remote switch among the handlers asks its own node for a state.
  abbrev pub Forwards : MeshAddress → Direct → Direct → Type 0
  Forwards from s t =
      (i : ℕ) × (w : MeshSwitch) × (b : Bool) × (bytes : List ℕ) × (get_elem?
          s.command_reply_handlers i
        ≡ some w)
      × (outgoing t.trace
          ≡ (from, bytes)
            ∷ (L.mesh_address meshmesh_direct_port w.address, set_request L w b)
            ∷ outgoing s.trace)

  -- What a request asks of an entity sends nothing, or what a remote switch sends.
  abbrev Performs : Direct → Direct → Type 0
  Performs s t =
      (outgoing t.trace ≡ outgoing s.trace)
      ⊎ ((i : ℕ) × (w : MeshSwitch) × (b : Bool) × (get_elem? s.command_reply_handlers i ≡ some w)
          × (outgoing t.trace
              ≡ (L.mesh_address meshmesh_direct_port w.address, set_request L w b)
                ∷ outgoing s.trace))

  remote_of-place :
      (x : Switch) (s : Direct)
      → (remote_of x s ≡ none)
        ⊎ ((i : ℕ) × (w : MeshSwitch) × (remote_of x s ≡ some (i, w))
            × (get_elem? s.command_reply_handlers i ≡ some w))
  remote_of-place x s = at_place x.remote
    where
      found_at :
          (i : ℕ) (o : Option MeshSwitch)
          → get_elem? s.command_reply_handlers i ≡ o
          → let r = elim o as (λ _. Option (ℕ × MeshSwitch)) [
            | none ↦ none
            | some w ↦ some (i, w)
          ] in
            (r ≡ none)
            ⊎ ((j : ℕ) × (w : MeshSwitch) × (r ≡ some (j, w))
                × (get_elem? s.command_reply_handlers j ≡ some w))
      found_at i none e = inl refl
      found_at i (some w) e = inr (i, w, refl, e)

      at_place :
          (p : Option ℕ)
          → let r = elim p as (λ _. Option (ℕ × MeshSwitch)) [
            | none ↦ none
            | some i ↦
                elim (get_elem? s.command_reply_handlers i) as (λ _. Option (ℕ × MeshSwitch)) [
                  | none ↦ none
                  | some w ↦ some (i, w)
                ]
          ] in
            (r ≡ none)
            ⊎ ((i : ℕ) × (w : MeshSwitch) × (r ≡ some (i, w))
                × (get_elem? s.command_reply_handlers i ≡ some w))
      at_place none = inl refl
      at_place (some i) = found_at i (get_elem? s.command_reply_handlers i) refl

  passed_on-Performs :
      (i : ℕ) (w : MeshSwitch) (b : Bool) (s t : Direct)
      → outgoing t.trace ≡ outgoing s.trace
      → get_elem? s.command_reply_handlers i ≡ some w
      → Performs s (passed_on L (some (i, w)) b t)
  passed_on-Performs i w b s t e h = elim (Bool-cases t.socket) [
    | inl o ↦ rw o (
        inr (
          i,
          w,
          b,
          h,
          λ j. (L.mesh_address meshmesh_direct_port w.address, set_request L w b) ∷ e j,
        ))
    | inr o ↦ rw o (inl e)
  ]

  called-outgoing :
      (x : Switch) (state : Bool) (t : List Effect) → outgoing (called x state ∷ t) ≡ outgoing t
  called-outgoing x true t = refl
  called-outgoing x false t = refl

  turn-Performs : (x : Switch) (state : Bool) (s : Direct) → Performs s (turn L x state s)
  unfolding turn
  turn-Performs x state s =
      let t : Direct = act (called x state) s in
      let quiet = called-outgoing x state s.trace in
      rw (write_remote-passed_on L (remote_of x s) (driven x state) t) (elim (remote_of-place x s) [
        | inl e ↦ rw e (inl quiet)
        | inr (i, w, e, h) ↦ rw e (passed_on-Performs i w (driven x state) s t quiet h)
      ])

  -- What a request asks for, where it asks for something.
  abbrev Performed : Option Effect → Direct → Type 0
  Performed (some e) s = Performs s (perform L e s)
  Performed none s = Unit {0}

  switch_effect-Performed :
      (o : Option Switch) (type v : ℕ) (s : Direct) → Performed (switch_effect o type v) s
  unfolding switch_effect perform
  switch_effect-Performed none type v s = tt
  switch_effect-Performed (some x) type v s = elim (Bool-cases (type == 1)) [
    | inr e ↦ rw e tt
    | inl e ↦ rw e (elim (Bool-cases (positive16 v)) [
      | inl p ↦ rw p (turn-Performs x true s)
      | inr p ↦ rw p (turn-Performs x false s)
    ])
  ]

  light_effect-Performed :
      (o : Option Light) (type v : ℕ) (s : Direct) → Performed (light_effect o type v) s
  unfolding light_effect perform
  light_effect-Performed none type v s = tt
  light_effect-Performed (some x) type v s = elim (Bool-cases (type == 1)) [
    | inr e ↦ rw e tt
    | inl e ↦ rw e (inl refl)
  ]

  set_effect-Performed :
      (app : App) (type entity hash v : ℕ) (s : Direct)
      → Performed (set_effect app type entity hash v) s
  unfolding set_effect
  set_effect-Performed app type entity hash v s = elim (Bool-cases (entity == switch_entity)) [
    | inl e ↦ rw e (switch_effect-Performed _ type v s)
    | inr e ↦ rw e (elim (Bool-cases (entity == light_entity)) [
      | inl l ↦ rw l (light_effect-Performed _ type v s)
      | inr l ↦ rw l tt
    ])
  ]

  set_reply-Sends :
      (o : Option Effect) (from : MeshAddress) (s : Direct)
      → Performed o s
      → Answers from s (set_reply L o from s) ⊎ Forwards from s (set_reply L o from s)
  unfolding set_reply
  set_reply-Sends none from s h = inl (inl refl)
  set_reply-Sends (some e) from s (inl h) = inl (Answers-reply from _ s (perform L e s) h)
  set_reply-Sends (some e) from s (inr (i, w, b, p, h)) =
      inr (i, w, b, _, p, λ j. (from, cmd_entity_req ∷ get_entity_state_rep ∷ []) ∷ h j)

  pub set_entity_state-Sends :
      (app : App) (buf : List ℕ) (from : MeshAddress) (s : Direct)
      → let t = handle_set_entity_state_frame L app buf from s in
        Answers from s t ⊎ Forwards from s t
  unfolding handle_set_entity_state_frame
  set_entity_state-Sends app buf from s = elim (Bool-cases (leb 7 (length buf))) [
    | inl e ↦ rw e (set_reply-Sends _ from s (set_effect-Performed app _ _ _ _ s))
    | inr e ↦ rw e (inl (inl refl))
  ]
