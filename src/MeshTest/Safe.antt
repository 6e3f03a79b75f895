-- ===== src/MeshTest/Safe.antt =====
-- The firmware that tests the mesh uses its socket only while it has one, and its tests only go
-- forward (components/meshmesh_test).
use esphome_meshmesh.Prelude.{
  ltb, if◌then◌else◌, Returns, fault, ℕ, ◌≤◌, ◌≡◌, refl, sym, ap, ◌∙◌, ◌≢◌, ◌⊎◌, inl, inr, Bool,
  true, false, List, [], ◌∷◌, arith,
}
use esphome_meshmesh.Mesh.{MeshAddress, sub32}
use esphome_meshmesh.MeshTest.State.{
  State, Received, Input, MeshmeshTest, is_director, change_state, err_check, timeout_check,
}
use esphome_meshmesh.MeshTest.Steps.{
  close_test_resources, open_test_socket, after_open_sub_state, open_case, send_case, received_case,
  recv_case, end_case, open_callback_case,
}

-- Before and after the tests.
abbrev pub idle : State → Bool
idle State.wait_start = true
idle State.done = true
idle _ = false

abbrev pub rank : State → ℕ
rank State.wait_start = 0
rank State.broadcast1 = 1
rank State.broadcast2 = 2
rank State.unicast1 = 3
rank State.unicast2 = 4
rank State.done = 5

abbrev pub InRange : ℕ → Type 0
InRange n = (n ≤ 8) ⊎ ((n ≡ 98) ⊎ (n ≡ 99))

-- There is a buffer where there is a socket; there is a socket in the sub-states 1 to 8, which use
-- it; and before and after the tests there is none.
pub record Fits (s : MeshmeshTest) : Type 0 where
  pub buffers : s.buffer ≡ s.socket
  pub needs : 1 ≤ s.sub_state → s.sub_state ≤ 8 → s.socket ≡ true
  pub range : InRange s.sub_state
  pub rests : idle s.state ≡ true → (s.sub_state ≡ 0) × (s.socket ≡ false)

abbrev pub Good : MeshmeshTest → MeshmeshTest → Type 0
Good s t = Fits t × (rank s.state ≤ rank t.state)

pub true_not_false : true ≢ false
true_not_false e = cc

-- What holds of either branch, or of the one that is taken.
pub either : {A : Type 0} (Q : A → Type 0) (b : Bool) (x y : A) → Q x → Q y → Q (if b then x else y)
either Q true x y q r = q
either Q false x y q r = r

pub taken :
    {A : Type 0} (Q : A → Type 0) (b : Bool) (x y : A) → b ≡ true → Q x → Q (if b then x else y)
taken Q true x y e q = q
taken Q false x y e q = absurd (true_not_false (sym e))

pub pick :
    {A : Type 0} (Q : A → Type 0) (b : Bool) (x y : A)
    → (b ≡ true → Q x)
    → Q y
    → Q (if b then x else y)
pick Q true x y q r = q refl
pick Q false x y q r = r

module _ (s : MeshmeshTest) (fits : Fits s) (busy : idle s.state ≡ false) where
  contra : {A : Type 0} → idle s.state ≡ true → A
  contra e = absurd (true_not_false (sym e ∙ busy))

  -- A state with the same socket or a new one.
  pub moved :
      (t : MeshmeshTest) (n now : ℕ)
      → t.state ≡ s.state
      → t.buffer ≡ t.socket
      → ((1 ≤ n) → (n ≤ 8) → t.socket ≡ true)
      → InRange n
      → Good s (change_state t.state n now t)
  unfolding change_state
  moved t n now e b k r = (
    record { buffers = b; needs = k; range = r; rests = λ q. contra (sym (ap idle e) ∙ q) },
    omega (arith, ap rank e),
  )

  pub stays : Good s s
  stays = (fits, omega arith)

  pub failed-Good :
      (t : MeshmeshTest) (now : ℕ)
      → t.state ≡ s.state
      → t.buffer ≡ t.socket
      → Good s (change_state t.state 98 now t)
  failed-Good t now e b = moved t 98 now e b (λ l m. absurd (omega arith)) (inr (inl refl))

  pub timeout_check-Good :
      (limit : ℕ) (i : Input) (t : MeshmeshTest)
      → Good s t
      → t.state ≡ s.state
      → t.buffer ≡ t.socket
      → Good s (timeout_check limit i t)
  unfolding timeout_check
  timeout_check-Good limit i t g e b =
      either (Good s) (ltb limit (sub32 i.now t.last_time)) _ _ (failed-Good t i.later e b) g

  pub open_case-Good : (i : Input) → Returns (Good s) (open_case i s)
  unfolding open_case err_check open_test_socket close_test_resources after_open_sub_state
  open_case-Good i =
      either (Good s) i.opens _ _
        (moved _ (if is_director s then 1 else 2) i.later refl refl (λ l m. refl)
          (inl (either (λ n. n ≤ 8) (is_director s) 1 2 (omega arith) (omega arith))))
        (failed-Good _ i.later refl refl)

  pub open_callback_case-Good : (i : Input) → Returns (Good s) (open_callback_case i s)
  unfolding open_callback_case err_check open_test_socket close_test_resources after_open_sub_state
  open_callback_case-Good i =
      either (Good s) i.opens _ _
        (moved _ (if is_director s then 1 else 2) i.later refl refl (λ l m. refl)
          (inl (either (λ n. n ≤ 8) (is_director s) 1 2 (omega arith) (omega arith))))
        (failed-Good _ i.later refl refl)

  pub send_case-Good :
      (target : MeshAddress) (text : List ℕ) (next : ℕ) (i : Input)
      → s.socket ≡ true
      → InRange next
      → Returns (Good s) (send_case target text next i s)
  unfolding send_case err_check
  send_case-Good target text next i h r = taken (Returns (Good s)) s.socket _ fault h (
      either (Good s) i.sends _ _ (moved _ next i.later refl fits.buffers (λ l m. h) r)
        (failed-Good _ i.later refl fits.buffers))

  pub heard : (from : MeshAddress) (rssi : ℕ) → Good s (record s { from = from; rssi = rssi })
  heard from rssi = (
    record { buffers = fits.buffers; needs = fits.needs; range = fits.range; rests = fits.rests },
    omega arith,
  )

  received_case-Good :
      (r : Received) (next : List ℕ → ℕ) (limit : ℕ) (i : Input)
      → s.socket ≡ true
      → ((bytes : List ℕ) → InRange (next bytes))
      → Good s (received_case r next limit i s)
  unfolding received_case
  received_case-Good Received.failed next limit i h k = failed-Good s i.later refl fits.buffers
  received_case-Good (Received.got [] from rssi) next limit i h k =
      timeout_check-Good limit i (record s { from = from; rssi = rssi }) (heard from rssi) refl
        fits.buffers
  received_case-Good (Received.got (b ∷ bs) from rssi) next limit i h k =
      moved (record s { from = from; rssi = rssi }) (next (b ∷ bs)) i.later refl fits.buffers
        (λ l m. h) (k (b ∷ bs))

  pub recv_case-Good :
      (next : List ℕ → ℕ) (limit : ℕ) (i : Input)
      → s.socket ≡ true
      → ((bytes : List ℕ) → InRange (next bytes))
      → Returns (Good s) (recv_case next limit i s)
  unfolding recv_case
  recv_case-Good next limit i h k =
      taken (Returns (Good s)) s.socket _ fault h (received_case-Good i.received next limit i h k)

  pub end_case-Good :
      (next : State) (i : Input) → rank s.state ≤ rank next → Returns (Good s) (end_case next i s)
  unfolding end_case change_state close_test_resources
  end_case-Good next i l = (
    record {
      buffers = refl;
      needs = λ m n. absurd (omega arith);
      range = inl (omega arith);
      rests = λ e. (refl, refl);
    },
    l,
  )
