-- ===== src/Socket/Owners.antt =====
-- Programs that use mesh sockets (components/socket/meshmesh_socket_impl.cpp), and the view in which
-- each object owns a socket and nothing else is there.
use esphome_meshmesh.Prelude.{
  if◌then◌else◌, Result, ◌>>=◌, ok, ℕ, suc, ◌+◌, Bool, false, Option, none, some, List, [], ◌∷◌,
}
use esphome_meshmesh.Socket.State.{
  minus_one, negative, SocketType, SockAddr, Library, World, put, found,
}
use esphome_meshmesh.Socket.Calls.{
  Impl, socket_type, swap16, read_code, create_socket, accept_loop_monitored, bind, listen, close,
  read, write,
}

-- Calls on the objects numbered in the order of their creation.
pub data Call : Type 0 where
  create_call : ℕ → Bool → Call
  accept_call close_call : ℕ → Call
  bind_call : ℕ → Bool → SockAddr → Call
  listen_call read_call : ℕ → ℕ → Call
  write_call : ℕ → List ℕ → Call

-- The calls that may add a socket to the table.
abbrev pub creates : Call → ℕ
creates (Call.create_call type mesh_there) = 1
creates (Call.accept_call i) = 1
creates _ = 0

abbrev pub creations : List Call → ℕ
creations [] = 0
creations (c ∷ cs) = creates c + creations cs

-- The objects so far, and the table.
pub record System (S : Type 0) : Type 0 where
  pub count : ℕ
  pub object : ℕ → Impl
  pub world : World S

-- The sockets that the objects own; a closed one owns none.
pub record Owners (S : Type 0) : Type 0 where
  pub count : ℕ
  pub own : ℕ → Option S

-- What a call answers: a number, 1 and 0 standing for an object and for none, and bytes read.
abbrev pub Answer : Type 0
Answer = ℕ × List ℕ

-- An object more.
abbrev pub joined : {S : Type 0} → Option Impl × World S → System S → Answer × System S
joined (none, w) σ = ((0, []), record σ { world = w })
joined (some o, w) σ =
    ((1, []), record { count = suc σ.count; object = put σ.count o σ.object; world = w })

abbrev pub entered : {S : Type 0} → Option S → Owners S → Answer × Owners S
entered none a = ((0, []), a)
entered (some s) a = ((1, []), record { count = suc a.count; own = put a.count (some s) a.own })

abbrev pub made : {S : Type 0} → Library S → Option SocketType → Option S
made M none = none
made M (some type) = some (M.make type)

-- The end of the socket that an object owns, if it owns one.
abbrev pub ended : {S : Type 0} → Library S → ℕ → Option S → Owners S → Answer × Owners S
ended M i none a = ((0, []), a)
ended M i (some s) a = ((M.close s, []), record a { own = put i none a.own })

module _ {S : Type 0} (M : Library S) where
  -- A call through the table.
  abbrev pub step : Call → System S → Result (Answer × System S)
  step (Call.create_call type mesh_there) σ =
      ok (joined (create_socket M type mesh_there false σ.world) σ)
  step (Call.accept_call i) σ =
      accept_loop_monitored M (σ.object i) σ.world >>= λ r. ok (joined r σ)
  step (Call.close_call i) σ = close M (σ.object i) σ.world >>= λ r.
      ok ((r.0, []), record σ { object = put i r.1.0 σ.object; world = r.1.1 })
  step (Call.bind_call i mesh_there addr) σ =
      bind M mesh_there addr (σ.object i) σ.world >>= λ r. ok ((r.0, []), record σ { world = r.1 })
  step (Call.listen_call i backlog) σ =
      listen M backlog (σ.object i) σ.world >>= λ r. ok ((r.0, []), record σ { world = r.1 })
  step (Call.read_call i len) σ =
      read M len (σ.object i) σ.world >>= λ r. ok (r.0, record σ { world = r.1 })
  step (Call.write_call i buf) σ =
      write M buf (σ.object i) σ.world >>= λ r. ok ((r.0, []), record σ { world = r.1 })

  -- A call to the socket that an object owns.
  abbrev pub own_call : (S → Answer × S) → ℕ → Owners S → Result (Answer × Owners S)
  own_call call i a =
      found (a.own i) >>= λ s. ok ((call s).0, record a { own = put i (some (call s).1) a.own })

  -- A call in the view of the owners.
  abbrev pub own_step : Call → Owners S → Result (Answer × Owners S)
  own_step (Call.create_call type mesh_there) a =
      ok (entered (if mesh_there then made M (socket_type type) else none) a)
  own_step (Call.accept_call i) a = found (a.own i) >>= λ s.
      ok (entered (M.accept s).0 (record a { own = put i (some (M.accept s).1) a.own }))
  own_step (Call.close_call i) a = ok (ended M i (a.own i) a)
  own_step (Call.bind_call i mesh_there addr) a =
      if mesh_there
      then own_call
          (λ s. (((M.bind (swap16 addr.sin_port) s).0, []), (M.bind (swap16 addr.sin_port) s).1)) i
          a
      else ok ((minus_one, []), a)
  own_step (Call.listen_call i backlog) a =
      own_call (λ s. (((M.listen backlog s).0, []), (M.listen backlog s).1)) i a
  own_step (Call.read_call i len) a =
      own_call
        (λ s.
          let r = M.recv len s in
          ((read_code M.err_buffer_too_small M.err_is_not_connected r.0.0, r.0.1), r.1))
        i a
  own_step (Call.write_call i buf) a =
      own_call (λ s. let r = M.send buf s in ((if negative r.0 then minus_one else r.0, []), r.1)) i
        a

  -- Calls one after the other, with their answers.
  abbrev pub run : List Call → System S → Result (List Answer × System S)
  run [] σ = ok ([], σ)
  run (c ∷ cs) σ = step c σ >>= λ r. run cs r.1 >>= λ t. ok (r.0 ∷ t.0, t.1)

  abbrev pub own_run : List Call → Owners S → Result (List Answer × Owners S)
  own_run [] a = ok ([], a)
  own_run (c ∷ cs) a = own_step c a >>= λ r. own_run cs r.1 >>= λ t. ok (r.0 ∷ t.0, t.1)
