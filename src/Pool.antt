-- ===== src/Pool.antt =====
-- internal/workerclient/client.go: the pool of connections to workers, with any number of calls at once. What stands between
-- two uses of the pool's mutex is one step of a call; dialling and closing happen outside of it. The errors
-- of closing are left out.
pub mod Owners
use aether_serve.Base.{
  ℕ, ◌+◌, ◌<◌, ◌≡◌, Bool, true, false, Option, none, some, List, [], ◌∷◌, ◌++◌, map, length,
  get_elem?, set,
}
use aether_serve.Base.Text.{GoString}
use aether_serve.Base.Map.{Map, lookup, insert, erase, values}

-- A connection is its place in the list of those ever dialled; `live` says whether it is open.
pub record Shared : Type 0 where
  pub connections : Map ℕ
  pub live : List Bool

-- Where a call of `Client`, `Invalidate` or `Close` stands, with its local variables.
pub data Call : Type 0 where
  asks : GoString → Call
  dials : GoString → Call
  dialed : GoString → ℕ → Call
  discards : ℕ → ℕ → Call
  returns : ℕ → Call
  fails : Call
  invalidates : GoString → Call
  shuts : Call
  closes : List ℕ → Call

-- A call that is over.
abbrev pub is_over : Call → Bool
is_over (returns c) = true
is_over fails = true
is_over (closes []) = true
is_over _ = false

-- `connection.Close()`.
abbrev pub close : Shared → ℕ → Shared
close m c = record m { live = set m.live c false }

-- One step of one call.
pub data Move (m : Shared) : Call → Shared → Call → Type 0 where
  hit : {a : GoString} {c : ℕ} → lookup a m.connections ≡ some c → Move m (asks a) m (returns c)
  miss : {a : GoString} → lookup a m.connections ≡ none → Move m (asks a) m (dials a)
  dial_fails : {a : GoString} → Move m (dials a) m fails
  dial :
      {a : GoString}
      → Move m (dials a) (record m { live = m.live ++ true ∷ [] }) (dialed a (length m.live))
  publish :
      {a : GoString} {c : ℕ}
      → lookup a m.connections ≡ none
      → Move m (dialed a c) (record m { connections = insert a c m.connections }) (returns c)
  -- Another call was first: the connection just dialled is closed.
  late :
      {a : GoString} {c d : ℕ}
      → lookup a m.connections ≡ some d
      → Move m (dialed a c) m (discards c d)
  discard : {c d : ℕ} → Move m (discards c d) (close m c) (returns d)
  invalidate_none :
      {a : GoString} → lookup a m.connections ≡ none → Move m (invalidates a) m (closes [])
  invalidate :
      {a : GoString} {c : ℕ}
      → lookup a m.connections ≡ some c
      → Move m (invalidates a) (record m { connections = erase a m.connections }) (closes (c ∷ []))
  shut : Move m shuts (record m { connections = [] }) (closes (values m.connections))
  close_next : {c : ℕ} {cs : List ℕ} → Move m (closes (c ∷ cs)) (close m c) (closes cs)

-- The pool and the calls on it.
pub record System : Type 0 where
  pub shared : Shared
  pub calls : List Call

-- A call that begins: nothing is done yet.
abbrev pub Begins : Call → Type 0
Begins (asks a) = Unit
Begins (invalidates a) = Unit
Begins shuts = Unit
Begins _ = ⊥

pub data Step (s : System) : System → Type 0 where
  call : (p : Call) → Begins p → Step s (record s { calls = s.calls ++ p ∷ [] })
  move :
      (i : ℕ) {p q : Call} {m : Shared}
      → get_elem? s.calls i ≡ some p
      → Move s.shared p m q
      → Step s (record { shared = m; calls = set s.calls i q })

-- `NewPool`.
abbrev pub new : System
new = record { shared = record { connections = []; live = [] }; calls = [] }

pub data Reach : System → Type 0 where
  start : Reach new
  later : {s t : System} → Reach s → Step s t → Reach t
