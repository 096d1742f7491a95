-- ===== src/Pool/Owners.antt =====
-- Who has to close a connection: the pool, or one call.
use mathlib.Core.Option.{some-injective}
use aether_serve.Base.{
  ℕ, zero, suc, ◌+◌, ◌≤◌, ◌≡◌, refl, ap, Bool, true, false, none, some, List, [], ◌∷◌, ◌++◌, length,
  get_elem?, set, if◌then◌else◌, ◌==◌, arith, All,
}
use aether_serve.Base.Text.{GoString}
use aether_serve.Base.Map.{Map, lookup, insert, erase, values}
use aether_serve.Pool.{
  Shared, Call, asks, dials, dialed, discards, returns, fails, invalidates, shuts, closes, is_over,
  Move, hit, miss, dial_fails, dial, publish, late, discard, invalidate_none, invalidate, shut,
  close_next, System, Begins, Step, call, move, Reach, start, later,
}

abbrev pub count : ℕ → List ℕ → ℕ
count c [] = 0
count c (d ∷ ds) = (if d == c then 1 else 0) + count c ds

-- How often a call has to close a connection.
abbrev pub held : ℕ → Call → ℕ
held c (dialed a d) = if d == c then 1 else 0
held c (discards d e) = if d == c then 1 else 0
held c (closes ds) = count c ds
held c _ = 0

abbrev pub total : ℕ → List Call → ℕ
total c [] = 0
total c (p ∷ ps) = held c p + total c ps

abbrev pub is_live : List Bool → ℕ → ℕ
is_live live c = elim (get_elem? live c) [ none ↦ 0 | some b ↦ if b then 1 else 0 ]

-- Every connection has as many owners as it is open times: one if it is open, none if it is closed.
pub record IsOwned (s : System) : Type 0 where
  pub owned :
      (c : ℕ) → count c (values s.shared.connections) + total c s.calls ≡ is_live s.shared.live c

total-append : (c : ℕ) (ps qs : List Call) → total c (ps ++ qs) ≡ total c ps + total c qs
total-append c [] qs = omega arith
total-append c (p ∷ ps) qs = omega (arith, total-append c ps qs)

total-set :
    (c : ℕ) (ps : List Call) (i : ℕ) (p q : Call)
    → get_elem? ps i ≡ some p
    → total c (set ps i q) + held c p ≡ total c ps + held c q
total-set c [] i p q e = absurd (cc)
total-set c (r ∷ ps) zero p q e = ground (arith, ap (held c) (some-injective _ _ e))
total-set c (r ∷ ps) (suc i) p q e = omega (arith, total-set c ps i p q e)

count-insert :
    (c : ℕ) (a : GoString) (d : ℕ) (m : Map ℕ)
    → lookup a m ≡ none
    → count c (values (insert a d m)) ≡ count c (values m) + (if d == c then 1 else 0)
unfolding lookup insert
count-insert c a d [] e = omega arith
count-insert c a d ((b, x) ∷ m) e = ground (arith, count-insert c a d m)

count-erase :
    (c : ℕ) (a : GoString) (d : ℕ) (m : Map ℕ)
    → lookup a m ≡ some d
    → count c (values (erase a m)) + (if d == c then 1 else 0) ≡ count c (values m)
unfolding lookup erase
count-erase c a d [] e = absurd (cc)
count-erase c a d ((b, x) ∷ m) e = ground (arith, count-erase c a d m)

live-append :
    (live : List Bool) (c : ℕ)
    → is_live (live ++ true ∷ []) c ≡ is_live live c + (if length live == c then 1 else 0)
live-append [] zero = refl
live-append [] (suc c) = ground arith
live-append (b ∷ live) zero = ground arith
live-append (b ∷ live) (suc c) = ground (arith, live-append live c)

live-set :
    (live : List Bool) (d c : ℕ)
    → is_live (set live d false) c ≡ (if d == c then 0 else is_live live c)
live-set [] d c = ground arith
live-set (b ∷ live) zero zero = refl
live-set (b ∷ live) zero (suc c) = ground arith
live-set (b ∷ live) (suc d) zero = ground arith
live-set (b ∷ live) (suc d) (suc c) = ground (arith, live-set live d c)

is_live-le : (live : List Bool) (c : ℕ) → is_live live c ≤ 1
is_live-le [] c = omega arith
is_live-le (b ∷ live) zero = ground arith
is_live-le (b ∷ live) (suc c) = is_live-le live c

-- What a step of one call does to the owners, where the other calls have `o` of each.
Move-owned :
    {m n : Shared} {p q : Call} (o : ℕ → ℕ)
    → Move m p n q
    → ((c : ℕ) → count c (values m.connections) + held c p + o c ≡ is_live m.live c)
    → (c : ℕ) → count c (values n.connections) + held c q + o c ≡ is_live n.live c
Move-owned o (hit e) h c = h c
Move-owned o (miss e) h c = h c
Move-owned o dial_fails h c = h c
Move-owned {m} o dial h c = omega (arith, h c, live-append m.live c)
Move-owned {m} o (publish {a = a} {c = d} e) h c =
    omega (arith, h c, count-insert c a d m.connections e)
Move-owned o (late e) h c = h c
Move-owned {m} o (discard {c = d} {d = x}) h c =
    ground (arith, h c, live-set m.live d c, is_live-le m.live c)
Move-owned o (invalidate_none e) h c = h c
Move-owned {m} o (invalidate {a = a} {c = d} e) h c =
    omega (arith, h c, count-erase c a d m.connections e)
Move-owned o shut h c = omega (arith, h c)
Move-owned {m} o (close_next {c = d} {cs = cs}) h c =
    ground (arith, h c, live-set m.live d c, is_live-le m.live c)

Begins-held : (c : ℕ) (p : Call) → Begins p → held c p ≡ 0
Begins-held c (asks a) b = refl
Begins-held c (invalidates a) b = refl
Begins-held c shuts b = refl
Begins-held c (dials a) b = absurd b
Begins-held c (dialed a d) b = absurd b
Begins-held c (discards d e) b = absurd b
Begins-held c (returns d) b = absurd b
Begins-held c fails b = absurd b
Begins-held c (closes ds) b = absurd b

Step-IsOwned : {s t : System} → Step s t → IsOwned s → IsOwned t
Step-IsOwned {s} (call p b) v = record {
  owned = λ c. omega (arith, v.owned c, total-append c s.calls (p ∷ []), Begins-held c p b);
}
Step-IsOwned {s} (move i {p = p} {q = q} e mv) v =
    let o = λ (c : ℕ). total c (set s.calls i (closes [])) in
    record {
      owned = λ c. omega (
        arith,
        Move-owned o mv (λ d. omega (arith, v.owned d, total-set d s.calls i p (closes []) e)) c,
        total-set c s.calls i p q e,
        total-set c s.calls i p (closes []) e,
      );
    }

-- However the calls interleave, every connection ever dialled has exactly as many owners (its entries in the pool, and the
-- calls that still have to publish or close it) as it is open: one while it is open, and none when it is closed.
pub Reach-IsOwned : {s : System} → Reach s → IsOwned s
Reach-IsOwned start = record { owned = λ c. refl }
Reach-IsOwned (later r st) = Step-IsOwned st (Reach-IsOwned r)

over-held : (c : ℕ) (ps : List Call) → All (λ p. is_over p ≡ true) ps → total c ps ≡ 0
over-held c [] h = refl
over-held c (returns d ∷ ps) h = omega (arith, over-held c ps h.1)
over-held c (fails ∷ ps) h = omega (arith, over-held c ps h.1)
over-held c (closes [] ∷ ps) h = omega (arith, over-held c ps h.1)
over-held c (closes (d ∷ ds) ∷ ps) h = absurd (ground arith)
over-held c (asks a ∷ ps) h = absurd (ground arith)
over-held c (dials a ∷ ps) h = absurd (ground arith)
over-held c (dialed a d ∷ ps) h = absurd (ground arith)
over-held c (discards d e ∷ ps) h = absurd (ground arith)
over-held c (invalidates a ∷ ps) h = absurd (ground arith)
over-held c (shuts ∷ ps) h = absurd (ground arith)

-- Nothing leaks: at any moment when all calls of the pool are over, however they interleaved, a connection is open exactly
-- if the pool holds it, and then it holds it once. What a caller does with a connection after its call is not
-- covered: a stream may still use one that `Invalidate` closes.
pub Reach-settled :
    {s : System}
    → Reach s
    → All (λ p. is_over p ≡ true) s.calls
    → (c : ℕ) → count c (values s.shared.connections) ≡ is_live s.shared.live c
Reach-settled {s} r over c = omega (arith, (Reach-IsOwned r).owned c, over-held c s.calls over)
