-- ===== src/Base/Map.antt =====
-- Go maps keyed by strings, as association lists. What a program may not rely on, the order of
-- iteration, is the order of the list here.
use mathlib.Core.Path.{◌≡◌, refl, subst}
use mathlib.Core.Logic.{inl, inr}
use mathlib.Core.Bool.{true}
use mathlib.Core.Option.{Option, none, some}
use mathlib.Core.List.{List, [], ◌∷◌, map}
use native.Mathlib.Omega.{arith}
use aether_serve.Base.Tests.{if◌then◌else◌, Bool-cases}
use aether_serve.Base.Lists.{All}
use aether_serve.Base.Text.{GoString, str_eq, str_eq_iff}

abbrev pub Map {ℓ} : Type ℓ → Type ℓ
Map V = List (GoString × V)

module _ {ℓ} {V : Type ℓ} where
  unfoldable pub lookup : GoString → Map V → Option V
  lookup k [] = none
  lookup k ((j, v) ∷ m) = if str_eq j k then some v else lookup k m

  unfoldable pub insert : GoString → V → Map V → Map V
  insert k v [] = (k, v) ∷ []
  insert k v ((j, w) ∷ m) = if str_eq j k then (k, v) ∷ m else (j, w) ∷ insert k v m

  unfoldable pub erase : GoString → Map V → Map V
  erase k [] = []
  erase k ((j, w) ∷ m) = if str_eq j k then m else (j, w) ∷ erase k m

  abbrev pub values : Map V → List V
  values = map λ e. e.1

  pub lookup-insert :
      (k j : GoString) (v : V) (m : Map V)
      → lookup j (insert k v m) ≡ (if str_eq k j then some v else lookup j m)
  unfolding lookup insert
  lookup-insert k j v [] = refl
  lookup-insert k j v ((i, w) ∷ m) =
      ground (arith, str_eq_iff k j, str_eq_iff i k, str_eq_iff i j, lookup-insert k j v m)

  -- No key stands twice.
  abbrev pub IsMap : Map V → Type ℓ
  IsMap [] = Unit
  IsMap ((k, v) ∷ m) = (lookup k m ≡ none) × IsMap m

  pub insert-IsMap : (k : GoString) (v : V) (m : Map V) → IsMap m → IsMap (insert k v m)
  unfolding insert lookup
  insert-IsMap k v [] h = (refl, tt)
  insert-IsMap k v ((j, w) ∷ m) h =
      ground (arith, str_eq_iff j k, str_eq_iff k j, lookup-insert k j v m, insert-IsMap k v m h.1)

  -- A predicate of every entry survives a write that satisfies it.
  pub All-insert {κ} :
      (P : GoString × V → Type κ) (k : GoString) (v : V) (m : Map V)
      → All P m
      → P (k, v)
      → All P (insert k v m)
  unfolding insert
  All-insert P k v [] h p = (p, tt)
  All-insert P k v ((j, w) ∷ m) h p = elim (Bool-cases (str_eq j k)) [
    | inl e ↦ rw e (p, h.1)
    | inr e ↦ rw e (h.0, All-insert P k v m h.1 p)
  ]

  pub All-lookup {κ} :
      (P : GoString × V → Type κ) (k : GoString) (m : Map V) {v : V}
      → All P m
      → lookup k m ≡ some v
      → P (k, v)
  unfolding lookup
  All-lookup P k [] h e = absurd (cc)
  All-lookup P k ((j, w) ∷ m) {v} h e = elim (Bool-cases (str_eq j k)) [
    | inl q ↦ subst P (entry q) h.0
    | inr q ↦ All-lookup P k m h.1 (rw q at e)
  ]
    where
      entry : str_eq j k ≡ true → ◌≡◌ {A = GoString × V} (j, w) (k, v)
      entry q = ground (arith, str_eq_iff j k)
