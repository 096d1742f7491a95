-- ===== src/Loadgen/Workload/Items.antt =====
-- The items of a workload.
use aether_serve.Base.{
  ℕ, zero, suc, ◌≤◌, ◌<◌, ◌≡◌, refl, false, List, [], ◌∷◌, length, All, arith, ok,
}
use aether_serve.Base.Int.{pos, pos_part, leb_ℤ}
use aether_serve.Base.Text.{GoString}
use aether_serve.Loadgen.{WorkItem}
use aether_serve.Loadgen.Workload.{
  Kind, Random, Traces, fault_of, prompt, max_tokens, item_of, items_from, workload_items, uniform,
  high_prefix_sharing, hot_prefix, mixed_lengths, mixed_outputs, heterogeneous_workers, slowdown,
  failure_before_first, failure_during_streaming, bursty, other,
}

-- A workload that has a name.
abbrev pub IsNamed : Kind → Type 0
IsNamed (other kind) = ⊥
IsNamed _ = Unit {0}

-- An item of a workload: its output is positive and at most 64 tokens, and its fault is that of the workload.
abbrev pub IsItem : Kind → WorkItem → Type 0
IsItem kind item =
    (0 < pos_part item.max_tokens)
    × (pos_part item.max_tokens ≤ 64)
    × (item.fault ≡ fault_of kind)
    × (length item.messages ≡ 1)

module _ {S : Type 0} (random : Random S) where
  -- `IntN` stays below its argument.
  abbrev pub StaysBelow : Type 0
  StaysBelow = (s : S) (n : ℕ) → 0 < n → (random.int_n s n).0 < n

  prompt-named :
      (kind : Kind) (i : ℕ) (s : S)
      → IsNamed kind
      → (drawn : GoString × S) × (prompt random kind i s ≡ ok drawn)
  unfolding prompt
  prompt-named uniform i s k = (_, refl)
  prompt-named high_prefix_sharing i s k = (_, refl)
  prompt-named hot_prefix i s k = (_, refl)
  prompt-named mixed_lengths i s k = (_, refl)
  prompt-named mixed_outputs i s k = (_, refl)
  prompt-named heterogeneous_workers i s k = (_, refl)
  prompt-named slowdown i s k = (_, refl)
  prompt-named failure_before_first i s k = (_, refl)
  prompt-named failure_during_streaming i s k = (_, refl)
  prompt-named bursty i s k = (_, refl)
  prompt-named (other kind) i s k = absurd k

  max_tokens-within :
      (kind : Kind) (s : S)
      → StaysBelow
      → (0 < (max_tokens random kind s).0) × ((max_tokens random kind s).0 ≤ 64)
  unfolding max_tokens
  max_tokens-within mixed_outputs s b =
      (omega arith, omega (arith, b (random.int_n s 24).1 64 (omega arith)))
  max_tokens-within uniform s b = (omega arith, omega (arith, b s 24 (omega arith)))
  max_tokens-within high_prefix_sharing s b = (omega arith, omega (arith, b s 24 (omega arith)))
  max_tokens-within hot_prefix s b = (omega arith, omega (arith, b s 24 (omega arith)))
  max_tokens-within mixed_lengths s b = (omega arith, omega (arith, b s 24 (omega arith)))
  max_tokens-within heterogeneous_workers s b = (omega arith, omega (arith, b s 24 (omega arith)))
  max_tokens-within slowdown s b = (omega arith, omega (arith, b s 24 (omega arith)))
  max_tokens-within failure_before_first s b = (omega arith, omega (arith, b s 24 (omega arith)))
  max_tokens-within failure_during_streaming s b =
      (omega arith, omega (arith, b s 24 (omega arith)))
  max_tokens-within bursty s b = (omega arith, omega (arith, b s 24 (omega arith)))
  max_tokens-within (other kind) s b = (omega arith, omega (arith, b s 24 (omega arith)))

  items_from_lem :
      (kind : Kind) (left i : ℕ) (s : S)
      → IsNamed kind
      → StaysBelow
      → (items : List WorkItem) × (items_from random kind left i s ≡ ok items)
        × (length items ≡ left)
        × All (IsItem kind) items
  unfolding items_from
  items_from_lem kind zero i s k b = ([], refl, refl, tt)
  items_from_lem kind (suc left) i s k b =
      let (drawn, e) = prompt-named kind i s k in
      let (tokens, s') = max_tokens random kind drawn.1 in
      let (items, f, n, all) = items_from_lem kind left (suc i) s' k b in
      let range = max_tokens-within kind drawn.1 b in
      (
        item_of random kind i drawn.0 tokens ∷ items,
        rw (e, f) refl,
        omega (arith, n),
        ((range.0, range.1, refl, refl), all),
      )

  -- With a generator whose draws stay below their bound: a named workload of a positive count yields just that many
  -- items, each with one message, with 1 to 64 output tokens and with the workload's fault.
  pub workload_items_lem :
      (traces : Traces) (kind : Kind) (n seed : ℕ)
      → IsNamed kind
      → StaysBelow
      → (items : List WorkItem) × (workload_items random traces kind (pos (suc n)) seed []
          ≡ ok items)
        × (length items ≡ suc n)
        × All (IsItem kind) items
  unfolding workload_items
  workload_items_lem traces kind n seed k b =
      let positive : leb_ℤ (pos (suc n)) (pos 0) ≡ false = ground arith in
      rw (positive, workload_items) (items_from_lem kind (suc n) 0 (random.seeded seed) k b)
