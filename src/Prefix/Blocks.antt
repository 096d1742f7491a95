-- ===== src/Prefix/Blocks.antt =====
-- `Fingerprints`, and two prompts that share their first blocks.
use mathlib.Core.List.{Memᴰ}
use native.Mathlib.Nat.{le_antisymm}
use aether_serve.Base.{
  ℕ, zero, suc, ◌+◌, ◌-◌, ◌*◌, ◌/◌, ◌%◌, ◌^◌, ◌≤◌, ◌<◌, ◌≡◌, ap, ◌∙◌, false, List, [], ◌∷◌, ◌++◌,
  append_assoc, arith, All, All-mem, mem-get_elem?, take, length, length-append, get_elem?, some,
  refl,
}
use aether_serve.Base.Text.{GoString, str_eq_iff, is_empty}
use aether_serve.Model.{PrefixFingerprint}
use aether_serve.Prefix.{
  join, fingerprint, fingerprints_from, fingerprints, longest_match, block_tokens,
}
use aether_serve.Prefix.Match.{best, longest_match-greatest}

-- The separator inside a token reads like one between two tokens.
join-separator :
    (a b c : GoString) (ts : List GoString)
    → join ((a ++ 0x1f ∷ b) ∷ c ∷ ts) ≡ join (a ∷ (b ++ 0x1f ∷ c) ∷ ts)
unfolding join
join-separator a b c [] = append_assoc a (0x1f ∷ b) (0x1f ∷ c)
join-separator a b c (t ∷ ts) = simp append_assoc

abbrev head_or_empty : List GoString → GoString
head_or_empty [] = []
head_or_empty (t ∷ ts) = t

append_longer : (a b : GoString) → ¬ (a ++ 0x1f ∷ b ≡ a)
append_longer a b e = omega (arith, length-append a (0x1f ∷ b), ap (λ (s : GoString). length s) e)

-- No entry of a digest exceeds the largest count that is reported for it, which one entry has.
best-mem :
    (p : PrefixFingerprint) (ps : List PrefixFingerprint)
    → is_empty p.sha256 ≡ false
    → Memᴰ p ps
    → p.token_count ≤ best p.sha256 ps
best-mem p [] full m = elim m [ ]
best-mem p (q ∷ ps) full (Memᴰ.head e) = ground (
  arith,
  ap (λ (r : PrefixFingerprint). r.sha256) e,
  ap (λ (r : PrefixFingerprint). r.token_count) e,
  str_eq_iff q.sha256 p.sha256,
)
best-mem p (q ∷ ps) full (Memᴰ.tail m) = ground (arith, best-mem p ps full m)

best-le :
    (key : GoString) (n : ℕ) (ps : List PrefixFingerprint)
    → All (λ q. key ≡ q.sha256 → n ≡ q.token_count) ps
    → best key ps ≤ n
best-le key n [] h = omega arith
best-le key n (q ∷ ps) h = ground (arith, h.0, str_eq_iff q.sha256 key, best-le key n ps h.1)

-- Two entries with one digest have one count.
abbrev pub IsConsistent : List PrefixFingerprint → Type 0
IsConsistent ps = All (λ p. All (λ q. p.sha256 ≡ q.sha256 → p.token_count ≡ q.token_count) ps) ps

-- A fingerprint that stands on both sides bounds the longest match from below.
pub longest_match-ge :
    (request cached : List PrefixFingerprint) (p : PrefixFingerprint)
    → Memᴰ p request
    → Memᴰ p cached
    → is_empty p.sha256 ≡ false
    → IsConsistent cached
    → p.token_count ≤ longest_match request cached
longest_match-ge request cached p m m' full consistent =
    All-mem _ (longest_match-greatest request cached).0 m (
      le_antisymm (best-le p.sha256 p.token_count cached (All-mem _ consistent m'))
        (best-mem p cached full m'))

module _ (digest : GoString → GoString) where
  -- The entry of a block boundary that the loop reaches.
  get_elem?-fingerprints_from :
      (fuel i : ℕ) (tokens : List GoString) (end : ℕ)
      → i < fuel
      → end + block_tokens * i ≤ length tokens
      → get_elem? (fingerprints_from digest fuel tokens end) i
        ≡ some (fingerprint digest tokens (end + block_tokens * i))
  unfolding fingerprints_from
  get_elem?-fingerprints_from zero i tokens end h le = absurd (omega arith)
  get_elem?-fingerprints_from (suc fuel) zero tokens end h le = ground arith
  get_elem?-fingerprints_from (suc fuel) (suc i) tokens end h le =
      ground (arith, get_elem?-fingerprints_from fuel i tokens (end + block_tokens))

  -- With enough fuel the loop ends by its test.
  length-fingerprints_from :
      (fuel : ℕ) (tokens : List GoString) (end : ℕ)
      → end ≤ length tokens + block_tokens
      → length tokens < end + block_tokens * fuel
      → length (fingerprints_from digest fuel tokens end)
        ≡ (length tokens + block_tokens - end) / block_tokens
  unfolding fingerprints_from
  length-fingerprints_from zero tokens end le enough = omega arith
  length-fingerprints_from (suc fuel) tokens end le enough =
      ground (arith, length-fingerprints_from fuel tokens (end + block_tokens))

  -- There is one fingerprint for every full block of 16 tokens, and the i-th one covers the first
  -- 16 * (i + 1) tokens.
  pub fingerprints_blocks :
      (tokens : List GoString)
      → (length (fingerprints digest tokens) ≡ length tokens / block_tokens)
        × ((i : ℕ)
            → i < length tokens / block_tokens
            → get_elem? (fingerprints digest tokens) i
              ≡ some (fingerprint digest tokens (block_tokens * (i + 1))))
  unfolding fingerprints
  fingerprints_blocks tokens = (
    length-fingerprints_from (length tokens) tokens block_tokens (omega arith) (omega arith)
        ∙ ap (λ (n : ℕ). n / block_tokens) (omega arith),
    λ i h.
        get_elem?-fingerprints_from (length tokens) i tokens block_tokens (omega arith)
          (omega arith)
        ∙ ap (λ (n : ℕ). some (fingerprint digest tokens n)) (omega arith),
  )

  -- The fingerprints from any block boundary on.
  fingerprints_from-separator :
      (a b c : GoString) (ts : List GoString) (fuel end : ℕ)
      → 2 ≤ end
      → fingerprints_from digest fuel ((a ++ 0x1f ∷ b) ∷ c ∷ ts) end
        ≡ fingerprints_from digest fuel (a ∷ (b ++ 0x1f ∷ c) ∷ ts) end
  unfolding fingerprints_from fingerprint
  fingerprints_from-separator a b c ts zero end h = refl
  fingerprints_from-separator a b c ts (suc fuel) zero h = absurd (omega arith)
  fingerprints_from-separator a b c ts (suc fuel) (suc zero) h = absurd (omega arith)
  fingerprints_from-separator a b c ts (suc fuel) (suc (suc n)) h =
      rw
        (
          fingerprints_from-separator a b c ts fuel (suc (suc n) + block_tokens) (omega arith),
          join-separator a b c (take n ts),
        )
        refl

  -- Fingerprints do not tell token lists apart where a token may hold the separator U+001F: the two lists that begin
  -- with the tokens `a U+001F b` and `c`, and with `a` and `b U+001F c`, and go on alike, have the same length and
  -- no first tokens in common, yet the same fingerprints under any digest, one for every full block of 16 tokens.
  pub fingerprints_ambiguous :
      (a b c : GoString) (ts : List GoString)
      → let mine = (a ++ 0x1f ∷ b) ∷ c ∷ ts in
        let theirs = a ∷ (b ++ 0x1f ∷ c) ∷ ts in
        (length mine ≡ length theirs)
        × ((n : ℕ) → take n mine ≡ take n theirs → n ≡ 0)
        × (fingerprints digest mine ≡ fingerprints digest theirs)
        × (length (fingerprints digest mine) ≡ length mine / block_tokens)
  unfolding fingerprints
  fingerprints_ambiguous a b c ts = (
    refl,
    apart,
    fingerprints_from-separator a b c ts (suc (suc (length ts))) block_tokens (omega arith),
    (fingerprints_blocks ((a ++ 0x1f ∷ b) ∷ c ∷ ts)).0,
  )
    where
      apart :
          (n : ℕ) → take n ((a ++ 0x1f ∷ b) ∷ c ∷ ts) ≡ take n (a ∷ (b ++ 0x1f ∷ c) ∷ ts) → n ≡ 0
      apart zero e = refl
      apart (suc n) e = absurd (append_longer a b (ap head_or_empty e))

  -- Two prompts whose first k blocks are the same tokens match on at least those blocks: the request's
  -- longest match against the cache of the other prompt's fingerprints is 16 * k or more. The prompts are
  -- shorter than 2^32 tokens, digests are not empty, and equal digests in the cache have equal counts.
  pub shared_blocks :
      (request cached : List GoString) (k : ℕ)
      → 0 < k
      → block_tokens * k ≤ length request
      → block_tokens * k ≤ length cached
      → length request < 2 ^ 32
      → take (block_tokens * k) request ≡ take (block_tokens * k) cached
      → ((s : GoString) → is_empty (digest s) ≡ false)
      → IsConsistent (fingerprints digest cached)
      → block_tokens * k ≤ longest_match (fingerprints digest request) (fingerprints digest cached)
  unfolding fingerprint
  shared_blocks request cached k pos fits fits' word same full consistent =
      let n : ℕ = block_tokens * (k - 1 + 1) in
      let size : n ≡ block_tokens * k = omega arith in
      let p : PrefixFingerprint = fingerprint digest request n in
      let mine = (fingerprints_blocks request).1 (k - 1) (omega arith) in
      let theirs = (fingerprints_blocks cached).1 (k - 1) (omega arith) in
      let entry : p ≡ fingerprint digest cached n =
        ap (λ (ts : List GoString). record { token_count = n % 2 ^ 32; sha256 = digest (join ts) })
          (rw size same) in
      let bound : p.token_count
          ≤ longest_match (fingerprints digest request) (fingerprints digest cached) =
        longest_match-ge _ _ p (mem-get_elem? _ (k - 1) mine)
          (rw entry (mem-get_elem? _ (k - 1) theirs)) (full _) consistent in
      omega (arith, bound)
