-- ===== src/Prefix.antt =====
-- internal/prefix/prefix.go: cumulative fingerprints of a token list, one for every 16 tokens, and the
-- longest one that a cache holds too. The digest (SHA-256 in hexadecimal) is an argument.
pub mod Match
pub mod Blocks
use aether_serve.Base.{
  ℕ, zero, suc, ◌+◌, ◌*◌, ◌/◌, ◌%◌, ◌^◌, Bool, true, false, ◌&&◌, not, ltb, leb, ◌==◌,
  if◌then◌else◌, Option, none, some, List, [], ◌∷◌, ◌++◌, take, length,
}
use aether_serve.Base.Text.{GoString, str, is_empty}
use aether_serve.Base.Map.{Map, lookup, insert}
use aether_serve.Model.{PrefixFingerprint}

abbrev pub block_tokens : ℕ
block_tokens = 16

-- `strings.Join(tokens, "\x1f")`.
unfoldable pub join : List GoString → GoString
join [] = []
join (t ∷ []) = t
join (t ∷ u ∷ ts) = t ++ 0x1f ∷ join (u ∷ ts)

module _ (digest : GoString → GoString) where
  unfoldable pub fingerprint : List GoString → ℕ → PrefixFingerprint
  fingerprint tokens end = record {
    token_count = end % 2 ^ 32;
    sha256 = digest (join (take end tokens));
  }

  -- The loop from `end`; `fuel` bounds its rounds.
  unfoldable pub fingerprints_from : ℕ → List GoString → ℕ → List PrefixFingerprint
  fingerprints_from zero tokens end = []
  fingerprints_from (suc fuel) tokens end =
      let rest = fingerprints_from fuel tokens (end + block_tokens) in
      if leb end (length tokens) then fingerprint tokens end ∷ rest else []

  -- A round raises `end` by 16, so there are at most as many rounds as tokens.
  unfoldable pub fingerprints : List GoString → List PrefixFingerprint
  unfolding fingerprints_from fingerprint
  fingerprints tokens = fingerprints_from (length tokens) tokens block_tokens

-- A missing key of the map reads as 0.
abbrev pub count_at : GoString → Map ℕ → ℕ
count_at key cache = elim (lookup key cache) [ none ↦ 0 | some n ↦ n ]

-- The first loop: the largest count of each cached digest.
unfoldable pub index_cached : Map ℕ → List PrefixFingerprint → Map ℕ
index_cached cache [] = cache
index_cached cache (p ∷ ps) =
    index_cached
      (if not (is_empty p.sha256) && ltb (count_at p.sha256 cache) p.token_count
        then insert p.sha256 p.token_count cache
        else cache)
      ps

-- The second loop.
unfoldable pub longest_from : Map ℕ → ℕ → List PrefixFingerprint → ℕ
longest_from cache longest [] = longest
longest_from cache longest (p ∷ ps) =
    longest_from cache
      (if (count_at p.sha256 cache == p.token_count) && ltb longest p.token_count
        then p.token_count
        else longest)
      ps

unfoldable pub longest_match : List PrefixFingerprint → List PrefixFingerprint → ℕ
unfolding index_cached longest_from
longest_match request cached = longest_from (index_cached [] cached) 0 request
