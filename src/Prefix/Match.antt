-- ===== src/Prefix/Match.antt =====
-- `LongestMatch` against the greatest count on which both sides agree.
use mathlib.Core.List.{Memᴰ}
use mathlib.Core.Path.{fun_ext}
use native.Mathlib.Nat.{le_trans}
use aether_serve.Base.{
  ℕ, ◌≤◌, ◌≡◌, refl, sym, ap, subst, ◌∙◌, ◌⊎◌, inl, inr, ◌&&◌, not, ltb, ◌==◌, if◌then◌else◌, List,
  [], ◌∷◌, arith, All,
}
use aether_serve.Base.Text.{GoString, str_eq, str_eq_iff, is_empty}
use aether_serve.Base.Map.{Map, lookup, insert, lookup-insert}
use aether_serve.Model.{PrefixFingerprint}
use aether_serve.Prefix.{count_at, index_cached, longest_from, longest_match}

-- The larger of two counts.
abbrev pub larger : ℕ → ℕ → ℕ
larger a b = if ltb a b then b else a

-- The largest count that a cache reports for a digest; an empty digest is no digest.
abbrev pub best : GoString → List PrefixFingerprint → ℕ
best key [] = 0
best key (p ∷ ps) =
    larger (if not (is_empty p.sha256) && str_eq p.sha256 key then p.token_count else 0)
      (best key ps)

-- The map after one round of the first loop.
abbrev written : Map ℕ → PrefixFingerprint → Map ℕ
written cache p =
    if not (is_empty p.sha256) && ltb (count_at p.sha256 cache) p.token_count
    then insert p.sha256 p.token_count cache
    else cache

count_at-write :
    (key : GoString) (cache : Map ℕ) (p : PrefixFingerprint)
    → count_at key (written cache p)
      ≡ larger
          (count_at key cache)
          (if not (is_empty p.sha256) && str_eq p.sha256 key then p.token_count else 0)
count_at-write key cache p =
    ground (arith, str_eq_iff p.sha256 key, lookup-insert p.sha256 key p.token_count cache)

larger_assoc : (a b c : ℕ) → larger (larger a b) c ≡ larger a (larger b c)
larger_assoc a b c = ground arith

count_at-index_cached :
    (key : GoString) (cache : Map ℕ) (ps : List PrefixFingerprint)
    → count_at key (index_cached cache ps) ≡ larger (count_at key cache) (best key ps)
unfolding index_cached
count_at-index_cached key cache [] = ground arith
count_at-index_cached key cache (p ∷ ps) =
    count_at-index_cached key (written cache p) ps
    ∙ ap (λ (n : ℕ). larger n (best key ps)) (count_at-write key cache p)
    ∙ larger_assoc (count_at key cache) _ (best key ps)

-- A fingerprint of the request counts if the cache's largest count for its digest is its own.
abbrev pub Agrees : List PrefixFingerprint → PrefixFingerprint → Type 0
Agrees cached p = best p.sha256 cached ≡ p.token_count

abbrev IsGreatest : (PrefixFingerprint → Type 0) → ℕ → List PrefixFingerprint → ℕ → Type 0
IsGreatest P start request n =
    (start ≤ n)
    × All (λ p. P p → p.token_count ≤ n) request
    × ((n ≡ start) ⊎ ((p : PrefixFingerprint) × Memᴰ p request × P p × (p.token_count ≡ n)))

IsGreatest-cons :
    (P : PrefixFingerprint → Type 0) (start next : ℕ) (p : PrefixFingerprint)
    (ps : List PrefixFingerprint) (n : ℕ)
    → start ≤ next
    → (P p → p.token_count ≤ next)
    → ((next ≡ start) ⊎ (P p × (p.token_count ≡ next)))
    → IsGreatest P next ps n
    → IsGreatest P start (p ∷ ps) n
IsGreatest-cons P start next p ps n le bound from (above, all, inr (q, m, h, e)) =
    (omega arith, (λ h'. le_trans (bound h') above, all), inr (q, Memᴰ.tail m, h, e))
IsGreatest-cons P start next p ps n le bound (inl same) (above, all, inl e) =
    (omega arith, (λ h'. le_trans (bound h') above, all), inl (e ∙ same))
IsGreatest-cons P start next p ps n le bound (inr (h, c)) (above, all, inl e) =
    (omega arith, (λ h'. le_trans (bound h') above, all), inr (p, Memᴰ.head refl, h, c ∙ sym e))

-- The count after one round of the second loop.
abbrev next : Map ℕ → ℕ → PrefixFingerprint → ℕ
next cache start p =
    if (count_at p.sha256 cache == p.token_count) && ltb start p.token_count
    then p.token_count
    else start

next-le : (cache : Map ℕ) (start : ℕ) (p : PrefixFingerprint) → start ≤ next cache start p
next-le cache start p = ground arith

next_bound :
    (cache : Map ℕ) (start : ℕ) (p : PrefixFingerprint)
    → count_at p.sha256 cache ≡ p.token_count
    → p.token_count ≤ next cache start p
next_bound cache start p h = ground arith

next_from :
    (cache : Map ℕ) (start : ℕ) (p : PrefixFingerprint)
    → (next cache start p ≡ start)
      ⊎ ((count_at p.sha256 cache ≡ p.token_count) × (p.token_count ≡ next cache start p))
next_from cache start p = ground arith

larger_zero : (n : ℕ) → larger 0 n ≡ n
larger_zero n = ground arith

longest_from-IsGreatest :
    (cache : Map ℕ) (start : ℕ) (request : List PrefixFingerprint)
    → IsGreatest
        (λ p. count_at p.sha256 cache ≡ p.token_count)
        start
        request
        (longest_from cache start request)
unfolding longest_from
longest_from-IsGreatest cache start [] = (omega arith, tt, inl refl)
longest_from-IsGreatest cache start (p ∷ ps) =
    IsGreatest-cons (λ q. count_at q.sha256 cache ≡ q.token_count) start (next cache start p) p ps _
      (next-le cache start p) (next_bound cache start p) (next_from cache start p)
      (longest_from-IsGreatest cache (next cache start p) ps)

-- `LongestMatch` returns the greatest count among the request's fingerprints whose digest the cache
-- reports with that count as its largest, and 0 if there is none. So an entry of the request that the cache holds too is
-- not counted where the cache holds its digest with a larger count as well.
pub longest_match-greatest :
    (request cached : List PrefixFingerprint)
    → let n = longest_match request cached in
      All (λ p. Agrees cached p → p.token_count ≤ n) request
      × ((n ≡ 0)
          ⊎ ((p : PrefixFingerprint) × Memᴰ p request × Agrees cached p × (p.token_count ≡ n)))
unfolding longest_match lookup
longest_match-greatest request cached =
    subst
      (λ (f : GoString → ℕ). Greatest f request (longest_from (index_cached [] cached) 0 request))
      (fun_ext (λ key. count_at-index_cached key [] cached ∙ larger_zero (best key cached)))
      (greatest.1, greatest.2)
  where
    Greatest : (GoString → ℕ) → List PrefixFingerprint → ℕ → Type 0
    Greatest f request n =
        All (λ p. f p.sha256 ≡ p.token_count → p.token_count ≤ n) request
        × ((n ≡ 0)
            ⊎ ((p : PrefixFingerprint) × Memᴰ p request
                × (f p.sha256 ≡ p.token_count)
                × (p.token_count ≡ n)))

    greatest :
        IsGreatest
          (λ p. count_at p.sha256 (index_cached [] cached) ≡ p.token_count)
          0
          request
          (longest_from (index_cached [] cached) 0 request)
    greatest = longest_from-IsGreatest (index_cached [] cached) 0 request
