-- ===== src/MockWorker/Cache.antt =====
-- The prefix cache: what it holds, and its limits.
use aether_serve.Base.{
  ℕ, ◌+◌, ◌-◌, ◌^◌, ◌≤◌, ◌<◌, ◌≡◌, ◌≢◌, refl, sym, ap, ◌∙◌, inl, inr, false, Bool-cases, ◌||◌, ltb,
  Option, none, some, List, [], ◌∷◌, ◌++◌, length, arith, All, All-imp, All-append, add_u64,
}
use aether_serve.Base.Int.{ℤ, pos, ltb_ℤ}
use aether_serve.Base.Text.{GoString, str_eq_iff}
use aether_serve.Base.Map.{Map, lookup, insert, erase, lookup-insert}
use aether_serve.Base.Sort.{Distinct}
use aether_serve.Model.{PrefixFingerprint}
use aether_serve.MockWorker.{
  Held, cached, evict, remember, add_prefix, add_all, held, add_prefixes, Worker, take_off,
}

-- Each key once.
abbrev pub AllDistinct : List GoString → Type 0
AllDistinct keys = Distinct (λ (k : GoString). k) keys

-- The tokens of the entries under the given keys.
abbrev pub tokens : Map PrefixFingerprint → List GoString → ℕ
tokens cache [] = 0
tokens cache (k ∷ ks) = (cached cache k).token_count + tokens cache ks

lookup-erase :
    (k j : GoString) (m : Map PrefixFingerprint) → k ≢ j → lookup j (erase k m) ≡ lookup j m
unfolding lookup erase
lookup-erase k j [] ne = refl
lookup-erase k j ((i, p) ∷ m) ne =
    ground (arith, str_eq_iff i k, str_eq_iff i j, lookup-erase k j m ne)

-- Another cache that agrees on the keys has the same tokens under them.
tokens-agree :
    (a b : Map PrefixFingerprint) (ks : List GoString)
    → All (λ k. lookup k a ≡ lookup k b) ks
    → tokens a ks ≡ tokens b ks
tokens-agree a b [] h = refl
tokens-agree a b (k ∷ ks) h = ground (arith, h.0, tokens-agree a b ks h.1)

tokens-append :
    (m : Map PrefixFingerprint) (xs ys : List GoString)
    → tokens m (xs ++ ys) ≡ tokens m xs + tokens m ys
tokens-append m [] ys = omega arith
tokens-append m (x ∷ xs) ys = omega (arith, tokens-append m xs ys)

Distinct-snoc :
    (xs : List GoString) (y : GoString)
    → AllDistinct xs
    → All (λ x. x ≢ y) xs
    → AllDistinct (xs ++ y ∷ [])
Distinct-snoc [] y d h = (tt, tt)
Distinct-snoc (x ∷ xs) y d h =
    (All-append (λ z. x ≢ z) xs (y ∷ []) d.0 (h.0, tt), Distinct-snoc xs y d.1 h.1)

-- The keys in order are the cached ones, each once, and the tokens used are theirs.
pub record IsAccounted (h : Held) : Type 0 where
  pub distinct : AllDistinct h.order
  pub cached : All (λ k. lookup k h.cache ≢ none) h.order
  pub tokens : h.used ≡ tokens h.cache h.order

-- No more entries and no more tokens than allowed.
abbrev pub IsWithin : ℤ → ℕ → Held → Type 0
IsWithin limit capacity h = (ltb_ℤ limit (pos (length h.order)) ≡ false) × (h.used ≤ capacity)

All-both :
    (P Q : GoString → Type 0) (xs : List GoString) → All P xs → All Q xs → All (λ x. P x × Q x) xs
All-both P Q [] p q = tt
All-both P Q (x ∷ xs) p q = ((p.0, q.0), All-both P Q xs p.1 q.1)

take_off-sub : (x work : ℕ) → x < 2 ^ 64 → work ≤ x → take_off x work ≡ x - work
take_off-sub x work b h = grind (arith, b, h)

-- The oldest entry goes.
evicted-IsAccounted :
    (cache : Map PrefixFingerprint) (k : GoString) (ks : List GoString) (used : ℕ)
    → used < 2 ^ 64
    → IsAccounted (record { cache = cache; order = k ∷ ks; used = used })
    → IsAccounted (record {
      cache = erase k cache;
      order = ks;
      used = take_off used (cached cache k).token_count;
    })
evicted-IsAccounted cache k ks used b v = record {
  distinct = v.distinct.1;
  cached =
      All-imp (λ j. (k ≢ j) × (lookup j cache ≢ none)) _
        (λ j h e. h.1 (sym (lookup-erase k j cache h.0) ∙ e)) ks
        (All-both _ _ ks v.distinct.0 v.cached.1);
  tokens = omega (
    arith,
    b,
    v.tokens,
    take_off-sub used (cached cache k).token_count b (omega (arith, v.tokens)),
    tokens-agree (erase k cache) cache ks
        (All-imp _ _ (λ j n. lookup-erase k j cache n) ks v.distinct.0),
  );
}

evict-IsAccounted :
    (limit : ℤ) (capacity : ℕ) (cache : Map PrefixFingerprint) (order : List GoString) (used : ℕ)
    → ltb_ℤ limit (pos 0) ≡ false
    → used < 2 ^ 64
    → IsAccounted (record { cache = cache; order = order; used = used })
    → let h = evict limit capacity cache order used in IsAccounted h × IsWithin limit capacity h
unfolding evict
evict-IsAccounted limit capacity cache [] used l b v = (v, (l, omega (arith, v.tokens)))
evict-IsAccounted limit capacity cache (k ∷ ks) used l b v =
    elim (Bool-cases (ltb_ℤ limit (pos (length (k ∷ ks))) || ltb capacity used)) [
      | inl q ↦
          let smaller : take_off used (cached cache k).token_count < 2 ^ 64 = grind (arith, b) in
          rw q (
            evict-IsAccounted limit capacity (erase k cache) ks _ l smaller
              (evicted-IsAccounted cache k ks used b v))
      | inr q ↦ rw q (v, (ground (arith, q), ground (arith, q)))
    ]

-- An entry joins.
inserted-IsAccounted :
    (h : Held) (p : PrefixFingerprint)
    → IsAccounted h
    → lookup p.sha256 h.cache ≡ none
    → h.used + p.token_count < 2 ^ 64
    → IsAccounted (record {
      cache = insert p.sha256 p h.cache;
      order = h.order ++ p.sha256 ∷ [];
      used = add_u64 h.used p.token_count;
    })
inserted-IsAccounted h p v q b =
    let new = insert p.sha256 p h.cache in
    let apart : All (λ k. k ≢ p.sha256) h.order =
      All-imp _ _ (λ k n e. n (ap (λ t. lookup t h.cache) e ∙ q)) h.order v.cached in
    let same : All (λ k. lookup k new ≡ lookup k h.cache) h.order =
      All-imp _ _ (λ k n. ground (arith, lookup-insert p.sha256 k p h.cache, str_eq_iff p.sha256 k))
        h.order apart in
    let here : lookup p.sha256 new ≡ some p =
      ground (arith, lookup-insert p.sha256 p.sha256 p h.cache, str_eq_iff p.sha256 p.sha256) in
    record {
      distinct = Distinct-snoc h.order p.sha256 v.distinct apart;
      cached =
          All-append _ h.order (p.sha256 ∷ [])
            (All-imp (λ k. (lookup k new ≡ lookup k h.cache) × (lookup k h.cache ≢ none)) _
              (λ k n e. n.1 (sym n.0 ∙ e)) h.order (All-both _ _ h.order same v.cached))
            (λ e. absurd (ground (arith, here)), tt);
      tokens = ground (
        arith,
        b,
        here,
        v.tokens,
        tokens-append new h.order (p.sha256 ∷ []),
        tokens-agree new h.cache h.order same,
      );
    }

module _ (limit : ℤ) (capacity : ℕ) where
  -- An accounted cache within its limits.
  abbrev pub IsSound : Held → Type 0
  IsSound h = IsAccounted h × IsWithin limit capacity h

  remember-IsSound :
      (h : Held) (p : PrefixFingerprint) (known : Option PrefixFingerprint)
      → lookup p.sha256 h.cache ≡ known
      → ltb_ℤ limit (pos 0) ≡ false
      → capacity + 2 ^ 32 ≤ 2 ^ 64
      → p.token_count < 2 ^ 32
      → IsSound h
      → IsSound (remember limit capacity h p known)
  unfolding remember
  remember-IsSound h p (some x) q l c t v = v
  remember-IsSound h p none q l c t v =
      evict-IsAccounted limit capacity (insert p.sha256 p h.cache) (h.order ++ p.sha256 ∷ [])
        (add_u64 h.used p.token_count) l (omega arith)
        (inserted-IsAccounted h p v.0 q (omega (arith, v.1.1, t, c)))

  add_all-IsSound :
      (h : Held) (ps : List PrefixFingerprint)
      → ltb_ℤ limit (pos 0) ≡ false
      → capacity + 2 ^ 32 ≤ 2 ^ 64
      → All (λ p. p.token_count < 2 ^ 32) ps
      → IsSound h
      → IsSound (add_all limit capacity h ps)
  unfolding add_all add_prefix
  add_all-IsSound h [] l c t v = v
  add_all-IsSound h (p ∷ ps) l c t v =
      add_all-IsSound (add_prefix limit capacity h p) ps l c t.1
        (remember-IsSound h p (lookup p.sha256 h.cache) refl l c t.0 v)

-- Where the limit is not negative, the capacity is at most 2^64 - 2^32 and counts are 32-bit: adding prefixes to a
-- cache that is accounted (each key once and cached, the tokens used those of the entries) and within the
-- limit and the capacity leaves it so, however many have to be evicted.
pub add_prefixes-IsSound :
    {F : Type 0} (w : Worker F) (ps : List PrefixFingerprint)
    → let limit = w.config.cache_prefix_limit in
      let capacity : ℕ = w.state.kv_usage.capacity_tokens in
      ltb_ℤ limit (pos 0) ≡ false
      → capacity + 2 ^ 32 ≤ 2 ^ 64
      → All (λ p. p.token_count < 2 ^ 32) ps
      → IsSound limit capacity (held w)
      → IsSound limit capacity (held (add_prefixes w ps))
unfolding add_prefixes
add_prefixes-IsSound w ps l c t v =
    add_all-IsSound w.config.cache_prefix_limit w.state.kv_usage.capacity_tokens (held w) ps l c t v
