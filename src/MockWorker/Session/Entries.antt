-- ===== src/MockWorker/Session/Entries.antt =====
-- The prefixes that a worker caches and sends.
use aether_serve.Base.{
  ℕ, ◌≢◌, inl, inr, Bool-cases, ◌||◌, ltb, length, Option, Option-cases, none, some, List, [], ◌∷◌,
  map, All,
}
use aether_serve.Base.Int.{ℤ, pos, ltb_ℤ}
use aether_serve.Base.Text.{GoString, str_eq}
use aether_serve.Base.Map.{Map, lookup, erase, All-insert, All-lookup}
use aether_serve.Model.{PrefixFingerprint}
use aether_serve.Registry.Valid.{PrefixIsValid}
use aether_serve.MockWorker.{Held, cached, evict, remember, add_prefix, add_all}

-- Every cached entry is a valid prefix.
abbrev pub Entries : Map PrefixFingerprint → Type 0
Entries cache = All (λ e. PrefixIsValid e.1) cache

All-erase : (k : GoString) (m : Map PrefixFingerprint) → Entries m → Entries (erase k m)
unfolding erase
All-erase k [] h = tt
All-erase k ((j, p) ∷ m) h = elim (Bool-cases (str_eq j k)) [
  | inl e ↦ rw e h.1
  | inr e ↦ rw e (h.0, All-erase k m h.1)
]

evict-Entries :
    (limit : ℤ) (capacity : ℕ) (cache : Map PrefixFingerprint) (order : List GoString) (used : ℕ)
    → Entries cache
    → Entries (evict limit capacity cache order used).cache
unfolding evict
evict-Entries limit capacity cache [] used h = h
evict-Entries limit capacity cache (k ∷ ks) used h =
    elim (Bool-cases (ltb_ℤ limit (pos (length (k ∷ ks))) || ltb capacity used)) [
      | inl q ↦ rw q (evict-Entries limit capacity (erase k cache) ks _ (All-erase k cache h))
      | inr q ↦ rw q h
    ]

remember-Entries :
    (limit : ℤ) (capacity : ℕ) (h : Held) (p : PrefixFingerprint) (known : Option PrefixFingerprint)
    → PrefixIsValid p
    → Entries h.cache
    → Entries (remember limit capacity h p known).cache
unfolding remember
remember-Entries limit capacity h p (some q) valid v = v
remember-Entries limit capacity h p none valid v =
    evict-Entries limit capacity _ _ _
      (All-insert (λ e. PrefixIsValid e.1) p.sha256 p h.cache v valid)

pub add_all-Entries :
    (limit : ℤ) (capacity : ℕ) (h : Held) (ps : List PrefixFingerprint)
    → All PrefixIsValid ps
    → Entries h.cache
    → Entries (add_all limit capacity h ps).cache
unfolding add_all add_prefix
add_all-Entries limit capacity h [] valid v = v
add_all-Entries limit capacity h (p ∷ ps) valid v =
    add_all-Entries limit capacity (add_prefix limit capacity h p) ps valid.1
      (remember-Entries limit capacity h p _ valid.0 v)

-- What is sent of a cache of valid entries is valid.
pub cached-valid :
    (cache : Map PrefixFingerprint) (order : List GoString)
    → Entries cache
    → All (λ k. lookup k cache ≢ none) order
    → All PrefixIsValid (map (cached cache) order)
cached-valid cache [] v known = tt
cached-valid cache (k ∷ ks) v known = elim (Option-cases (lookup k cache)) [
  | inl q ↦ absurd (known.0 q)
  | inr (p, q) ↦ (
    rw (q, cached) (All-lookup (λ e. PrefixIsValid e.1) k cache v q),
    cached-valid cache ks v known.1,
  )
]
