-- ===== src/Loadgen/Simulator/Prefixes.antt =====
-- What a simulated worker's prefixes are after an addition.
use aether_serve.Base.{
  ℕ, zero, suc, ◌-◌, ◌≤◌, ◌≡◌, ◌≢◌, refl, true, Bool-cases, inl, inr, ltb, List, [], ◌∷◌, ◌++◌,
  length, drop, map, arith, All, All-imp, All-append,
}
use aether_serve.Base.Text.{GoString, str_eq_refl}
use aether_serve.Base.Sort.{Distinct}
use aether_serve.Model.{PrefixFingerprint}
use aether_serve.Routing.{contains}
use aether_serve.Loadgen.Simulator.{append_unseen, append_unique_prefixes}

abbrev pub key : PrefixFingerprint → GoString
key p = p.sha256

All-drop {ℓ κ} : {A : Type ℓ} (P : A → Type κ) (n : ℕ) (xs : List A) → All P xs → All P (drop n xs)
All-drop P zero xs h = h
All-drop P (suc n) [] h = h
All-drop P (suc n) (x ∷ xs) h = All-drop P n xs h.1

Distinct-drop : (n : ℕ) (ps : List PrefixFingerprint) → Distinct key ps → Distinct key (drop n ps)
Distinct-drop zero ps h = h
Distinct-drop (suc n) [] h = h
Distinct-drop (suc n) (p ∷ ps) h = Distinct-drop n ps h.1

length-drop {ℓ} : {A : Type ℓ} (n : ℕ) (xs : List A) → length (drop n xs) ≡ length xs - n
length-drop zero xs = omega arith
length-drop (suc n) [] = omega arith
length-drop (suc n) (x ∷ xs) = omega (arith, length-drop n xs)

Distinct-snoc :
    (ps : List PrefixFingerprint) (p : PrefixFingerprint)
    → Distinct key ps
    → All (λ q. key q ≢ key p) ps
    → Distinct key (ps ++ p ∷ [])
Distinct-snoc [] p d h = (tt, tt)
Distinct-snoc (q ∷ ps) p d h =
    (All-append (λ z. key q ≢ key z) ps (p ∷ []) d.0 (h.0, tt), Distinct-snoc ps p d.1 h.1)

-- Every digest of the list has been seen.
abbrev Seen : List GoString → List PrefixFingerprint → Type 0
Seen seen ps = All (λ p. contains seen (key p) ≡ true) ps

contains-head : (k : GoString) (seen : List GoString) → contains (k ∷ seen) k ≡ true
unfolding contains
contains-head k seen = rw (str_eq_refl k) refl

Seen-cons :
    (k : GoString) (seen : List GoString) (ps : List PrefixFingerprint)
    → Seen seen ps
    → Seen (k ∷ seen) ps
unfolding contains
Seen-cons k seen ps h = All-imp _ _ (λ p e. ground (arith, e)) ps h

Seen-keys : (ps : List PrefixFingerprint) → Seen (map key ps) ps
unfolding contains
Seen-keys [] = tt
Seen-keys (p ∷ ps) =
    (rw (str_eq_refl p.sha256) refl, Seen-cons p.sha256 (map key ps) ps (Seen-keys ps))

append_unseen-Distinct :
    (seen : List GoString) (current additions : List PrefixFingerprint)
    → Seen seen current
    → Distinct key current
    → Distinct key (append_unseen seen current additions)
unfolding append_unseen
append_unseen-Distinct seen current [] s d = d
append_unseen-Distinct seen current (p ∷ ps) s d = elim (Bool-cases (contains seen p.sha256)) [
  | inl q ↦ rw q (append_unseen-Distinct seen current ps s d)
  | inr q ↦ rw q (
      append_unseen-Distinct (p.sha256 ∷ seen) (current ++ p ∷ []) ps
        (All-append _ current (p ∷ []) (Seen-cons p.sha256 seen current s)
          (contains-head p.sha256 seen, tt))
        (Distinct-snoc current p d (All-imp _ _ (λ c e same. cc) current s)))
]

append_unseen-All :
    (P : PrefixFingerprint → Type 0) (seen : List GoString)
    (current additions : List PrefixFingerprint)
    → All P current
    → All P additions
    → All P (append_unseen seen current additions)
unfolding append_unseen
append_unseen-All P seen current [] h k = h
append_unseen-All P seen current (p ∷ ps) h k = elim (Bool-cases (contains seen p.sha256)) [
  | inl q ↦ rw q (append_unseen-All P seen current ps h k.1)
  | inr q ↦ rw q (
      append_unseen-All P (p.sha256 ∷ seen) (current ++ p ∷ []) ps
        (All-append P current (p ∷ []) h (k.0, tt)) k.1)
]

-- Additions to prefixes of different digests leave at most 64, of different digests, each of them one of the two lists:
-- what holds of all of these holds of the result.
pub append_unique_prefixes_lem :
    (P : PrefixFingerprint → Type 0) (current additions : List PrefixFingerprint)
    → Distinct key current
    → All P current
    → All P additions
    → let out = append_unique_prefixes current additions in
      (length out ≤ 64) × Distinct key out × All P out
unfolding append_unique_prefixes
append_unique_prefixes_lem P current additions d h k =
    let all = append_unseen (map key current) current additions in
    let n : ℕ = length all - 64 in
    elim (Bool-cases (ltb 64 (length all))) [
      | inl q ↦ rw q (
        omega (arith, length-drop n all),
        Distinct-drop n all (append_unseen-Distinct _ current additions (Seen-keys current) d),
        All-drop P n all (append_unseen-All P _ current additions h k),
      )
      | inr q ↦ rw q (
        ground (arith, q),
        append_unseen-Distinct _ current additions (Seen-keys current) d,
        append_unseen-All P _ current additions h k,
      )
    ]
