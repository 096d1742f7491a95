-- ===== src/Metrics/Page.antt =====
-- The page against the order in which Go's maps are gone through.
use mathlib.Core.List.{Permᴰ}
use mathlib.Core.List.Permᴰ
use aether_serve.Base.{
  ◌≡◌, ◌≢◌, refl, sym, ap, ◌∙◌, true, Bool-cases, inl, inr, List, [], ◌∷◌, map, arith, All-map,
}
use aether_serve.Base.Text.{GoString, str_eq_iff}
use aether_serve.Base.Map.{Map, lookup}
use aether_serve.Base.Sort.{Distinct, Distinct-perm, sort_by-eq_of_perm}
use aether_serve.Float.{Float}
use aether_serve.Metrics.{
  Registry, LabeledKey, LabeledMap, key_eq, find, Formats, names, labels, format_key, counter_line,
  labeled_line, gauge_line, labeled_gauge_line, histogram_line, page,
}

module _ {K V : Type 0} (f : K → GoString) where
  -- The keys of distinct entries are distinct.
  Distinct-keys :
      (m : List (K × V)) → Distinct (λ (e : K × V). f e.0) m → Distinct f (map (λ e. e.0) m)
  Distinct-keys [] d = tt
  Distinct-keys (e ∷ m) d =
      (All-map (λ k. f e.0 ≢ f k) (λ (e : K × V). e.0) m d.0, Distinct-keys m d.1)

module _ {V : Type 0} where
  abbrev pub IsMapped : Map V → Type 0
  IsMapped m = Distinct (λ (e : GoString × V). e.0) m

  lookup-perm : (k : GoString) {m n : Map V} → Permᴰ m n → IsMapped m → lookup k m ≡ lookup k n
  unfolding lookup
  lookup-perm k Permᴰ.nil d = refl
  lookup-perm k (Permᴰ.cons e p) d = rw (e, lookup-perm k p d.1) refl
  lookup-perm k (Permᴰ.swap {a = a} {b = b} e₁ e₂) d =
      rw (e₁, e₂) (ground (arith, str_eq_iff a.0 k, str_eq_iff b.0 k, d.0.0))
  lookup-perm k (Permᴰ.trans p q) d =
      lookup-perm k p d ∙ lookup-perm k q (Distinct-perm (λ (e : GoString × V). e.0) p d)

  names-perm : {m n : Map V} → Permᴰ m n → IsMapped m → names m ≡ names n
  names-perm {m} p d =
      sort_by-eq_of_perm (λ (k : GoString). k) (Permᴰ.map (λ (e : GoString × V). e.0) p)
        (Distinct-keys (λ (k : GoString). k) m d)

key_eq-eq : (j k : LabeledKey) → key_eq j k ≡ true → j ≡ k
key_eq-eq j k e =
    ground (arith, str_eq_iff j.name k.name, str_eq_iff j.label k.label, str_eq_iff j.value k.value)

-- Keys that are shown differently are different.
apart :
    {F : Type 0} (fmt : Formats F) (j i k : LabeledKey)
    → format_key fmt j ≢ format_key fmt i
    → key_eq j k ≡ true
    → key_eq i k ≡ true
    → ⊥
apart fmt j i k n p q = n (ap (format_key fmt) (key_eq-eq j k p ∙ sym (key_eq-eq i k q)))

module _ {F V : Type 0} (fmt : Formats F) where
  abbrev pub IsLabeled : LabeledMap V → Type 0
  IsLabeled m = Distinct (λ (e : LabeledKey × V). format_key fmt e.0) m

  find-perm : (k : LabeledKey) {m n : LabeledMap V} → Permᴰ m n → IsLabeled m → find k m ≡ find k n
  unfolding find
  find-perm k Permᴰ.nil d = refl
  find-perm k (Permᴰ.cons e p) d = rw (e, find-perm k p d.1) refl
  find-perm k (Permᴰ.swap {a = a} {b = b} e₁ e₂) d =
      rw (← e₁, ← e₂)
        (elim (Bool-cases (key_eq a.0 k)) [
          | inl x ↦ elim (Bool-cases (key_eq b.0 k)) [
            | inl y ↦ absurd (apart fmt a.0 b.0 k d.0.0 x y)
            | inr y ↦ rw (x, y) refl
          ]
          | inr x ↦ rw x refl
        ])
  find-perm k (Permᴰ.trans p q) d =
      find-perm k p d
      ∙ find-perm k q (Distinct-perm (λ (e : LabeledKey × V). format_key fmt e.0) p d)

  labels-perm : {m n : LabeledMap V} → Permᴰ m n → IsLabeled m → labels fmt m ≡ labels fmt n
  labels-perm {m} p d =
      sort_by-eq_of_perm (format_key fmt) (Permᴰ.map (λ (e : LabeledKey × V). e.0) p)
        (Distinct-keys (format_key fmt) m d)

map-cong :
    {K L : Type 0} {f g : K → L} {xs ys : List K}
    → ((k : K) → f k ≡ g k)
    → xs ≡ ys
    → map f xs ≡ map g ys
map-cong {f = f} {g = g} {xs = xs} h e = same xs ∙ ap (map g) e
  where
    same : (zs : List _) → map f zs ≡ map g zs
    same [] = refl
    same (z ∷ zs) = rw (h z, same zs) refl

module _ {F : Type 0} ⦃fl : Float F⦄ (fmt : Formats F) where
  -- No name stands twice, and no two labeled keys are shown as the same text.
  pub record IsPrintable (r : Registry F) : Type 0 where
    pub counters : IsMapped r.counters
    pub labeled_counters : IsLabeled fmt r.labeled_counters
    pub gauges : IsMapped r.gauges
    pub labeled_gauges : IsLabeled fmt r.labeled_gauges
    pub histograms : IsMapped r.histograms

  -- The same entries, in other orders.
  pub record AreReordered (r q : Registry F) : Type 0 where
    pub counters : Permᴰ r.counters q.counters
    pub labeled_counters : Permᴰ r.labeled_counters q.labeled_counters
    pub gauges : Permᴰ r.gauges q.gauges
    pub labeled_gauges : Permᴰ r.labeled_gauges q.labeled_gauges
    pub histograms : Permᴰ r.histograms q.histograms

  -- Where no name stands twice and no two labeled keys are shown as the same text, the page does not depend on the order in
  -- which the five maps are gone through.
  pub page-eq_of_perm :
      (r q : Registry F) → IsPrintable r → AreReordered r q → page fmt r ≡ page fmt q
  unfolding page
  page-eq_of_perm r q v p =
      let counted =
        map-cong {f = counter_line fmt r.counters} {g = counter_line fmt q.counters}
          (λ k. rw (lookup-perm k p.counters v.counters) refl) (names-perm p.counters v.counters) in
      let labeled =
        map-cong {f = labeled_line fmt r.labeled_counters} {g = labeled_line fmt q.labeled_counters}
          (λ k. rw (find-perm fmt k p.labeled_counters v.labeled_counters) refl)
          (labels-perm fmt p.labeled_counters v.labeled_counters) in
      let gauged =
        map-cong {f = gauge_line fmt r.gauges} {g = gauge_line fmt q.gauges}
          (λ k. rw (lookup-perm k p.gauges v.gauges) refl) (names-perm p.gauges v.gauges) in
      let both =
        map-cong {f = labeled_gauge_line fmt r.labeled_gauges}
          {g = labeled_gauge_line fmt q.labeled_gauges}
          (λ k. rw (find-perm fmt k p.labeled_gauges v.labeled_gauges) refl)
          (labels-perm fmt p.labeled_gauges v.labeled_gauges) in
      let observed =
        map-cong {f = histogram_line fmt r.histograms} {g = histogram_line fmt q.histograms}
          (λ k. rw (lookup-perm k p.histograms v.histograms) refl)
          (names-perm p.histograms v.histograms) in
      rw (counted, labeled, gauged, both, observed) refl
