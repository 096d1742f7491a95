-- ===== src/Base/Sort.antt =====
-- sort.Slice by a string key, `sort.Slice(xs, func(i, j int) bool { return key(xs[i]) < key(xs[j]) })`,
-- as an insertion sort. With different keys every sort gives this list.
use mathlib.Core.Path.{◌≡◌, refl, sym, subst, ◌∙◌}
use mathlib.Core.Logic.{◌≢◌, inl, inr}
use mathlib.Core.Bool.{false}
use mathlib.Core.List.{List, [], ◌∷◌, Permᴰ}
use mathlib.Core.List.Permᴰ
use native.Mathlib.Omega.{arith}
use aether_serve.Base.Tests.{if◌then◌else◌, Bool-cases}
use aether_serve.Base.Lists.{All, All-perm, All-imp}
use mathlib.Core.Option.{Option, none, some}
use aether_serve.Base.Text.{
  GoString, str_eq, str_eq_iff, str_lt, str_lt_total, str_lt_asymm, str_lt_trans, str_lt_cotrans,
}

module _ {ℓ} {A : Type ℓ} (key : A → GoString) where
  unfoldable pub insert_by : A → List A → List A
  insert_by x [] = x ∷ []
  insert_by x (y ∷ ys) = if str_lt (key y) (key x) then y ∷ insert_by x ys else x ∷ y ∷ ys

  unfoldable pub sort_by : List A → List A
  sort_by [] = []
  sort_by (x ∷ xs) = insert_by x (sort_by xs)

  -- No two entries have the same key.
  abbrev pub Distinct : List A → Type ℓ
  Distinct [] = Unit
  Distinct (x ∷ xs) = All (λ y. key x ≢ key y) xs × Distinct xs

  pub insert_by-perm : (x : A) (xs : List A) → Permᴰ (insert_by x xs) (x ∷ xs)
  unfolding insert_by
  insert_by-perm x [] = Permᴰ.refl _
  insert_by-perm x (y ∷ ys) = elim (Bool-cases (str_lt (key y) (key x))) [
    | inl e ↦ rw e (Permᴰ.trans (Permᴰ.cons refl (insert_by-perm x ys)) (Permᴰ.swap refl refl))
    | inr e ↦ rw e (Permᴰ.refl _)
  ]

  pub sort_by-perm : (xs : List A) → Permᴰ (sort_by xs) xs
  unfolding sort_by
  sort_by-perm [] = Permᴰ.nil
  sort_by-perm (x ∷ xs) =
      Permᴰ.trans (insert_by-perm x (sort_by xs)) (Permᴰ.cons refl (sort_by-perm xs))

  insert_by_comm :
      (x y : A) (zs : List A)
      → key x ≢ key y
      → insert_by x (insert_by y zs) ≡ insert_by y (insert_by x zs)
  unfolding insert_by
  insert_by_comm x y [] ne =
      ground (arith, str_lt_total (key x) (key y), str_lt_asymm (key x) (key y))
  insert_by_comm x y (z ∷ zs) ne = ground (
    arith,
    insert_by_comm x y zs ne,
    str_lt_total (key x) (key y),
    str_lt_asymm (key x) (key y),
    str_lt_cotrans (key z) (key x) (key y),
    str_lt_cotrans (key z) (key y) (key x),
    str_lt_trans (key z) (key x) (key y),
    str_lt_trans (key z) (key y) (key x),
  )

  pub Distinct-perm : {xs ys : List A} → Permᴰ xs ys → Distinct xs → Distinct ys
  Distinct-perm Permᴰ.nil h = h
  Distinct-perm (Permᴰ.cons {a = a} {l₂ = l₂} e d) h = (
    subst (λ x. All (λ y. key x ≢ key y) l₂) e (All-perm (λ y. key a ≢ key y) d h.0),
    Distinct-perm d h.1,
  )
  Distinct-perm (Permᴰ.swap {a = a} {b = b} {l = l} e₁ e₂) h = (
    (λ q. h.0.0 (rw (e₁, e₂) (sym q)), subst (λ x. All (λ y. key x ≢ key y) l) e₂ h.1.0),
    (subst (λ x. All (λ y. key x ≢ key y) l) e₁ h.0.1, h.1.1),
  )
  Distinct-perm (Permᴰ.trans d₁ d₂) h = Distinct-perm d₂ (Distinct-perm d₁ h)

  -- With different keys the order that the entries come in does not matter.
  pub sort_by-eq_of_perm : {xs ys : List A} → Permᴰ xs ys → Distinct xs → sort_by xs ≡ sort_by ys
  unfolding sort_by
  sort_by-eq_of_perm Permᴰ.nil h = refl
  sort_by-eq_of_perm (Permᴰ.cons e d) h = rw (e, sort_by-eq_of_perm d h.1)
  sort_by-eq_of_perm (Permᴰ.swap {a = a} {b = b} {l = l} e₁ e₂) h =
      rw (← e₁, ← e₂) (insert_by_comm a b (sort_by l) h.0.0)
  sort_by-eq_of_perm (Permᴰ.trans d₁ d₂) h =
      sort_by-eq_of_perm d₁ h ∙ sort_by-eq_of_perm d₂ (Distinct-perm d₁ h)

  -- Each entry's key is below those that follow.
  abbrev pub IsSorted : List A → Type ℓ
  IsSorted [] = Unit
  IsSorted (x ∷ xs) = All (λ y. str_lt (key y) (key x) ≡ false) xs × IsSorted xs

  insert_by-IsSorted : (x : A) (xs : List A) → IsSorted xs → IsSorted (insert_by x xs)
  unfolding insert_by
  insert_by-IsSorted x [] h = (tt, tt)
  insert_by-IsSorted x (y ∷ ys) h = elim (Bool-cases (str_lt (key y) (key x))) [
    | inl e ↦ rw e (
      All-perm (λ z. str_lt (key z) (key y) ≡ false) (Permᴰ.symm (insert_by-perm x ys))
          (str_lt_asymm (key y) (key x) e, h.0),
      insert_by-IsSorted x ys h.1,
    )
    | inr e ↦ rw e ((e, All-imp _ _ (λ z. above (key z) e) ys h.0), h)
  ]
    where
      above :
          (k : GoString)
          → str_lt (key y) (key x) ≡ false
          → str_lt k (key y) ≡ false
          → str_lt k (key x) ≡ false
      above k e q = ground (arith, str_lt_cotrans k (key y) (key x))

  pub sort_by-IsSorted : (xs : List A) → IsSorted (sort_by xs)
  unfolding sort_by
  sort_by-IsSorted [] = tt
  sort_by-IsSorted (x ∷ xs) = insert_by-IsSorted x (sort_by xs) (sort_by-IsSorted xs)

  -- The first entry with a key, as a loop over the list finds it.
  unfoldable pub find_by : GoString → List A → Option A
  find_by k [] = none
  find_by k (x ∷ xs) = if str_eq (key x) k then some x else find_by k xs

  pub find_by-perm :
      (k : GoString) {xs ys : List A} → Permᴰ xs ys → Distinct xs → find_by k xs ≡ find_by k ys
  unfolding find_by
  find_by-perm k Permᴰ.nil h = refl
  find_by-perm k (Permᴰ.cons e d) h = rw (e, find_by-perm k d h.1)
  find_by-perm k (Permᴰ.swap {a = a} {b = b} e₁ e₂) h =
      rw (← e₁, ← e₂) (ground (arith, h.0.0, str_eq_iff (key a) k, str_eq_iff (key b) k))
  find_by-perm k (Permᴰ.trans d₁ d₂) h =
      find_by-perm k d₁ h ∙ find_by-perm k d₂ (Distinct-perm d₁ h)

  pub find_by-sort_by :
      (k : GoString) (xs : List A) → Distinct xs → find_by k (sort_by xs) ≡ find_by k xs
  find_by-sort_by k xs h =
      find_by-perm k (sort_by-perm xs) (Distinct-perm (Permᴰ.symm (sort_by-perm xs)) h)
