-- ===== src/Base/Text.antt =====
-- Go strings as lists of bytes, with `==` and the bytewise `<`.
use Prim.Native.Nat.{ℕ, zero, suc, ◌+◌, ◌/◌, ◌%◌}
use Prim.Native.Char.{code}
use Prim.Native.String.{String}
use mathlib.Core.Path.{◌≡◌, refl}
use mathlib.Core.Logic.{◌≢◌, ◌↔◌, ◌⊎◌}
use mathlib.Core.Bool.{Bool, true, false, ◌&&◌}
use mathlib.Core.List.{List, [], ◌∷◌}
use native.Mathlib.Omega.{arith}
use aether_serve.Base.Tests.{ltb, ◌==◌, if◌then◌else◌}

abbrev pub GoString : Type 0
GoString = List ℕ

-- The bytes of an ASCII literal.
abbrev pub str : String → GoString
str String.[] = []
str (String.◌∷◌ c s) = code c ∷ str s

abbrev pub is_empty : GoString → Bool
is_empty [] = true
is_empty (c ∷ s) = false

unfoldable pub str_eq : GoString → GoString → Bool
str_eq [] [] = true
str_eq [] (d ∷ t) = false
str_eq (c ∷ s) [] = false
str_eq (c ∷ s) (d ∷ t) = c == d && str_eq s t

unfoldable pub str_lt : GoString → GoString → Bool
str_lt [] [] = false
str_lt [] (d ∷ t) = true
str_lt (c ∷ s) [] = false
str_lt (c ∷ s) (d ∷ t) = if c == d then str_lt s t else ltb c d

pub str_eq_refl : (s : GoString) → str_eq s s ≡ true
unfolding str_eq
str_eq_refl [] = refl
str_eq_refl (c ∷ s) = ground (arith, str_eq_refl s)

pub eq_of_str_eq : (s t : GoString) → str_eq s t ≡ true → s ≡ t
unfolding str_eq
eq_of_str_eq [] [] h = refl
eq_of_str_eq [] (d ∷ t) h = cc
eq_of_str_eq (c ∷ s) [] h = cc
eq_of_str_eq (c ∷ s) (d ∷ t) h = ground (arith, eq_of_str_eq s t)

pub str_eq_iff : (s t : GoString) → (str_eq s t ≡ true) ↔ (s ≡ t)
str_eq_iff s t = (eq_of_str_eq s t, λ e. rw (← e) (str_eq_refl s))

pub str_lt_irrefl : (s : GoString) → str_lt s s ≡ false
unfolding str_lt
str_lt_irrefl [] = refl
str_lt_irrefl (c ∷ s) = ground (arith, str_lt_irrefl s)

pub str_lt_trans : (s t u : GoString) → str_lt s t ≡ true → str_lt t u ≡ true → str_lt s u ≡ true
unfolding str_lt
str_lt_trans [] [] u h k = cc
str_lt_trans [] (d ∷ t) [] h k = cc
str_lt_trans [] (d ∷ t) (e ∷ u) h k = refl
str_lt_trans (c ∷ s) [] u h k = cc
str_lt_trans (c ∷ s) (d ∷ t) [] h k = cc
str_lt_trans (c ∷ s) (d ∷ t) (e ∷ u) h k = ground (arith, str_lt_trans s t u)

pub str_lt_asymm : (s t : GoString) → str_lt s t ≡ true → str_lt t s ≡ false
unfolding str_lt
str_lt_asymm [] [] h = cc
str_lt_asymm [] (d ∷ t) h = refl
str_lt_asymm (c ∷ s) [] h = cc
str_lt_asymm (c ∷ s) (d ∷ t) h = ground (arith, str_lt_asymm s t)

-- Of two different strings one is the smaller.
pub str_lt_total : (s t : GoString) → s ≢ t → str_lt s t ≡ false → str_lt t s ≡ true
unfolding str_lt
str_lt_total [] [] h k = absurd (h refl)
str_lt_total [] (d ∷ t) h k = cc
str_lt_total (c ∷ s) [] h k = refl
str_lt_total (c ∷ s) (d ∷ t) h k = ground (arith, str_lt_total s t)

-- What lies strictly between is on one side of any third string.
pub str_lt_cotrans :
    (s t u : GoString) → str_lt s u ≡ true → (str_lt s t ≡ true) ⊎ (str_lt t u ≡ true)
unfolding str_lt
str_lt_cotrans [] [] [] h = cc
str_lt_cotrans [] [] (e ∷ u) h = ground arith
str_lt_cotrans [] (d ∷ t) u h = ground arith
str_lt_cotrans (c ∷ s) [] [] h = cc
str_lt_cotrans (c ∷ s) [] (e ∷ u) h = ground arith
str_lt_cotrans (c ∷ s) (d ∷ t) [] h = cc
str_lt_cotrans (c ∷ s) (d ∷ t) (e ∷ u) h = ground (arith, str_lt_cotrans s t u)

pub ne_of_str_eq : (s t : GoString) → str_eq s t ≡ false → s ≢ t
ne_of_str_eq s t h e = ground (arith, (str_eq_iff s t).1 e)

-- The decimal digits of a number before a text; `fuel` bounds their number.
unfoldable digits : ℕ → ℕ → GoString → GoString
digits zero n s = s
digits (suc fuel) n s =
    let rest = digits fuel (n / 10) ((48 + n % 10) ∷ s) in if ltb n 10 then (48 + n) ∷ s else rest

-- `%d` of an unsigned number, which has fewer digits than its value plus one.
unfoldable pub decimal : ℕ → GoString
unfolding digits
decimal n = digits (suc n) n []
