-- ===== src/Float.antt =====
-- Go's float64, by its operations. The language's floating point is an interface here: the code is
-- generic in the type `F`, and a theorem that needs a fact of IEEE 754 takes it as a hypothesis.
use aether_serve.Base.{ℕ, ◌^◌, Bool, not, ltb, ◌==◌, ◌<◌, ◌≡◌, false}
use aether_serve.Base.Int.{ℤ, pos, quot, rem}

pub record Float (F : Type 0) : Type 0 where
  pub add : F → F → F
  pub sub : F → F → F
  pub mul : F → F → F
  pub div : F → F → F
  pub abs : F → F
  pub lt : F → F → Bool
  pub le : F → F → Bool
  -- The conversion `float64(n)`, which rounds.
  pub of_ℤ : ℤ → F
  -- The literal m * 10^-e.
  pub literal : ℕ → ℕ → F
  -- `math.Ceil` followed by the conversion to uint64.
  pub ceil_u64 : F → ℕ

module _ {F : Type 0} ⦃fl : Float F⦄ where
  abbrev pub of_ℕ : ℕ → F
  of_ℕ n = fl.of_ℤ (pos n)

  abbrev pub zero_float : F
  zero_float = fl.literal 0 0

  -- `Duration.Seconds`: the whole seconds and the rest are converted one by one.
  abbrev pub seconds : ℤ → F
  seconds d =
      fl.add (fl.of_ℤ (quot d 1000000000))
        (fl.div (fl.of_ℤ (rem d 1000000000)) (fl.literal 1000000000 0))

module _ (F : Type 0) ⦃fl : Float F⦄ where
  -- Facts of IEEE 754 arithmetic, NaN and the infinities included: `<` is irreflexive, and taking a
  -- converted unsigned number away from a value does not raise it above a bound.
  pub record OrderLaws : Type 0 where
    pub lt_irrefl : (x : F) → fl.lt x x ≡ false
    pub sub_bounded : (b x : F) (n : ℕ) → fl.lt b x ≡ false → fl.lt b (fl.sub x (of_ℕ n)) ≡ false

  -- Integers below 2^53 are converted exactly: they compare as they are, and two that differ are at
  -- least 1 apart, which is more than the literal 1e-12.
  pub record ExactLaws : Type 0 where
    pub lt-of_ℕ : (a b : ℕ) → a < 2 ^ 53 → b < 2 ^ 53 → fl.lt (of_ℕ a) (of_ℕ b) ≡ ltb a b
    pub apart-of_ℕ :
        (a b : ℕ)
        → a < 2 ^ 53
        → b < 2 ^ 53
        → fl.lt (fl.literal 1 12) (fl.abs (fl.sub (of_ℕ a) (of_ℕ b))) ≡ not (a == b)
