-- ===== src/Float.antt =====
-- Go's `float64` and package `math`. A value is its 64 bits; the arithmetic is IEEE-754 hardware
-- and library code, so it is a record of operations that each definition takes as a parameter.
use scootless.Base.{ℕ, Bool, true, false, ◌≡◌}
use scootless.Base.Int.{ℤ}

pub record Float64 : Type 0 where
  pub bits : ℕ

pub record Math : Type 0 where
  pub add : Float64 → Float64 → Float64
  pub sub : Float64 → Float64 → Float64
  pub mul : Float64 → Float64 → Float64
  pub div : Float64 → Float64 → Float64
  -- `a < b`
  pub less : Float64 → Float64 → Bool
  -- The literal `digits / 10 ^ places`.
  pub decimal : (digits places : ℕ) → Float64
  -- `float64(n)` and `int(f)`
  pub of_int : ℤ → Float64
  pub to_int : Float64 → ℤ
  pub pi : Float64
  -- `math.Inf(1)`
  pub infinity : Float64
  pub sin : Float64 → Float64
  pub cos : Float64 → Float64
  pub asin : Float64 → Float64
  pub sqrt : Float64 → Float64
  pub atan2 : Float64 → Float64 → Float64
  -- `math.Mod` and `math.Round`
  pub fmod : Float64 → Float64 → Float64
  pub round : Float64 → Float64
  -- `f == g`, which is not equality of bits.
  pub equal : Float64 → Float64 → Bool

-- Not NaN, which is the one value that does not equal itself.
abbrev pub IsNumber : Math → Float64 → Type 0
IsNumber m a = m.equal a a ≡ true

-- What `<` satisfies by IEEE-754: it is asymmetric, and its failure is transitive through a number.
pub record IsLinear (m : Math) : Type 0 where
  pub asymm : (a b : Float64) → m.less a b ≡ true → m.less b a ≡ false
  pub step :
      (a b c : Float64)
      → IsNumber m b
      → m.less b a ≡ false
      → m.less c b ≡ false
      → m.less c a ≡ false
