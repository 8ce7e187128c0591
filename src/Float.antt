-- ===== src/Float.antt =====
-- Python's floats. A float other than NaN is modelled by its rank in the order of the floats (0.0 and
-- -0.0, which compare equal, have one rank), so `<=`, `min` and `max` are those of the ranks.
-- The arithmetic is a parameter on ranks: `FloatOps`, with its laws in `FloatLaws`.
pub mod Fixed
use ujin.Prelude.{ℕ, ◌*◌, ◌≤◌, ◌<◌, ◌≡◌, Option, none, some}

abbrev pub Float : Type 0
Float = ℕ

pub record FloatOps : Type 0 where
  -- the float nearest to the quotient, for a literal: `1.6` is `lit 16 10`
  pub lit : ℕ → ℕ → Float
  pub add : Float → Float → Float
  pub sub : Float → Float → Float
  pub mul : Float → Float → Float
  pub div : Float → Float → Float
  -- `x ** n`; `none` is OverflowError
  pub pow : Float → ℕ → Option Float
  -- `int(x)` and `round(x)` of a float that is not below 0; below 0 the model has 0
  pub trunc : Float → ℕ
  pub nearest : Float → ℕ

module _ ⦃F : FloatOps⦄ where
  abbrev pub lit : ℕ → ℕ → Float
  lit = F.lit

  abbrev pub add : Float → Float → Float
  add = F.add

  abbrev pub sub : Float → Float → Float
  sub = F.sub

  abbrev pub mul : Float → Float → Float
  mul = F.mul

  abbrev pub div : Float → Float → Float
  div = F.div

  abbrev pub pow : Float → ℕ → Option Float
  pow = F.pow

  abbrev pub float_zero : Float
  float_zero = F.lit 0 1

  abbrev pub float_one : Float
  float_one = F.lit 1 1

-- 2 ** 53: the whole numbers up to it are doubles
abbrev pub exact_limit : ℕ
exact_limit = 9007199254740992

-- What IEEE 754 says of results that are rounded to nearest. Where an operation on floats gives a NaN
-- (0 times an infinity, a difference or a quotient of infinities) the model's gives 0.0; the code
-- divides by no zero.
pub record FloatLaws (F : FloatOps) : Type 0 where
  pub lit_mono : (a b c d : ℕ) → 0 < b → 0 < d → a * d ≤ c * b → F.lit a b ≤ F.lit c d
  pub zero-lt-one : F.lit 0 1 < F.lit 1 1
  pub add_grows : (x y : Float) → F.lit 0 1 ≤ x → F.lit 0 1 ≤ y → x ≤ F.add x y
  pub sub_shrinks : (x y : Float) → F.lit 0 1 ≤ x → F.lit 0 1 ≤ y → F.sub x y ≤ x
  pub sub_nonneg : (x y : Float) → F.lit 0 1 ≤ y → y ≤ x → F.lit 0 1 ≤ F.sub x y
  pub mul_nonneg : (x y : Float) → F.lit 0 1 ≤ x → F.lit 0 1 < y → F.lit 0 1 ≤ F.mul x y
  pub mul_shrinks : (x y : Float) → F.lit 0 1 ≤ x → F.lit 0 1 < y → y ≤ F.lit 1 1 → F.mul x y ≤ x
  pub mul_grows : (x y : Float) → F.lit 0 1 < x → F.lit 1 1 ≤ y → x ≤ F.mul x y
  pub mul_mono : (x x' y : Float) → F.lit 0 1 ≤ x → x ≤ x' → F.lit 0 1 < y → F.mul x y ≤ F.mul x' y
  pub div_mono : (x x' y : Float) → F.lit 0 1 < y → F.lit 0 1 ≤ x → x ≤ x' → F.div x y ≤ F.div x' y
  pub mul_comm : (x y : Float) → F.mul x y ≡ F.mul y x
  -- a power that overflows does so at every larger exponent
  pub pow_mono :
      (x : Float) (m n : ℕ) {p q : Float}
      → F.lit 1 1 ≤ x
      → m ≤ n
      → F.pow x m ≡ some p
      → F.pow x n ≡ some q
      → p ≤ q
  pub pow_nonneg :
      (x : Float) (n : ℕ) {p : Float} → F.lit 1 1 ≤ x → F.pow x n ≡ some p → F.lit 0 1 ≤ p
  pub pow_overflow :
      (x : Float) (m n : ℕ) → F.lit 1 1 ≤ x → m ≤ n → F.pow x m ≡ none → F.pow x n ≡ none
  pub add_mono : (x y y' : Float) → F.lit 0 1 ≤ x → y ≤ y' → F.add x y ≤ F.add x y'
  pub div_nonneg : (x y : Float) → F.lit 0 1 ≤ x → F.lit 0 1 < y → F.lit 0 1 ≤ F.div x y
  pub halves : (x : Float) → F.lit 1 1 ≤ x → F.add (F.div x (F.lit 2 1)) (F.div x (F.lit 2 1)) ≤ x
  pub trunc_mono : (x y : Float) → x ≤ y → F.trunc x ≤ F.trunc y
  pub lit_pos : (a b : ℕ) → 0 < b → b ≤ 100 * a → F.lit 0 1 < F.lit a b
  pub add_zero : (x : Float) → F.add x (F.lit 0 1) ≡ x
  pub mul_zero : (a b : ℕ) → 0 < b → F.mul (F.lit a b) (F.lit 0 1) ≡ F.lit 0 1
  pub div_one : (x : Float) → F.div x (F.lit 1 1) ≡ x
  pub div_anti : (x y y' : Float) → F.lit 0 1 ≤ x → F.lit 0 1 < y → y ≤ y' → F.div x y' ≤ F.div x y
  pub add_comm : (x y : Float) → F.add x y ≡ F.add y x
  pub trunc_lit : (n : ℕ) → n ≤ exact_limit → F.trunc (F.lit n 1) ≡ n
  pub nearest_mono : (x y : Float) → x ≤ y → F.nearest x ≤ F.nearest y
  pub nearest_lit : (n : ℕ) → n ≤ exact_limit → F.nearest (F.lit n 1) ≡ n
  pub sub_nonpos : (x y : Float) → F.lit 0 1 ≤ y → x ≤ y → F.sub x y ≤ F.lit 0 1
  pub sub_mono : (x x' y : Float) → F.lit 0 1 ≤ y → x ≤ x' → F.sub x y ≤ F.sub x' y
