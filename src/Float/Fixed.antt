-- ===== src/Float/Fixed.antt =====
-- Decimals with two places, an arithmetic that satisfies the laws of the floats and runs.
use native.Mathlib.Decide.{dec_le}
use native.Mathlib.Nat.{mul_comm, mul-le-mul, div-mul-le_self, le-div_iff_mul-le, le_refl}
use ujin.Prelude.{
  ℕ, zero, suc, ◌+◌, ◌-◌, ◌*◌, ◌/◌, ◌≤◌, ◌<◌, ◌≡◌, ap, Option, none, some, arith, ltb,
  if◌then◌else◌,
}
use ujin.Float.{FloatOps, FloatLaws}

fixed_power : ℕ → ℕ → ℕ
fixed_power x zero = 100
fixed_power x (suc n) = fixed_power x n * x / 100

-- a power overflows from the exponent 1024 on, as 2.0 ** 1024 does
unfoldable pub fixed_pow : ℕ → ℕ → Option ℕ
unfolding fixed_power
fixed_pow x n = if ltb n 1024 then some (fixed_power x n) else none

instance abbrev pub fixed : FloatOps
fixed = record {
  lit = λ a b. 100 * a / b;
  add = λ x y. x + y;
  sub = λ x y. x - y;
  mul = λ x y. x * y / 100;
  div = λ x y. x * 100 / y;
  pow = fixed_pow;
  trunc = λ x. x / 100;
  nearest = λ x. (x + 50) / 100;
}

div_mono : (a b n : ℕ) → a ≤ b → a / n ≤ b / n
div_mono a b n h = grind arith

cancel : (k a b : ℕ) → 0 < b → k * b ≤ a * b → k ≤ a
cancel k a b p h = grind arith

fixed_lit_mono : (a b c d : ℕ) → 0 < b → 0 < d → a * d ≤ c * b → 100 * a / b ≤ 100 * c / d
fixed_lit_mono a b c d p q h =
    let k : ℕ = 100 * a / b in
    let below : k * b ≤ 100 * a = div-mul-le_self (100 * a) b in
    (le-div_iff_mul-le q).1
      (cancel (k * d) (100 * c) b p (omega (arith, mul-le-mul below (le_refl d))))

fixed_shrinks : (x y : ℕ) → y ≤ 100 → x * y / 100 ≤ x
fixed_shrinks x y h = omega (arith, mul-le-mul (le_refl x) h)

fixed_grows : (x y : ℕ) → 100 ≤ y → x ≤ x * y / 100
fixed_grows x y h = omega (arith, mul-le-mul (le_refl x) h)

fixed_power_mono : (x m n : ℕ) → 100 ≤ x → m ≤ n → fixed_power x m ≤ fixed_power x n
unfolding fixed_power
fixed_power_mono x m zero h k = let e : m ≡ 0 = omega arith in rw e (le_refl _)
fixed_power_mono x m (suc n) h k = elim (dec_le m n) [
  | yes below ↦ omega (arith, fixed_power_mono x m n h below, fixed_grows (fixed_power x n) x h)
  | no above ↦ let e : m ≡ suc n = omega arith in rw e (le_refl _)
]

fixed_pow_mono :
    (x m n : ℕ) {p q : ℕ}
    → 100 ≤ x
    → m ≤ n
    → fixed_pow x m ≡ some p
    → fixed_pow x n ≡ some q
    → p ≤ q
unfolding fixed_pow
fixed_pow_mono x m n h k e f = ground (arith, fixed_power_mono x m n h k)

fixed_pow_overflow : (x m n : ℕ) → m ≤ n → fixed_pow x m ≡ none → fixed_pow x n ≡ none
unfolding fixed_pow
fixed_pow_overflow x m n k e = ground arith

fixed_lit_pos : (a b : ℕ) → 0 < b → b ≤ 100 * a → 0 < 100 * a / b
fixed_lit_pos a b p h = (le-div_iff_mul-le p).1 (omega arith)

fixed_div_anti : (x y y' : ℕ) → 0 < y → y ≤ y' → x / y' ≤ x / y
fixed_div_anti x y y' p k =
    let q : ℕ = x / y' in
    (le-div_iff_mul-le p).1 (omega (arith, div-mul-le_self x y', mul-le-mul (le_refl q) k))

pub fixed_laws : FloatLaws fixed
fixed_laws = record {
  lit_mono = λ a b c d p q h. fixed_lit_mono a b c d p q h;
  zero-lt-one = omega arith;
  add_grows = λ x y p q. omega arith;
  sub_shrinks = λ x y p q. omega arith;
  sub_nonneg = λ x y p q. omega arith;
  mul_nonneg = λ x y p q. omega arith;
  mul_shrinks = λ x y p q r. fixed_shrinks x y r;
  mul_grows = λ x y p q. fixed_grows x y q;
  mul_mono = λ x x' y p q r. div_mono _ _ 100 (mul-le-mul q (omega arith));
  div_mono = λ x x' y p q r. div_mono _ _ y (omega arith);
  mul_comm = λ x y. ap (λ t. t / 100) (mul_comm x y);
  pow_mono = λ x m n h k e f. fixed_pow_mono x m n h k e f;
  pow_nonneg = λ x n h e. omega arith;
  pow_overflow = λ x m n h k e. fixed_pow_overflow x m n k e;
  add_mono = λ x y y' h k. omega arith;
  div_nonneg = λ x y h k. omega arith;
  halves = λ x h. omega arith;
  trunc_mono = λ x y h. omega arith;
  lit_pos = λ a b p h. fixed_lit_pos a b p h;
  add_zero = λ x. omega arith;
  mul_zero = λ a b h. omega arith;
  div_one = λ x. omega arith;
  div_anti = λ x y y' h p k. fixed_div_anti (x * 100) y y' p k;
  add_comm = λ x y. omega arith;
  trunc_lit = λ n h. omega arith;
  nearest_mono = λ x y h. omega arith;
  nearest_lit = λ n h. omega arith;
  sub_nonpos = λ x y p h. omega arith;
  sub_mono = λ x x' y p h. omega arith;
}
