-- ===== src/Wire/Bits.antt =====
-- The bits of a number that stands in two parts: the operators `|` and `&` of the source by sums and
-- remainders.
use Prim.Native.Nat.{min, max, bit_and, bit_or, digits, bit_and-bitwise, bit_or-bitwise}
use native.Mathlib.Nat.{div-div-eq-div-mul, pow-succ'}
use nju_networking_lab.Base.{
  ℕ, zero, suc, ◌+◌, ◌*◌, ◌/◌, ◌%◌, ◌^◌, ◌≤◌, ◌≡◌, refl, sym, ap, ◌∙◌, arith,
}

-- Fuel beyond the first number changes nothing.
enough_digits :
    (z : ℕ → ℕ) (f : ℕ → ℕ → ℕ) (a b fuel fuel' : ℕ)
    → a ≤ fuel
    → a ≤ fuel'
    → digits z f fuel a b ≡ digits z f fuel' a b
enough_digits z f zero b zero zero h h' = refl
enough_digits z f zero b zero (suc fuel') h h' = refl
enough_digits z f zero b (suc fuel) zero h h' = refl
enough_digits z f zero b (suc fuel) (suc fuel') h h' = refl
enough_digits z f (suc a) b zero fuel' h h' = absurd (omega arith)
enough_digits z f (suc a) b (suc fuel) zero h h' = absurd (omega arith)
enough_digits z f (suc a) b (suc fuel) (suc fuel') h h' =
    rw (enough_digits z f (suc a / 2) (b / 2) fuel fuel' (omega arith) (omega arith))

-- The lowest bit, and the others.
or_halves : (a b : ℕ) → bit_or a b ≡ 2 * bit_or (a / 2) (b / 2) + max (a % 2) (b % 2)
or_halves zero b = omega (arith, bit_or-bitwise 0 b, bit_or-bitwise 0 (b / 2))
or_halves (suc a) b = omega (
  arith,
  bit_or-bitwise (suc a) b,
  bit_or-bitwise (suc a / 2) (b / 2),
  enough_digits (λ d. d) max (suc a / 2) (b / 2) a (suc a / 2) (omega arith) (omega arith),
)

and_halves : (a b : ℕ) → bit_and a b ≡ 2 * bit_and (a / 2) (b / 2) + min (a % 2) (b % 2)
and_halves zero b = omega (arith, bit_and-bitwise 0 b, bit_and-bitwise 0 (b / 2))
and_halves (suc a) b = omega (
  arith,
  bit_and-bitwise (suc a) b,
  bit_and-bitwise (suc a / 2) (b / 2),
  enough_digits (λ d. zero) min (suc a / 2) (b / 2) a (suc a / 2) (omega arith) (omega arith),
)

or_nothing : (fuel a : ℕ) → a ≤ fuel → bit_or a 0 ≡ a
or_nothing zero a h = let e : a ≡ 0 = omega arith in rw e refl
or_nothing (suc fuel) a h = omega (arith, or_halves a 0, or_nothing fuel (a / 2) (omega arith))

and_nothing : (fuel a : ℕ) → a ≤ fuel → bit_and a 0 ≡ 0
and_nothing zero a h = let e : a ≡ 0 = omega arith in rw e refl
and_nothing (suc fuel) a h = omega (arith, and_halves a 0, and_nothing fuel (a / 2) (omega arith))

-- `a << k`, `(1 << k) - 1`, the lowest `k` bits of `a`, and the bits above them.
unfoldable pub shift : ℕ → ℕ → ℕ
shift zero a = a
shift (suc k) a = 2 * shift k a

unfoldable pub ones : ℕ → ℕ
ones zero = 0
ones (suc k) = 2 * ones k + 1

unfoldable pub low : ℕ → ℕ → ℕ
low zero a = 0
low (suc k) a = 2 * low k (a / 2) + a % 2

unfoldable pub high : ℕ → ℕ → ℕ
high zero a = a
high (suc k) a = high k (a / 2)

-- `(a << k) | b`, for a `b` of `k` bits.
pub or_low : (k a b : ℕ) → b ≤ ones k → bit_or (shift k a) b ≡ shift k a + b
unfolding shift ones
or_low zero a b h =
    let e : b ≡ 0 = omega arith in rw (e) (or_nothing a a (omega arith) ∙ omega arith)
or_low (suc k) a b h =
    let half : 2 * shift k a / 2 ≡ shift k a = omega arith in
    let rest : bit_or (2 * shift k a / 2) (b / 2) ≡ shift k a + b / 2 =
      rw half (or_low k a (b / 2) (omega arith)) in
    omega (arith, or_halves (2 * shift k a) b, rest)

-- `a & ((1 << k) - 1)`
pub and_ones : (k a : ℕ) → bit_and a (ones k) ≡ low k a
unfolding low ones
and_ones zero a = and_nothing a a (omega arith)
and_ones (suc k) a =
    let half : (2 * ones k + 1) / 2 ≡ ones k = omega arith in
    let rest : bit_and (a / 2) ((2 * ones k + 1) / 2) ≡ low k (a / 2) =
      rw half (and_ones k (a / 2)) in
    omega (arith, and_halves a (2 * ones k + 1), rest)

-- `a & (1 << k)`
pub and_bit : (k a : ℕ) → bit_and a (shift k 1) ≡ shift k (high k a % 2)
unfolding shift high
and_bit zero a = omega (arith, and_halves a 1, and_nothing (a / 2) (a / 2) (omega arith))
and_bit (suc k) a =
    let half : 2 * shift k 1 / 2 ≡ shift k 1 = omega arith in
    let rest : bit_and (a / 2) (2 * shift k 1 / 2) ≡ shift k (high k (a / 2) % 2) =
      rw half (and_bit k (a / 2)) in
    omega (arith, and_halves a (2 * shift k 1), rest)

all_low : (m a : ℕ) → a ≤ ones m → low m a ≡ a
unfolding low ones
all_low zero a h = omega (arith, h)
all_low (suc m) a h = omega (arith, all_low m (a / 2) (omega (arith, h)))

pub shift-injective : (k a b : ℕ) → shift k a ≡ shift k b → a ≡ b
unfolding shift
shift-injective zero a b h = h
shift-injective (suc k) a b h = shift-injective k a b (omega (arith, h))

-- The shifts as a product and a quotient.
pub shift_lem : (k a : ℕ) → shift k a ≡ a * 2 ^ k
unfolding shift
shift_lem zero a = omega arith
shift_lem (suc k) a = rw (pow-succ' 2 k) (omega (arith, shift_lem k a))

pub high_lem : (k a : ℕ) → high k a ≡ a / 2 ^ k
unfolding high
high_lem zero a = omega arith
high_lem (suc k) a =
    high_lem k (a / 2) ∙ div-div-eq-div-mul a 2 (2 ^ k) ∙ ap (λ n. a / n) (sym (pow-succ' 2 k))

-- `a & ~((1 << k) - 1)`, for an `a` of `k + m` bits.
pub and_high :
    (k m a : ℕ) → a ≤ shift k (ones m) + ones k → bit_and a (shift k (ones m)) ≡ shift k (high k a)
unfolding shift ones high
and_high zero m a h = and_ones m a ∙ all_low m a (omega (arith, h))
and_high (suc k) m a h =
    let half : 2 * shift k (ones m) / 2 ≡ shift k (ones m) = omega arith in
    let rest : bit_and (a / 2) (2 * shift k (ones m) / 2) ≡ shift k (high k (a / 2)) =
      rw half (and_high k m (a / 2) (omega (arith, h))) in
    omega (arith, and_halves a (2 * shift k (ones m)), rest)
