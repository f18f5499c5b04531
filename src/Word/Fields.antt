-- ===== src/Word/Fields.antt =====
-- `|` of values whose bits do not meet, and `&` with a mask of low ones, as arithmetic.
use Prim.Native.Nat.{digits, bit_and-bitwise, bit_or-bitwise}
use native.Mathlib.Nat.{pow-suc, one-le-pow}
use js_ffi_cross.Base.{
  ℕ, zero, suc, ◌+◌, ◌-◌, ◌*◌, ◌/◌, ◌%◌, ◌^◌, ◌≤◌, ◌<◌, min, max, bit_and, bit_or, ◌≡◌, refl, ap,
  arith,
}

-- Any two sufficient amounts of fuel give the same digits.
module _ (z : ℕ → ℕ) (f : ℕ → ℕ → ℕ) where
  digits_enough : (n m a b : ℕ) → a ≤ n → a ≤ m → digits z f n a b ≡ digits z f m a b
  digits_enough zero zero a b p q = refl
  digits_enough zero (suc m) zero b p q = refl
  digits_enough (suc n) zero zero b p q = refl
  digits_enough (suc n) (suc m) zero b p q = refl
  digits_enough zero m (suc a) b p q = absurd (omega arith)
  digits_enough (suc n) zero (suc a) b p q = absurd (omega arith)
  digits_enough (suc n) (suc m) (suc a) b p q =
      rw (digits_enough n m (suc a / 2) (b / 2) (omega arith) (omega arith))

or_digit : (a b : ℕ) → bit_or a b ≡ bit_or (a / 2) (b / 2) * 2 + max (a % 2) (b % 2)
or_digit zero b = simp bit_or-bitwise (omega arith)
or_digit (suc a) b = simp bit_or-bitwise (
    omega (
      arith,
      digits_enough (λ y. y) max a (suc a / 2) (suc a / 2) (b / 2) (omega arith) (omega arith),
    ))

and_digit : (a b : ℕ) → bit_and a b ≡ bit_and (a / 2) (b / 2) * 2 + min (a % 2) (b % 2)
and_digit zero b = simp bit_and-bitwise (omega arith)
and_digit (suc a) b = simp bit_and-bitwise (
    omega (
      arith,
      digits_enough (λ y. 0) min a (suc a / 2) (suc a / 2) (b / 2) (omega arith) (omega arith),
    ))

zero_or : (b : ℕ) → bit_or 0 b ≡ b
zero_or b = bit_or-bitwise 0 b

or_zero_upto : (n a : ℕ) → a ≤ n → bit_or a 0 ≡ a
or_zero_upto zero a h = ground (arith, or_digit a 0)
or_zero_upto (suc n) zero h = refl
or_zero_upto (suc n) (suc a) h =
    omega (arith, or_digit (suc a) 0, or_zero_upto n (suc a / 2) (omega arith))

and_zero_upto : (n a : ℕ) → a ≤ n → bit_and a 0 ≡ 0
and_zero_upto n zero h = refl
and_zero_upto zero (suc a) h = absurd (omega arith)
and_zero_upto (suc n) (suc a) h =
    omega (arith, and_digit (suc a) 0, and_zero_upto n (suc a / 2) (omega arith))

double_pow : (q k : ℕ) → q * 2 ^ suc k ≡ 2 * (q * 2 ^ k)
double_pow q k = omega (arith, ap (λ (t : ℕ). q * t) (pow-suc 2 k))

-- The low part stands on the left, as in `buf[i] | (buf[i + 1] << 8)`.
pub or_low_high : (k r q : ℕ) → r < 2 ^ k → bit_or r (q * 2 ^ k) ≡ r + q * 2 ^ k
or_low_high zero r q h = let e : r ≡ 0 = omega arith in rw e (omega (arith, zero_or (q * 2 ^ 0)))
or_low_high (suc k) r q h = ground (
  arith,
  or_digit r (q * 2 ^ suc k),
  double_pow q k,
  pow-suc 2 k,
  or_low_high k (r / 2) q (omega (arith, pow-suc 2 k)),
)

-- The high part stands on the left, as in `(buf[i] << 8) | buf[i + 1]`.
pub or_high_low : (k q r : ℕ) → r < 2 ^ k → bit_or (q * 2 ^ k) r ≡ q * 2 ^ k + r
or_high_low zero q r h = ground (arith, or_zero_upto q q)
or_high_low (suc k) q r h = ground (
  arith,
  or_digit (q * 2 ^ suc k) r,
  double_pow q k,
  pow-suc 2 k,
  or_high_low k q (r / 2) (omega (arith, pow-suc 2 k)),
)

mask_of_sum : (k q r : ℕ) → r < 2 ^ k → bit_and (q * 2 ^ k + r) (2 ^ k - 1) ≡ r
mask_of_sum zero q r h = ground (arith, and_zero_upto (q * 1 + r) (q * 1 + r))
mask_of_sum (suc k) q r h = ground (
  arith,
  and_digit (q * 2 ^ suc k + r) (2 ^ suc k - 1),
  double_pow q k,
  pow-suc 2 k,
  one-le-pow k 2,
  mask_of_sum k q (r / 2) (omega (arith, pow-suc 2 k)),
)

pub and_mask : (k a : ℕ) → bit_and a (2 ^ k - 1) ≡ a % 2 ^ k
and_mask k a = ground (arith, one-le-pow k 2, mask_of_sum k (a / 2 ^ k) (a % 2 ^ k))

bit_of_sum : (k q r : ℕ) → r < 2 ^ k → bit_and (q * 2 ^ k + r) (2 ^ k) ≡ q % 2 * 2 ^ k
bit_of_sum zero q r h =
    ground (arith, and_digit (q * 1 + r) 1, and_zero_upto ((q * 1 + r) / 2) ((q * 1 + r) / 2))
bit_of_sum (suc k) q r h = ground (
  arith,
  and_digit (q * 2 ^ suc k + r) (2 ^ suc k),
  double_pow q k,
  double_pow (q % 2) k,
  pow-suc 2 k,
  bit_of_sum k q (r / 2) (omega (arith, pow-suc 2 k)),
)

-- One bit, tested by `&` with a power of two.
pub and_pow : (k a : ℕ) → bit_and a (2 ^ k) ≡ a / 2 ^ k % 2 * 2 ^ k
and_pow k a = ground (arith, one-le-pow k 2, bit_of_sum k (a / 2 ^ k) (a % 2 ^ k))
