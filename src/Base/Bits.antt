-- ===== src/Base/Bits.antt =====
-- `&` and `|` at variables, as arithmetic: low masks, alignment masks, disjoint fields, and the
-- test for a power of two. All follow from one equation for the lowest binary digit.
use Prim.Native.Nat.{ℕ, zero, suc, ◌+◌, ◌-◌, ◌*◌, ◌/◌, ◌%◌, ◌^◌, ◌≤◌, ◌<◌, min, max}
use Prim.Native.Nat.{bit_and, bit_or, digits, bit_and-bitwise, bit_or-bitwise}
use mathlib.Core.Path.{◌≡◌, refl, ap}
use native.Mathlib.Nat.{pow-suc, one-le-pow, le_refl, mod-eq_of_lt, add-zero, add-suc, mod_self}
use native.Mathlib.Decide.{dec_lt}
use native.Mathlib.Omega.{arith}

-- The native operations stand for a recursion on digits with fuel; any fuel from the first number on
-- gives the same digits.
module _ (rest : ℕ → ℕ) (op : ℕ → ℕ → ℕ) where
  same_digits : (x y k l : ℕ) → x ≤ k → x ≤ l → digits rest op k x y ≡ digits rest op l x y
  same_digits zero y zero zero hk hl = refl
  same_digits zero y zero (suc l) hk hl = refl
  same_digits zero y (suc k) zero hk hl = refl
  same_digits zero y (suc k) (suc l) hk hl = refl
  same_digits (suc x) y zero l hk hl = elim hk [ ]
  same_digits (suc x) y (suc k) zero hk hl = elim hl [ ]
  same_digits (suc x) y (suc k) (suc l) hk hl =
      ap (λ t. t * 2 + op (suc x % 2) (y % 2))
        (same_digits (suc x / 2) (y / 2) k l (omega arith) (omega arith))

pub bit_and_digit : (a b : ℕ) → bit_and a b ≡ bit_and (a / 2) (b / 2) * 2 + min (a % 2) (b % 2)
bit_and_digit zero b = simp bit_and-bitwise (omega arith)
bit_and_digit (suc a) b = simp bit_and-bitwise (
    omega
      (arith, same_digits (λ y. 0) min (suc a / 2) (b / 2) a (suc a / 2) (omega arith) (le_refl _)))

pub bit_or_digit : (a b : ℕ) → bit_or a b ≡ bit_or (a / 2) (b / 2) * 2 + max (a % 2) (b % 2)
bit_or_digit zero b = simp bit_or-bitwise (omega arith)
bit_or_digit (suc a) b = simp bit_or-bitwise (
    omega
      (arith, same_digits (λ y. y) max (suc a / 2) (b / 2) a (suc a / 2) (omega arith) (le_refl _)))

pub zero-bit_and : (b : ℕ) → bit_and 0 b ≡ 0
zero-bit_and b = simp bit_and-bitwise refl

bit_and-zero_below : (n a : ℕ) → a ≤ n → bit_and a 0 ≡ 0
bit_and-zero_below n zero h = refl
bit_and-zero_below zero (suc a) h = absurd (omega arith)
bit_and-zero_below (suc n) (suc a) h =
    omega (arith, bit_and_digit (suc a) 0, bit_and-zero_below n (suc a / 2) (omega arith))

pub bit_and-zero : (a : ℕ) → bit_and a 0 ≡ 0
bit_and-zero a = bit_and-zero_below a a (le_refl a)

bit_or-zero_below : (n a : ℕ) → a ≤ n → bit_or a 0 ≡ a
bit_or-zero_below n zero h = refl
bit_or-zero_below zero (suc a) h = absurd (omega arith)
bit_or-zero_below (suc n) (suc a) h =
    omega (arith, bit_or_digit (suc a) 0, bit_or-zero_below n (suc a / 2) (omega arith))

pub bit_or-zero : (a : ℕ) → bit_or a 0 ≡ a
bit_or-zero a = bit_or-zero_below a a (le_refl a)

bit_and_self_below : (n a : ℕ) → a ≤ n → bit_and a a ≡ a
bit_and_self_below n zero h = refl
bit_and_self_below zero (suc a) h = absurd (omega arith)
bit_and_self_below (suc n) (suc a) h =
    omega (arith, bit_and_digit (suc a) (suc a), bit_and_self_below n (suc a / 2) (omega arith))

pub bit_and_self : (a : ℕ) → bit_and a a ≡ a
bit_and_self a = bit_and_self_below a a (le_refl a)

-- `2 ^ (k + 1)` in the form that `omega` uses, alone and under a factor.
double : (k : ℕ) → 2 ^ suc k ≡ 2 * 2 ^ k
double k = omega (arith, pow-suc 2 k)

double_times : (q k : ℕ) → q * 2 ^ suc k ≡ 2 * (q * 2 ^ k)
double_times q k = omega (arith, ap (λ (t : ℕ). q * t) (pow-suc 2 k))

-- `x & (2 ^ k - 1)` on a number in two fields
mask_fields : (k q r : ℕ) → r < 2 ^ k → bit_and (q * 2 ^ k + r) (2 ^ k - 1) ≡ r
mask_fields zero q r fits = rw bit_and-zero (omega arith)
mask_fields (suc k) q r fits = ground (
  arith,
  bit_and_digit (q * 2 ^ suc k + r) (2 ^ suc k - 1),
  double_times q k,
  double k,
  one-le-pow k 2,
  mask_fields k q (r / 2) (omega (arith, double k)),
)

pub bit_and_low : (k a : ℕ) → bit_and a (2 ^ k - 1) ≡ a % 2 ^ k
bit_and_low k a = ground (arith, one-le-pow k 2, mask_fields k (a / 2 ^ k) (a % 2 ^ k))

-- `x & !(2 ^ k - 1)` on `n` bits, where `x` is in two fields
high_fields :
    (k j q r : ℕ)
    → r < 2 ^ k
    → q < 2 ^ j
    → bit_and (q * 2 ^ k + r) (2 ^ j * 2 ^ k - 2 ^ k) ≡ q * 2 ^ k
high_fields zero j q r fits small = rw (value, mask, bit_and_low, mod-eq_of_lt small) (omega arith)
  where
    value : q * 2 ^ 0 + r ≡ q
    value = omega arith

    mask : 2 ^ j * 2 ^ 0 - 2 ^ 0 ≡ 2 ^ j - 1
    mask = omega arith
high_fields (suc k) j q r fits small = ground (
  arith,
  bit_and_digit (q * 2 ^ suc k + r) (2 ^ j * 2 ^ suc k - 2 ^ suc k),
  double_times q k,
  double_times (2 ^ j) k,
  double k,
  high_fields k j q (r / 2) (omega (arith, double k)),
)

-- `(q << k) | r` is a sum when `r` fits `k` bits.
pub bit_or_fields : (k q r : ℕ) → r < 2 ^ k → bit_or (q * 2 ^ k) r ≡ q * 2 ^ k + r
bit_or_fields zero q r fits = ground (arith, bit_or-zero q)
bit_or_fields (suc k) q r fits = ground (
  arith,
  bit_or_digit (q * 2 ^ suc k) r,
  double_times q k,
  bit_or_fields k q (r / 2) (omega (arith, double k)),
)

pub two-pow-add : (j k : ℕ) → 2 ^ (j + k) ≡ 2 ^ j * 2 ^ k
two-pow-add j zero = simp add-zero (omega arith)
two-pow-add j (suc k) =
    simp add-suc (omega (arith, double (j + k), double_times (2 ^ j) k, two-pow-add j k))

-- `x & !(2 ^ k - 1)` on `n` bits rounds down to a multiple of `2 ^ k`.
pub bit_and_high : (n k x : ℕ) → k ≤ n → x < 2 ^ n → bit_and x (2 ^ n - 2 ^ k) ≡ x / 2 ^ k * 2 ^ k
bit_and_high n k x h small = ground (
  arith,
  ap (λ (t : ℕ). 2 ^ t) total,
  two-pow-add (n - k) k,
  one-le-pow k 2,
  high_fields k (n - k) (x / 2 ^ k) (x % 2 ^ k),
  quotient,
)
  where
    total : n ≡ n - k + k
    total = omega arith

    quotient : x / 2 ^ k < 2 ^ (n - k)
    quotient = grind (arith, two-pow-add (n - k) k, one-le-pow k 2, ap (λ (t : ℕ). 2 ^ t) total)

-- `a & (a - 1)` clears the lowest one: it is 0 exactly at the powers of two (and at 0).
power_below : (n a : ℕ) → a ≤ n → 0 < a → bit_and a (a - 1) ≡ 0 → (k : ℕ) × (a ≡ 2 ^ k)
power_below zero a h pos e = absurd (omega arith)
power_below (suc n) a h pos e = elim (dec_lt 0 (a % 2)) [
  | yes odd ↦ (0, omega (arith, bit_and_digit a (a - 1), odd_half odd, bit_and_self (a / 2)))
  | no even ↦
      twice (omega arith) (power_below n (a / 2) (omega arith) (omega arith) (even_half even))
]
  where
    odd_half : 0 < a % 2 → bit_and (a / 2) ((a - 1) / 2) ≡ a / 2
    odd_half odd = let q : (a - 1) / 2 ≡ a / 2 = omega arith in rw (q, bit_and_self)

    even_half : ¬ (0 < a % 2) → bit_and (a / 2) (a / 2 - 1) ≡ 0
    even_half even =
        let q : (a - 1) / 2 ≡ a / 2 - 1 = omega arith in
        rw (← q) (omega (arith, bit_and_digit a (a - 1)))

    twice : a ≡ 2 * (a / 2) → (k : ℕ) × (a / 2 ≡ 2 ^ k) → (k : ℕ) × (a ≡ 2 ^ k)
    twice even (k, half) = (suc k, omega (arith, double k))

pub power_of_two : (a : ℕ) → 0 < a → bit_and a (a - 1) ≡ 0 → (k : ℕ) × (a ≡ 2 ^ k)
power_of_two a pos e = power_below a a (le_refl a) pos e

pub two-pow-and-pred : (k : ℕ) → bit_and (2 ^ k) (2 ^ k - 1) ≡ 0
two-pow-and-pred k = rw (bit_and_low k (2 ^ k), mod_self)
