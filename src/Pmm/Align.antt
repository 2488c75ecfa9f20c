-- ===== src/Pmm/Align.antt =====
-- Rounding to a power of two, as pmm.rs does it with masks.
use native.Mathlib.Nat.{one-le-pow, pow-le-pow_right, div-add-mod', mod-lt, mul-mod_left}
use mon_os.Base.{
  ℕ, ◌+◌, ◌-◌, ◌*◌, ◌/◌, ◌%◌, ◌^◌, ◌≤◌, ◌<◌, ◌≡◌, max, arith, dec_lt, add64, sub64, not64, bit_and,
}
use mon_os.Base.Bits.{bit_and_high}
use mon_os.Pmm.{page_size, align_up, align_down}

two-pow-lt : (k : ℕ) → k < 64 → 2 ^ k < 2 ^ 64
two-pow-lt k h =
    omega (arith, pow-le-pow_right {n = 2} (omega arith) {i = k} {j = 63} (omega arith))

-- The mask `!(align - 1)` of the code is `2 ^ 64 - 2 ^ k`.
mask_lem : (k : ℕ) → k < 64 → not64 (sub64 (2 ^ k) 1) ≡ 2 ^ 64 - 2 ^ k
mask_lem k h = omega (arith, two-pow-lt k h, one-le-pow k 2 (omega arith))

mask_rounds :
    (k x : ℕ) → k < 64 → x < 2 ^ 64 → bit_and x (not64 (sub64 (2 ^ k) 1)) ≡ x / 2 ^ k * 2 ^ k
mask_rounds k x h small = rw (mask_lem k h) (bit_and_high 64 k x (omega arith) small)

-- For an alignment `2 ^ k` on 64 bits, `align_down` gives the multiple of it just below.
pub align_down_lem : (k v : ℕ) → k < 64 → v < 2 ^ 64 → align_down v (2 ^ k) ≡ v / 2 ^ k * 2 ^ k
unfolding align_down
align_down_lem k v h small = mask_rounds k v h small

pub align_up_lem :
    (k v : ℕ) → k < 64 → v + 2 ^ k ≤ 2 ^ 64 → align_up v (2 ^ k) ≡ (v + (2 ^ k - 1)) / 2 ^ k * 2 ^ k
unfolding align_up
align_up_lem k v h fits =
    rw shifted (mask_rounds k _ h (omega (arith, one-le-pow k 2 (omega arith))))
  where
    shifted : sub64 (add64 v (2 ^ k)) 1 ≡ v + (2 ^ k - 1)
    shifted = omega (arith, one-le-pow k 2 (omega arith))

-- What `align_up` promises: the least multiple of the alignment that is not below the value.
pub record IsRoundedUp (a v r : ℕ) : Type 0 where
  pub multiple : r % a ≡ 0
  pub not_below : v ≤ r
  pub close : r < v + a

pub align_up-IsRoundedUp :
    (k v : ℕ) → k < 64 → v + 2 ^ k ≤ 2 ^ 64 → IsRoundedUp (2 ^ k) v (align_up v (2 ^ k))
align_up-IsRoundedUp k v h fits = rw (align_up_lem k v h fits) (record {
  multiple = mul-mod_left ((v + (2 ^ k - 1)) / 2 ^ k) (2 ^ k);
  not_below = omega (arith, parts, rest, one-le-pow k 2 (omega arith));
  close = omega (arith, parts, rest, one-le-pow k 2 (omega arith));
})
  where
    parts : (v + (2 ^ k - 1)) / 2 ^ k * 2 ^ k + (v + (2 ^ k - 1)) % 2 ^ k ≡ v + (2 ^ k - 1)
    parts = div-add-mod' _ _

    rest : (v + (2 ^ k - 1)) % 2 ^ k < 2 ^ k
    rest = mod-lt _ (one-le-pow k 2 (omega arith))

-- The unit of `alloc_aligned` is a power of two too.
pub unit_lem : (k : ℕ) → k < 64 → (j : ℕ) × (j < 64) × (max page_size (2 ^ k) ≡ 2 ^ j)
unit_lem k h = elim (dec_lt k 12) [
  | yes small ↦ (
    12,
    omega arith,
    omega (arith, pow-le-pow_right {n = 2} (omega arith) {i = k} {j = 12} (omega arith)),
  )
  | no large ↦
      (k, h, omega (arith, pow-le-pow_right {n = 2} (omega arith) {i = 12} {j = k} (omega arith)))
]

-- Within a page of 2 ^ 64 the sum in `align_up` wraps, and the result is 0.
pub align_up_wraps : (v : ℕ) → 2 ^ 64 - page_size < v → v < 2 ^ 64 → align_up v page_size ≡ 0
unfolding align_up
align_up_wraps v large small =
    rw (mask_rounds 12 (sub64 (add64 v page_size) 1) (omega arith) (omega arith)) (omega arith)
