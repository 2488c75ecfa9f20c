-- ===== src/Pmm/Alloc.antt =====
-- `alloc_aligned` against an arithmetic description, and the blocks that it grants.
use mon_os.Base.{
  ℕ, ◌+◌, ◌-◌, ◌*◌, ◌/◌, ◌%◌, ◌^◌, ◌≤◌, ◌<◌, max, ◌≡◌, refl, arith, Bool, not, ◌&&◌, none, some,
  List, [], ◌==◌, ltb, leb, if◌then◌else◌, sym, subst,
}
use mon_os.Base.Bits.{two-pow-and-pred}
use mon_os.Pmm.{Pmm, page_size, align_up, plan, alloc_loop, alloc_contended, alloc_aligned}
use mon_os.Pmm.Align.{align_up_lem, align_up_wraps, unit_lem}
use native.Mathlib.Nat.{one-le-pow}

-- `v` rounded up to a multiple of `a`, without masks.
abbrev pub round_up : ℕ → ℕ → ℕ
round_up v a = (v + (a - 1)) / a * a

-- The request of `size` bytes at alignment `align` fits between `next_free` and `limit`.
abbrev pub fits : Pmm → ℕ → ℕ → Bool
fits p size align =
    not (p.next_free == 0)
    && (ltb p.next_free p.limit
        && leb (round_up p.next_free align + round_up size (max page_size align)) p.limit)

-- A power of two passes the test `align & (align - 1) != 0`.
pub accepts :
    (others : List ℕ) (p : Pmm) (size k : ℕ)
    → alloc_contended others p size (2 ^ k)
      ≡ alloc_loop others p (align_up size (max page_size (2 ^ k))) (2 ^ k)
unfolding alloc_contended
accepts others p size k = ground (arith, one-le-pow k 2 (omega arith), two-pow-and-pred k)

pub adj_size_lem :
    (size k : ℕ)
    → k < 64
    → size + max page_size (2 ^ k) ≤ 2 ^ 64
    → align_up size (max page_size (2 ^ k)) ≡ round_up size (max page_size (2 ^ k))
adj_size_lem size k h sized =
    let (j, small, e) = unit_lem k h in
    subst (λ u. align_up size u ≡ round_up size u) (sym e)
      (align_up_lem j size small (omega (arith, e)))

-- On one core, for an alignment that is a power of two and sizes that do not overflow, the allocator
-- grants the first multiple of the alignment at or after `next_free`, reserves the size rounded up
-- to whole pages (or to the alignment, if that is larger), and refuses without a change exactly when
-- that does not fit below the limit or nothing was initialised.
pub alloc_aligned_lem :
    (p : Pmm) (size k : ℕ)
    → k < 64
    → p.limit + 2 ^ k ≤ 2 ^ 64
    → size + max page_size (2 ^ k) ≤ 2 ^ 64
    → alloc_aligned p size (2 ^ k) ≡ (
        if fits p size (2 ^ k)
        then (
          record p {
            next_free = round_up p.next_free (2 ^ k) + round_up size (max page_size (2 ^ k));
          },
          some (round_up p.next_free (2 ^ k)),
        )
        else (p, none))
unfolding alloc_loop plan
alloc_aligned_lem p size k h room sized =
    rw (single, accepts, adj_size_lem size k h sized) (ground (arith, align_up_lem k p.next_free h))
  where
    single : alloc_aligned p size (2 ^ k) ≡ alloc_contended [] p size (2 ^ k)
    single = unfold alloc_aligned in refl

-- `align_up(size, ..)` is not checked for overflow: a size within a page of 2 ^ 64 becomes 0, and
-- the call, which should be refused, grants an empty block whenever anything is free at all.
pub alloc_oversized :
    (p : Pmm) (size : ℕ)
    → 2 ^ 64 - page_size < size
    → size < 2 ^ 64
    → 0 < p.next_free
    → p.next_free % page_size ≡ 0
    → p.next_free < p.limit
    → p.limit + page_size ≤ 2 ^ 64
    → alloc_aligned p size page_size ≡ (p, some p.next_free)
unfolding alloc_aligned alloc_loop plan
alloc_oversized p size large small pos page free room = rw wrapped (ground (arith, start))
  where
    wrapped : align_up size page_size ≡ 0
    wrapped = align_up_wraps size large small

    start : align_up p.next_free page_size ≡ p.next_free
    start = rw (align_up_lem 12 p.next_free (omega arith) (omega arith)) (omega arith)
