-- ===== src/Xhci/Memory/Grants.antt =====
-- The blocks that alloc of the driver's machine hands out.
use mon_os.Base.{
  ℕ, ◌+◌, ◌^◌, ◌≤◌, ◌≡◌, refl, arith, Bool, true, false, Option, none, some, if◌then◌else◌,
}
use mon_os.Pmm.{Pmm, page_size, alloc_aligned}
use mon_os.Pmm.Alloc.{round_up, fits, alloc_aligned_lem}
use mon_os.Xhci.Machine.{Host, M, alloc, ◌>>=◌}
use mon_os.Xhci.Invariant.{Ends}
use mon_os.Xhci.Memory.{Domain, IsMemory, trace_later, StateFits-later}
use mon_os.Xhci.Memory.Rules.{Leaves, Gives, given-Gives}

-- A block that alloc returns
unfoldable Granted : Domain → ℕ → ℕ → Option ℕ → Type 0
Granted d size n none = Unit {0}
Granted d size n (some p) = IsMemory d n p size

-- The allocator's answer to a request that does not overflow: a block between the old NEXT_FREE and the new
record Extends (p : Pmm) (size : ℕ) (p' : Pmm) (got : Option ℕ) : Type 0 where
  later : p.next_free ≤ p'.next_free
  limit : p'.limit ≡ p.limit
  block : (a : ℕ) → got ≡ some a → (p.next_free ≤ a) × (a + size ≤ p'.next_free)

alloc_aligned-Extends :
    (p : Pmm) (size : ℕ)
    → p.limit + page_size ≤ 2 ^ 64
    → size + page_size ≤ 2 ^ 64
    → Extends p size (alloc_aligned p size 64).0 (alloc_aligned p size 64).1
alloc_aligned-Extends p size room small =
    rw (alloc_aligned_lem p size 6 (omega arith) (omega arith) (omega arith)) (
      decided (fits p size 64) (round_up p.next_free 64) (round_up size 4096) (omega arith)
        (omega arith))
  where
    outcome : Bool → ℕ → ℕ → Pmm × Option ℕ
    outcome b start bytes =
        if b then (record p { next_free = start + bytes }, some start) else (p, none)

    decided :
        (b : Bool) (start bytes : ℕ)
        → p.next_free ≤ start
        → size ≤ bytes
        → Extends p size (outcome b start bytes).0 (outcome b start bytes).1
    decided true start bytes le enough = record {
      later = omega arith;
      limit = refl;
      block = λ a e. (ground (arith, e), ground (arith, e));
    }
    decided false start bytes le enough = record {
      later = omega arith;
      limit = refl;
      block = λ a e. absurd (ground (arith, e));
    }

alloc-Gives :
    {d : Domain} (n size : ℕ)
    → size + page_size ≤ 2 ^ 64
    → Gives d n (Granted d size) (alloc size 64)
unfolding Leaves Ends alloc Granted
alloc-Gives {d} n size small = record {
  at = λ h le sound.
      let got = alloc_aligned-Extends h.pmm size sound.room small in
      (
        record {
          started = omega (arith, sound.started, got.later);
          room = omega (arith, sound.room, got.limit);
          trace = trace_later d _ _ h.trace got.later sound.trace;
          state = StateFits-later d _ _ h.state got.later sound.state;
        },
        got.later,
        granted h sound.started _ refl got.block,
      );
}
  where
    granted :
        (h : Host)
        → d.first ≤ h.pmm.next_free
        → (o : Option ℕ) → (alloc_aligned h.pmm size 64).1 ≡ o
        → ((a : ℕ)
            → (alloc_aligned h.pmm size 64).1 ≡ some a
            → (h.pmm.next_free ≤ a) × (a + size ≤ (alloc_aligned h.pmm size 64).0.next_free))
        → Granted d size (alloc_aligned h.pmm size 64).0.next_free o
    granted h started none e block = tt
    granted h started (some a) e block = record {
      from = omega (arith, started, (block a e).0);
      to = (block a e).1;
    }

-- A block is asked for, and what follows uses it where it is there.
pub block-Gives :
    {d : Domain} {A : Type 0} (n size : ℕ) (Q : ℕ → A → Type 0) (k : Option ℕ → M A)
    → size + page_size ≤ 2 ^ 64
    → ((n' : ℕ) → n ≤ n' → Gives d n' Q (k none))
    → ((a n' : ℕ) → n ≤ n' → IsMemory d n' a size → Gives d n' Q (k (some a)))
    → Gives d n Q (alloc size 64 >>= k)
unfolding Granted
block-Gives {d} n size Q k small absent next =
    given-Gives n (Granted d size) Q (alloc size 64) k (alloc-Gives n size small) handed
  where
    handed : (got : Option ℕ) (n' : ℕ) → n ≤ n' → Granted d size n' got → Gives d n' Q (k got)
    handed none n' le g = absent n' le
    handed (some a) n' le g = next a n' le g
