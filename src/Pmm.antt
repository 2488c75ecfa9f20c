-- ===== src/Pmm.antt =====
-- kernel/src/pmm.rs: the bump allocator of physical pages. `NEXT_FREE` and `LIMIT` are the state;
-- what the code prints is an event. Arithmetic on u64 wraps, as in the release build that the
-- Makefile makes.
pub mod Align
pub mod Alloc
pub mod Contention
pub mod Region
mod Tests
use mon_os.Base.{
  ℕ, ◌+◌, ◌-◌, ◌/◌, ◌^◌, max, Bool, ◌||◌, List, [], ◌∷◌, Option, none, some, ◌==◌, ltb, leb, not,
  if◌then◌else◌, bit_and, not64, add64, sub64,
}
use mon_os.Base.Memory.{Memory}
use mon_os.BootInfo.{BootInfo, MemoryMapEntry, is_usable, entries}

pub record Pmm : Type 0 where
  pub next_free : ℕ
  pub limit : ℕ

-- The two `AtomicU64::new(0)`
abbrev pub initial : Pmm
initial = record { next_free = 0; limit = 0 }

abbrev pub page_size : ℕ
page_size = 4096

unfoldable pub align_up : ℕ → ℕ → ℕ
align_up value align = bit_and (sub64 (add64 value align) 1) (not64 (sub64 align 1))

unfoldable pub align_down : ℕ → ℕ → ℕ
align_down value align = bit_and value (not64 (sub64 align 1))

pub record Best : Type 0 where
  pub base : ℕ
  pub len : ℕ

-- The body of the `for` loop of `init`; the two `continue`s keep what was best.
unfoldable pub consider : Best → MemoryMapEntry → Best
consider best entry =
    let start = align_up entry.base_addr page_size in
    let end = align_down (add64 entry.base_addr entry.length) page_size in
    if not (is_usable entry)
    then best
    else if leb end start
    then best
    else if ltb best.len (end - start)
    then record { base = start; len = end - start }
    else best

unfoldable pub best_of : Best → List MemoryMapEntry → Best
best_of best [] = best
best_of best (entry ∷ rest) = best_of (consider best entry) rest

pub data Message : Type 0 where
  using_region : ℕ → ℕ → Message
  no_usable_memory : Message

unfoldable pub init : Memory → BootInfo → Pmm → Pmm × Message
init mem boot p =
    let best = best_of (record { base = 0; len = 0 }) (entries mem boot) in
    if leb page_size best.len
    then (
      record { next_free = best.base; limit = add64 best.base best.len },
      using_region best.base (add64 best.base best.len),
    )
    else (p, no_usable_memory)

-- One round of the loop of `alloc_aligned` up to the `compare_exchange`: `none` is a return of
-- `None`, else the aligned start and the end that is to be stored.
unfoldable pub plan : ℕ → ℕ → ℕ → ℕ → Option (ℕ × ℕ)
plan limit current adj_size align =
    if current == 0 || leb limit current
    then none
    else let aligned = align_up current align in
      if leb (2 ^ 64) (aligned + adj_size)
      then none
      else if ltb limit (aligned + adj_size)
      then none
      else some (aligned, aligned + adj_size)

-- The loop. The list holds, for each round that other cores disturb, the value of `NEXT_FREE` that
-- they leave between the loads and the `compare_exchange`; once it is used up nobody disturbs.
unfoldable pub alloc_loop : List ℕ → Pmm → ℕ → ℕ → Pmm × Option ℕ
alloc_loop [] p adj_size align = elim (plan p.limit p.next_free adj_size align) [
  | none ↦ (p, none)
  | some (aligned, end) ↦ (record p { next_free = end }, some aligned)
]
alloc_loop (seen ∷ later) p adj_size align = elim (plan p.limit p.next_free adj_size align) [
  | none ↦ (p, none)
  | some (aligned, end) ↦
      if seen == p.next_free
      then (record p { next_free = end }, some aligned)
      else alloc_loop later (record p { next_free = seen }) adj_size align
]

unfoldable pub alloc_contended : List ℕ → Pmm → ℕ → ℕ → Pmm × Option ℕ
alloc_contended others p size align =
    if align == 0 || not (bit_and align (align - 1) == 0)
    then (p, none)
    else alloc_loop others p (align_up size (max page_size align)) align

-- `alloc_aligned` on one core with no interference
unfoldable pub alloc_aligned : Pmm → ℕ → ℕ → Pmm × Option ℕ
unfolding alloc_contended
alloc_aligned p size align = alloc_contended [] p size align

unfoldable pub alloc_page : Pmm → Pmm × Option ℕ
unfolding alloc_aligned
alloc_page p = alloc_aligned p page_size page_size

unfoldable pub free_kib : Pmm → ℕ
free_kib p =
    if p.next_free == 0 || leb p.limit p.next_free then 0 else (p.limit - p.next_free) / 1024
