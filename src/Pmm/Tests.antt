-- ===== src/Pmm/Tests.antt =====
-- The allocator and the walk over the memory map on concrete inputs.
use mon_os.Base.{◌-◌, ◌^◌, ◌≡◌, refl, arith, some, List, [], ◌∷◌, if◌then◌else◌, ◌==◌}
use mon_os.Base.Memory.{Memory}
use mon_os.BootInfo.{BootInfo, MemoryMapEntry, entry_at, next, collect, entries, is_usable}
use mon_os.Pmm.{
  Pmm, page_size, initial, align_up, align_down, best_of, consider, plan, alloc_loop, init,
  alloc_contended, alloc_aligned, using_region,
}
use mon_os.Pmm.Alloc.{alloc_aligned_lem, alloc_oversized}
use mon_os.Pmm.Contention.{Request, Taken, Chained, before, serve, serve-Chained}
use mon_os.Pmm.Region.{Initialised, init-Initialised}

-- A map of two entries of 24 bytes: 0x9fc00 bytes at 0, and 0x100000 bytes at 0x100000, both usable.
abbrev map_bytes : Memory
map_bytes a =
    if a == 0x1009
    then 0xfc
    else if a == 0x100a
    then 0x09
    else if a == 0x1010
    then 1
    else if a == 0x101a
    then 0x10
    else if a == 0x1022
    then 0x10
    else if a == 0x1028
    then 1
    else 0

abbrev two_entries : BootInfo
two_entries = record {
  memory_map = 0x1000;
  memory_map_len = 2;
  memory_map_entry_size = 24;
  initrd_base = 0;
  initrd_len = 0;
}

abbrev low_memory : MemoryMapEntry
low_memory = record { base_addr = 0; length = 0x9fc00; region_type = 1; attributes = 0 }

abbrev high_memory : MemoryMapEntry
high_memory = record { base_addr = 0x100000; length = 0x100000; region_type = 1; attributes = 0 }

entries_run : entries map_bytes two_entries ≡ low_memory ∷ high_memory ∷ []
unfolding entries collect next entry_at
entries_run = refl

init_run :
    init map_bytes two_entries initial
    ≡ (record { next_free = 0x100000; limit = 0x200000 }, using_region 0x100000 0x200000)
unfolding init best_of consider align_up align_down is_usable entries collect next entry_at
init_run = refl

init-Initialised_example :
    Initialised (entries map_bytes two_entries) (init map_bytes two_entries initial).0
init-Initialised_example = init-Initialised map_bytes two_entries (rw entries_run (omega arith))

abbrev megabyte : Pmm
megabyte = record { next_free = 0x100000; limit = 0x200000 }

alloc_aligned_lem_example :
    alloc_aligned megabyte 4096 (2 ^ 6)
    ≡ (record { next_free = 0x101000; limit = 0x200000 }, some 0x100000)
alloc_aligned_lem_example =
    alloc_aligned_lem megabyte 4096 6 (omega arith) (omega arith) (omega arith)

-- Another core takes a page between the loads and the first exchange.
contended_run :
    alloc_contended (0x101000 ∷ []) megabyte 100 64
    ≡ (record { next_free = 0x102000; limit = 0x200000 }, some 0x101000)
unfolding alloc_contended alloc_loop plan align_up
contended_run = refl

abbrev two_calls : List Request
two_calls =
    record { others = 0x101000 ∷ []; size = 100; exponent = 6 }
    ∷ record { others = []; size = 5000; exponent = 14 }
    ∷ []

serve_run :
    serve megabyte two_calls
    ≡ Taken.theirs 0x100000 0x101000 ∷ Taken.mine 0x101000 4096 ∷ Taken.mine 0x104000 0x4000 ∷ []
unfolding serve before alloc_contended alloc_loop plan align_up
serve_run = refl

serve-Chained_example : Chained 0x100000 0x200000 (serve megabyte two_calls)
unfolding alloc_contended alloc_loop plan align_up
serve-Chained_example = serve-Chained two_calls megabyte (omega arith)

alloc_oversized_example : alloc_aligned megabyte (2 ^ 64 - 1) page_size ≡ (megabyte, some 0x100000)
alloc_oversized_example =
    alloc_oversized megabyte (2 ^ 64 - 1) (omega arith) (omega arith) (omega arith) refl
      (omega arith) (omega arith)
