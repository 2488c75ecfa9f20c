-- ===== src/Main/MemoryMap.antt =====
-- The line that log_memory_map of main.rs ends with, against the region that init of pmm.rs takes.
use mon_os.Base.Memory.{Memory}
use mon_os.Base.{
  ℕ, max, ◌+◌, ◌/◌, ◌^◌, ◌≤◌, ◌<◌, ◌≡◌, arith, inl, inr, true, List, [], ◌∷◌, All, length,
}
use mon_os.BootInfo.{BootInfo, MemoryMapEntry, is_usable, entries, entry_size}
use mon_os.BootInfo.Walk.{length-collect}
use mon_os.Pmm.{Pmm, initial, init, free_kib}
use mon_os.Pmm.Region.{Fits, InsideSome, Initialised, init-Initialised}
use mon_os.Main.{count_region, count_regions, log_memory_map}

-- The usable bytes never fall from one entry to the next, and take in each usable entry.
count_region-ge :
    (counted : ℕ × ℕ) (e : MemoryMapEntry)
    → Fits e
    → counted.1 < 2 ^ 64
    → (counted.1 ≤ (count_region counted e).1) × ((count_region counted e).1 < 2 ^ 64)
unfolding count_region
count_region-ge counted e f small = ground arith

count_region-usable :
    (counted : ℕ × ℕ) (e : MemoryMapEntry)
    → Fits e
    → is_usable e ≡ true
    → e.length ≤ (count_region counted e).1
unfolding count_region
count_region-usable counted e f u = rw u (ground arith)

count_regions-ge :
    (counted : ℕ × ℕ) (es : List MemoryMapEntry)
    → All Fits es
    → counted.1 < 2 ^ 64
    → counted.1 ≤ (count_regions counted es).1
unfolding count_regions
count_regions-ge counted [] f small = omega arith
count_regions-ge counted (e ∷ es) f small =
    let first = count_region-ge counted e f.0 small in
    omega (arith, first.0, count_regions-ge (count_region counted e) es f.1 first.1)

count_regions-Inside :
    (counted : ℕ × ℕ) (es : List MemoryMapEntry) (start end : ℕ)
    → All Fits es
    → counted.1 < 2 ^ 64
    → InsideSome es start end
    → end ≤ start + (count_regions counted es).1
unfolding count_regions
count_regions-Inside counted [] start end f small i = absurd i
count_regions-Inside counted (e ∷ es) start end f small (inl here) =
    let first = count_region-ge counted e f.0 small in
    omega (
      arith,
      here.after,
      here.before,
      count_region-usable counted e f.0 here.usable,
      count_regions-ge (count_region counted e) es f.1 first.1,
    )
count_regions-Inside counted (e ∷ es) start end f small (inr later) =
    let first = count_region-ge counted e f.0 small in
    count_regions-Inside (count_region counted e) es start end f.1 first.1 later

count_regions-length :
    (counted : ℕ × ℕ) (es : List MemoryMapEntry)
    → (count_regions counted es).0 ≡ counted.0 + length es
unfolding count_regions count_region
count_regions-length counted [] = omega arith
count_regions-length counted (e ∷ es) =
    omega (arith, count_regions-length (count_region counted e) es)

free_kib-Initialised :
    (es : List MemoryMapEntry) (p : Pmm)
    → All Fits es
    → Initialised es p
    → free_kib p ≤ (count_regions (0, 0) es).1 / 1024
unfolding free_kib
free_kib-Initialised es p f (inl none) = rw none.0 (omega arith)
free_kib-Initialised es p f (inr region) =
    ground (arith, count_regions-Inside (0, 0) es p.next_free p.limit f (omega arith) region.0)

-- For a map none of whose entries ends within a page of 2^64: the last line of log_memory_map counts
-- the entries that the boot block announces, and what the allocator has right after its init, whichever
-- region it takes, is at most the usable memory that the line reports, also where that sum saturates.
pub log_memory_map_lem :
    (mem : Memory) (boot : BootInfo)
    → All Fits (entries mem boot)
    → ((log_memory_map mem boot).1 ≡ boot.memory_map_len)
      × (free_kib (init mem boot initial).0 ≤ (log_memory_map mem boot).0)
unfolding log_memory_map entries
log_memory_map_lem mem boot f = (
  omega (
    arith,
    count_regions-length (0, 0) (entries mem boot),
    length-collect mem boot.memory_map boot.memory_map_len
        (max boot.memory_map_entry_size entry_size),
  ),
  free_kib-Initialised (entries mem boot) (init mem boot initial).0 f (init-Initialised mem boot f),
)
