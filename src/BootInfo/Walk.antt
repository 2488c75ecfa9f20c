-- ===== src/BootInfo/Walk.antt =====
-- The iterator of bootinfo.rs yields exactly the entries of the map, each read at its own address.
use mon_os.Base.{
  ℕ, zero, suc, ◌+◌, ◌*◌, ◌^◌, ◌<◌, max, ◌≡◌, refl, some, arith, length, get_elem?, ap, List, add64,
}
use mon_os.Base.Memory.{Memory}
use mon_os.BootInfo.{BootInfo, MemoryMapIter, entry_size, entry_at, next, collect, entries}

abbrev iter : ℕ → ℕ → ℕ → MemoryMapIter
iter p n s = record { ptr = p; remaining = n; stride = s }

next-suc :
    (mem : Memory) (p n s : ℕ)
    → next mem (iter p (suc n) s) ≡ some (entry_at mem p, iter (add64 p s) n s)
unfolding next
next-suc mem p n s = ground arith

collect-suc :
    (mem : Memory) (p n s : ℕ)
    → collect (suc n) mem (iter p (suc n) s)
      ≡ List.◌∷◌ (entry_at mem p) (collect n mem (iter (add64 p s) n s))
unfolding collect
collect-suc mem p n s = rw (next-suc mem p n s, collect)

pub length-collect : (mem : Memory) (p n s : ℕ) → length (collect n mem (iter p n s)) ≡ n
length-collect mem p zero s = unfold collect in refl
length-collect mem p (suc n) s = rw collect-suc (ap suc (length-collect mem (add64 p s) n s))

collect_at :
    (mem : Memory) (n i p s : ℕ)
    → i < n
    → p + n * s < 2 ^ 64
    → get_elem? (collect n mem (iter p n s)) i ≡ some (entry_at mem (p + i * s))
collect_at mem zero i p s h fits = absurd (omega arith)
collect_at mem (suc n) zero p s h fits =
    rw collect-suc (ap (λ a. some (entry_at mem a)) (omega arith))
collect_at mem (suc n) (suc i) p s h fits =
    let e : add64 p s ≡ p + s = omega arith in
    let e' : p + suc i * s ≡ p + s + i * s = omega arith in
    rw (collect-suc, e, e') (collect_at mem n i (p + s) s (omega arith) (omega arith))

-- For a memory map that does not run past the end of the address space, the loop over it sees
-- `memory_map_len` entries, and the one at index `i` is what stands `i` strides after the start; the
-- stride is at least the size of an entry, so the entries do not overlap.
entries_lem :
    (mem : Memory) (boot : BootInfo)
    → boot.memory_map + boot.memory_map_len * max boot.memory_map_entry_size entry_size < 2 ^ 64
    → (length (entries mem boot) ≡ boot.memory_map_len)
      × ((i : ℕ)
          → i < boot.memory_map_len
          → get_elem? (entries mem boot) i
            ≡ some (entry_at mem (boot.memory_map + i * max boot.memory_map_entry_size entry_size)))
unfolding entries
entries_lem mem boot fits =
    (length-collect mem _ _ _, λ i h. collect_at mem boot.memory_map_len i boot.memory_map _ h fits)
