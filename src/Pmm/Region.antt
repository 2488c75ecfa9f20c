-- ===== src/Pmm/Region.antt =====
-- `init`: the region that the allocator works in.
use mon_os.Base.{
  ℕ, ◌+◌, ◌-◌, ◌*◌, ◌/◌, ◌%◌, ◌^◌, ◌≤◌, ◌<◌, ◌≡◌, refl, arith, ◌⊎◌, inl, inr, Bool, true, false,
  ◌&&◌, Bool-cases, leb→le, List, [], ◌∷◌, All, leb, ltb, if◌then◌else◌, add64,
}
use mon_os.Base.Memory.{Memory}
use mon_os.BootInfo.{BootInfo, MemoryMapEntry, is_usable, entries}
use mon_os.Pmm.{Pmm, Best, page_size, align_up, align_down, consider, best_of, initial, init}
use mon_os.Pmm.Align.{IsRoundedUp, align_up-IsRoundedUp, align_down_lem}
use mathlib.Core.List.{reverse_aux}

-- The entry does not run past the address space, with a page to spare.
abbrev pub Fits : MemoryMapEntry → Type 0
Fits e = e.base_addr + e.length + page_size ≤ 2 ^ 64

-- The whole pages `[start, end)` lie inside the entry.
pub record Inside (e : MemoryMapEntry) (start end : ℕ) : Type 0 where
  pub usable : is_usable e ≡ true
  pub start_page : start % page_size ≡ 0
  pub end_page : end % page_size ≡ 0
  pub after : e.base_addr ≤ start
  pub before : end ≤ e.base_addr + e.length

-- `[start, end)` are whole pages inside one of the entries.
abbrev pub InsideSome : List MemoryMapEntry → ℕ → ℕ → Type 0
InsideSome [] start end = ⊥
InsideSome (e ∷ es) start end = Inside e start end ⊎ InsideSome es start end

-- No whole pages of a usable entry are more than `len` bytes long.
abbrev pub NoLonger : ℕ → MemoryMapEntry → Type 0
NoLonger len e = (start end : ℕ) → Inside e start end → end ≤ start + len

start_of : MemoryMapEntry → ℕ
start_of e = align_up e.base_addr page_size

end_of : MemoryMapEntry → ℕ
end_of e = align_down (add64 e.base_addr e.length) page_size

span_lem :
    (e : MemoryMapEntry)
    → Fits e
    → IsRoundedUp page_size e.base_addr (start_of e)
      × (end_of e ≡ (e.base_addr + e.length) / page_size * page_size)
unfolding start_of end_of
span_lem e f = (align_up-IsRoundedUp 12 e.base_addr (omega arith) (omega arith), down)
  where
    exact : add64 e.base_addr e.length ≡ e.base_addr + e.length
    exact = omega arith

    down :
        align_down (add64 e.base_addr e.length) page_size
        ≡ (e.base_addr + e.length) / page_size * page_size
    down = rw exact (align_down_lem 12 (e.base_addr + e.length) (omega arith) (omega arith))

span-Inside : (e : MemoryMapEntry) → Fits e → is_usable e ≡ true → Inside e (start_of e) (end_of e)
span-Inside e f u =
    let (up, down) = span_lem e f in
    record {
      usable = u;
      start_page = up.multiple;
      end_page = omega (arith, down);
      after = up.not_below;
      before = omega (arith, down);
    }

span-NoLonger : (e : MemoryMapEntry) → Fits e → NoLonger (end_of e - start_of e) e
span-NoLonger e f start end i =
    let (up, down) = span_lem e f in omega (arith, down, up.multiple, up.not_below, up.close)

-- What the loop knows of the best region so far, over the entries that it has seen.
record IsBest (b : Best) (seen : List MemoryMapEntry) : Type 0 where
  found : (b.len ≡ 0) ⊎ InsideSome seen b.base (b.base + b.len)
  longest : All (NoLonger b.len) seen

-- The three tests of the loop's body in one.
abbrev improves : Best → MemoryMapEntry → Bool
improves b e = is_usable e && ltb b.len (end_of e - start_of e)

consider_lem :
    (b : Best) (e : MemoryMapEntry)
    → consider b e
      ≡ (if improves b e then record { base = start_of e; len = end_of e - start_of e } else b)
unfolding consider start_of end_of
consider_lem b e = ground arith

module _ (b : Best) (seen : List MemoryMapEntry) (e : MemoryMapEntry) (f : Fits e)
    (h : IsBest b seen) where
  longer :
      {len : ℕ} (es : List MemoryMapEntry)
      → b.len ≤ len
      → All (NoLonger b.len) es
      → All (NoLonger len) es
  longer [] le all = tt
  longer (x ∷ xs) le all = (λ s t i. omega (arith, all.0 s t i), longer xs le all.1)

  improved-IsBest :
      improves b e ≡ true
      → IsBest (record { base = start_of e; len = end_of e - start_of e }) (e ∷ seen)
  improved-IsBest t = record {
    found = inr (inl (rw whole (span-Inside e f (ground arith))));
    longest = (span-NoLonger e f, longer seen (ground arith) h.longest);
  }
    where
      whole : start_of e + (end_of e - start_of e) ≡ end_of e
      whole = ground arith

  kept-IsBest : improves b e ≡ false → IsBest b (e ∷ seen)
  kept-IsBest t = record { found = keep h.found; longest = (bound, h.longest) }
    where
      keep :
          (b.len ≡ 0) ⊎ InsideSome seen b.base (b.base + b.len)
          → (b.len ≡ 0) ⊎ InsideSome (e ∷ seen) b.base (b.base + b.len)
      keep (inl z) = inl z
      keep (inr i) = inr (inr i)

      bound : NoLonger b.len e
      bound s t' i = ground (arith, span-NoLonger e f s t' i, i.usable)

  consider-IsBest : IsBest (consider b e) (e ∷ seen)
  consider-IsBest = elim (Bool-cases (improves b e)) [
    | inl t ↦ rw (consider_lem, t) (improved-IsBest t)
    | inr t ↦ rw (consider_lem, t) (kept-IsBest t)
  ]

best_of-IsBest :
    (es seen : List MemoryMapEntry) (b : Best)
    → All Fits es
    → IsBest b seen
    → IsBest (best_of b es) (reverse_aux es seen)
unfolding best_of
best_of-IsBest [] seen b f h = h
best_of-IsBest (e ∷ es) seen b f h =
    best_of-IsBest es (e ∷ seen) (consider b e) f.1 (consider-IsBest b seen e f.0 h)

InsideSome-reverse_aux :
    (es seen : List MemoryMapEntry) (start end : ℕ)
    → InsideSome (reverse_aux es seen) start end
    → InsideSome es start end ⊎ InsideSome seen start end
InsideSome-reverse_aux [] seen start end i = inr i
InsideSome-reverse_aux (e ∷ es) seen start end i =
    regroup (InsideSome-reverse_aux es (e ∷ seen) start end i)
  where
    regroup :
        InsideSome es start end ⊎ InsideSome (e ∷ seen) start end
        → InsideSome (e ∷ es) start end ⊎ InsideSome seen start end
    regroup (inl later) = inl (inr later)
    regroup (inr (inl here)) = inl (inl here)
    regroup (inr (inr before)) = inr before

All-reverse_aux :
    (P : MemoryMapEntry → Type 0) (es seen : List MemoryMapEntry)
    → All P (reverse_aux es seen)
    → All P es × All P seen
All-reverse_aux P [] seen h = (tt, h)
All-reverse_aux P (e ∷ es) seen h =
    let (later, here) = All-reverse_aux P es (e ∷ seen) h in ((here.0, later), here.1)

InsideSome-lt :
    (es : List MemoryMapEntry) (start end : ℕ)
    → All Fits es
    → InsideSome es start end
    → end < 2 ^ 64
InsideSome-lt [] start end f i = absurd i
InsideSome-lt (e ∷ es) start end f (inl here) = omega (arith, here.before, f.0)
InsideSome-lt (e ∷ es) start end f (inr later) = InsideSome-lt es start end f.1 later

-- What `init` leaves: nothing, where no usable entry holds a whole page, or whole pages of a usable
-- entry, and as many as any usable entry has.
abbrev pub Initialised : List MemoryMapEntry → Pmm → Type 0
Initialised es p =
    (p ≡ initial) × All (NoLonger (page_size - 1)) es
    ⊎ InsideSome es p.next_free p.limit
      × (p.next_free + page_size ≤ p.limit)
      × All (NoLonger (p.limit - p.next_free)) es

module _ (es : List MemoryMapEntry) (f : All Fits es) (b : Best)
    (h : IsBest b (reverse_aux es [])) where
  longest_of : All (NoLonger b.len) es
  longest_of = (All-reverse_aux (NoLonger b.len) es [] h.longest).0

  weaken :
      {len : ℕ} (xs : List MemoryMapEntry)
      → b.len ≤ len
      → All (NoLonger b.len) xs
      → All (NoLonger len) xs
  weaken [] le all = tt
  weaken (x ∷ xs) le all = (λ s t i. omega (arith, all.0 s t i), weaken xs le all.1)

  found_of : page_size ≤ b.len → InsideSome es b.base (b.base + b.len)
  found_of large = pick h.found
    where
      from :
          InsideSome es b.base (b.base + b.len) ⊎ InsideSome [] b.base (b.base + b.len)
          → InsideSome es b.base (b.base + b.len)
      from (inl i) = i
      from (inr i) = absurd i

      pick :
          (b.len ≡ 0) ⊎ InsideSome (reverse_aux es []) b.base (b.base + b.len)
          → InsideSome es b.base (b.base + b.len)
      pick (inl z) = absurd (omega arith)
      pick (inr i) = from (InsideSome-reverse_aux es [] _ _ i)

  chosen :
      page_size ≤ b.len → Initialised es (record { next_free = b.base; limit = add64 b.base b.len })
  chosen large = rw exact (inr (found_of large, omega arith, weaken es (omega arith) longest_of))
    where
      exact : add64 b.base b.len ≡ b.base + b.len
      exact = omega (arith, InsideSome-lt es _ _ f (found_of large))

-- `init` on a fresh allocator, for a map none of whose entries ends within a page of 2^64: if
-- no usable entry holds a whole page nothing changes; else the region is whole pages, at least one,
-- inside one usable entry, and no usable entry has a longer run of whole pages.
pub init-Initialised :
    (mem : Memory) (boot : BootInfo)
    → All Fits (entries mem boot)
    → Initialised (entries mem boot) (init mem boot initial).0
unfolding init
init-Initialised mem boot f = elim (Bool-cases (leb page_size best.len)) [
  | inl large ↦ rw large (chosen es f best known (leb→le _ _ large))
  | inr small ↦
      rw small (inl (refl, weaken es f best known es (ground arith) (longest_of es f best known)))
]
  where
    es : List MemoryMapEntry
    es = entries mem boot

    best : Best
    best = best_of (record { base = 0; len = 0 }) es

    known : IsBest best (reverse_aux es [])
    known = best_of-IsBest es [] _ f (record { found = inl refl; longest = tt })
