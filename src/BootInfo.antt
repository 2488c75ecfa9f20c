-- ===== src/BootInfo.antt =====
-- kernel/src/bootinfo.rs: the block that stage2 hands to the kernel, and the walk over its memory
-- map. Pointers are addresses; an entry is read out of memory where the iterator stands.
pub mod Walk
use mon_os.Base.{
  ℕ, zero, suc, ◌+◌, ◌-◌, max, Bool, List, [], ◌∷◌, Option, none, some, ◌==◌, if◌then◌else◌, add64,
}
use mon_os.Base.Text.{ascii}
use mon_os.Base.Memory.{Memory, read_le}

pub record BootInfo : Type 0 where
  pub memory_map : ℕ
  pub memory_map_len : ℕ
  pub memory_map_entry_size : ℕ
  pub initrd_base : ℕ
  pub initrd_len : ℕ

pub record MemoryMapEntry : Type 0 where
  pub base_addr : ℕ
  pub length : ℕ
  pub region_type : ℕ
  pub attributes : ℕ

pub data MemoryRegionKind : Type 0 where
  usable reserved acpi_reclaimable acpi_nvs bad_memory : MemoryRegionKind
  unknown : ℕ → MemoryRegionKind

unfoldable pub kind : MemoryMapEntry → MemoryRegionKind
kind e =
    if e.region_type == 1
    then usable
    else if e.region_type == 2
    then reserved
    else if e.region_type == 3
    then acpi_reclaimable
    else if e.region_type == 4
    then acpi_nvs
    else if e.region_type == 5
    then bad_memory
    else unknown e.region_type

unfoldable pub as_str : MemoryRegionKind → List ℕ
as_str MemoryRegionKind.usable = ascii "Usable"
as_str MemoryRegionKind.reserved = ascii "Reserved"
as_str MemoryRegionKind.acpi_reclaimable = ascii "ACPI Reclaimable"
as_str MemoryRegionKind.acpi_nvs = ascii "ACPI NVS"
as_str MemoryRegionKind.bad_memory = ascii "Bad Memory"
as_str (MemoryRegionKind.unknown n) = ascii "Unknown"

unfoldable pub is_usable : MemoryMapEntry → Bool
is_usable e = e.region_type == 1

-- `size_of::<MemoryMapEntry>()`: two u64 and two u32
abbrev pub entry_size : ℕ
entry_size = 24

-- The entry that `&*(ptr as *const MemoryMapEntry)` reads, in the layout of `repr(C)`.
unfoldable pub entry_at : Memory → ℕ → MemoryMapEntry
entry_at mem ptr = record {
  base_addr = read_le mem 8 ptr;
  length = read_le mem 8 (ptr + 8);
  region_type = read_le mem 4 (ptr + 16);
  attributes = read_le mem 4 (ptr + 20);
}

pub record MemoryMapIter : Type 0 where
  pub ptr : ℕ
  pub remaining : ℕ
  pub stride : ℕ

unfoldable pub memory_map : BootInfo → MemoryMapIter
memory_map boot = record {
  ptr = boot.memory_map;
  remaining = boot.memory_map_len;
  stride = max boot.memory_map_entry_size entry_size;
}

unfoldable pub next : Memory → MemoryMapIter → Option (MemoryMapEntry × MemoryMapIter)
next mem it =
    if it.remaining == 0
    then none
    else some (
      entry_at mem it.ptr,
      record it { ptr = add64 it.ptr it.stride; remaining = it.remaining - 1 },
    )

-- What a `for` loop over the iterator sees, with fuel.
unfoldable pub collect : ℕ → Memory → MemoryMapIter → List MemoryMapEntry
collect zero mem it = []
collect (suc fuel) mem it = elim (next mem it) [
  | none ↦ []
  | some (entry, it') ↦ entry ∷ collect fuel mem it'
]

-- `for entry in boot.memory_map()`: each round takes one off `remaining`.
unfoldable pub entries : Memory → BootInfo → List MemoryMapEntry
unfolding memory_map
entries mem boot = collect (memory_map boot).remaining mem (memory_map boot)
