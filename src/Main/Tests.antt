-- ===== src/Main/Tests.antt =====
-- The properties of main.rs at concrete input.
use mon_os.Base.{
  ℕ, ◌%◌, ◌≤◌, ◌≡◌, refl, arith, none, List, [], ◌∷◌, ◌==◌, if◌then◌else◌, All, false,
}
use mon_os.Base.Memory.{Memory}
use mon_os.BootInfo.{BootInfo, MemoryMapEntry, entries, collect, next, entry_at, is_usable}
use mon_os.Pci.{PciAddress, prog_if, read_u8, read_u32, config_address, bar, bar_of, memory_bar}
use mon_os.Xhci.Machine.{Host, Run, XhciInfo, load, wait_for, wait_rounds, alloc}
use mon_os.Xhci.Regs.{inspect, usbcmd, set_usbcmd, usbsts}
use mon_os.Xhci.Init.{InitError, init_controller, halt, start_reset, halted, set_up_rings}
use mon_os.Xhci.Invariant.{Known}
use mon_os.Pmm.{alloc_aligned, initial, init, free_kib}
use mon_os.Main.{
  Stage, Seen, look_at_all, look_at, drive, bring_up, after_init, count_region, count_regions,
  log_memory_map,
}
use mon_os.Main.MemoryMap.{log_memory_map_lem}
use mon_os.Main.Bringup.{NotPolling, look_at_all-Known}

-- A bus on which each function is an xHCI controller at 0x1000
abbrev words : ℕ → ℕ
words w = if w % 256 == 8 then 0x0c033000 else if w % 256 == 16 then 0x1000 else 0

-- A controller that is halted, in a machine with no memory to allocate
abbrev host : Host
host = record {
  answer = λ trace addr width. if addr == 0x1000 then 0x20 else if addr == 0x1024 then 1 else 0;
  trace = [];
  state = none;
  held = false;
  pmm = record { next_free = 0; limit = 0 };
  patience = 4;
}

abbrev after : {A : Type 0} → Run A → Host
after (Run.ok a h') = h'
after Run.deadlock = host
after Run.panic = host
after Run.out_of_fuel = host

abbrev address : PciAddress
address = record { bus = 0; device = 0; function = 0 }

abbrev info : XhciInfo
info = record {
  base = 0x1000;
  cap_length = 0x20;
  hci_version = 0;
  hcsparams1 = 0;
  hcsparams2 = 0;
  hcsparams3 = 0;
  hccparams1 = 0;
  dboff = 0;
  rtsoff = 0;
}

abbrev seen : List Seen
seen = Seen.driven info (Stage.init_failed InitError.no_command_ring) ∷ []

look_at_all_run :
    look_at_all words (address ∷ []) host
    ≡ Run.ok seen (after (look_at_all words (address ∷ []) host))
unfolding look_at_all look_at drive bring_up after_init prog_if read_u8 read_u32 config_address bar
    bar_of memory_bar inspect load init_controller halt start_reset halted set_up_rings usbcmd
    set_usbcmd usbsts wait_for wait_rounds alloc alloc_aligned mon_os.Pmm.alloc_loop mon_os.Pmm.plan
look_at_all_run = refl

look_at_all-Known_example :
    Known (after (look_at_all words (address ∷ []) host)).state × All NotPolling seen
unfolding Known
look_at_all-Known_example =
    look_at_all-Known words (address ∷ []) host (after (look_at_all words (address ∷ []) host)) seen
      tt look_at_all_run

-- A map of one entry: 0x9fc00 bytes at 0, usable
abbrev map_bytes : Memory
map_bytes a =
    if a == 0x1009 then 0xfc else if a == 0x100a then 0x09 else if a == 0x1010 then 1 else 0

abbrev boot : BootInfo
boot = record {
  memory_map = 0x1000;
  memory_map_len = 1;
  memory_map_entry_size = 24;
  initrd_base = 0;
  initrd_len = 0;
}

abbrev low_memory : MemoryMapEntry
low_memory = record { base_addr = 0; length = 0x9fc00; region_type = 1; attributes = 0 }

entries_run : entries map_bytes boot ≡ low_memory ∷ []
unfolding entries collect next entry_at
entries_run = refl

log_memory_map_run : log_memory_map map_bytes boot ≡ (639, 1)
unfolding log_memory_map count_regions count_region entries collect next entry_at is_usable
log_memory_map_run = refl

log_memory_map_lem_example :
    ((log_memory_map map_bytes boot).1 ≡ boot.memory_map_len)
    × (free_kib (init map_bytes boot initial).0 ≤ (log_memory_map map_bytes boot).0)
log_memory_map_lem_example = log_memory_map_lem map_bytes boot (rw entries_run (omega arith))
