-- ===== src/Xhci/Memory.antt =====
-- What the functions of xhci.rs may write: the registers of the controller, and memory that the page
-- allocator has handed out since the start. A run is judged by the accesses that it leaves in the trace.
pub mod Rules
pub mod Accesses
pub mod Grants
pub mod Regs
pub mod Rings
pub mod Events
pub mod Ports
pub mod Contexts
pub mod Commands
pub mod Transfers
pub mod Init
pub mod Calls
use mon_os.Base.{
  ℕ, ◌+◌, ◌*◌, ◌^◌, ◌≤◌, ◌<◌, ◌≡◌, ◌⊎◌, inl, inr, arith, Option, none, some, List, [], ◌∷◌, All,
}
use mon_os.Pmm.{page_size}
use mon_os.Xhci.Machine.{Access, XhciInfo, ControllerState, Host}
use mon_os.Xhci.Regs.{operational, max_ports, max_slots}
use mon_os.Xhci.Invariant.{IsValid}

-- The controller, and NEXT_FREE at the start
pub record Domain : Type 0 where
  pub info : XhciInfo
  pub first : ℕ

-- `w` bytes at `a` lie in what was handed out, where NEXT_FREE is `n` now.
pub record IsMemory (d : Domain) (n a w : ℕ) : Type 0 where
  pub from : d.first ≤ a
  pub to : a + w ≤ n

-- The operational registers with those of the ports, the runtime registers with the first interrupter, and
-- the 256 doorbells
pub data IsRegister (d : Domain) (a w : ℕ) : Type 0 where
  operational_or_port :
      operational d.info ≤ a
      → a + w ≤ operational d.info + (0x400 + max_ports d.info * 0x10)
      → IsRegister d a w
  runtime :
      d.info.base + d.info.rtsoff ≤ a
      → a + w ≤ d.info.base + d.info.rtsoff + 0x40
      → IsRegister d a w
  doorbell :
      d.info.base + d.info.dboff ≤ a → a + w ≤ d.info.base + d.info.dboff + 0x400 → IsRegister d a w

unfoldable pub Allowed : Domain → ℕ → Access → Type 0
Allowed d n (Access.write a w v) = IsMemory d n a w ⊎ IsRegister d a w
Allowed d n (Access.write_trb a t) = IsMemory d n a 16
Allowed d n (Access.zeroed a size) = IsMemory d n a size
Allowed d n x = Unit {0}

-- A ring of the state is absent, or in memory.
unfoldable pub RingInMemory : Domain → ℕ → ℕ → ℕ → ℕ → Type 0
RingInMemory d n len phys size = (len ≡ 0) ⊎ IsMemory d n phys size

-- A slot is a u8.
unfoldable pub SlotFits : Option ℕ → Type 0
SlotFits none = Unit {0}
SlotFits (some slot) = slot < 256

-- What a controller's state says of memory is so, and the state is valid.
pub record Fits (d : Domain) (n : ℕ) (s : ControllerState) : Type 0 where
  pub valid : IsValid s
  pub info : s.info ≡ d.info
  pub command : IsMemory d n s.command_ring_phys 4096
  pub dcbaa : IsMemory d n s.dcbaa_phys ((max_slots d.info + 1) * 8)
  pub ep0 : RingInMemory d n s.ep0_ring_len s.ep0_ring_phys 1024
  pub intr : RingInMemory d n s.intr_ring_len s.intr_ring_phys 2048
  pub slot : SlotFits s.active_slot

unfoldable pub StateFits : Domain → ℕ → Option ControllerState → Type 0
StateFits d n none = Unit {0}
StateFits d n (some s) = Fits d n s

-- `room`: the end of the region leaves a page below 2^64.
pub record IsSound (d : Domain) (h : Host) : Type 0 where
  pub started : d.first ≤ h.pmm.next_free
  pub room : h.pmm.limit + page_size ≤ 2 ^ 64
  pub trace : All (Allowed d h.pmm.next_free) h.trace
  pub state : StateFits d h.pmm.next_free h.state

pub IsMemory-later : {d : Domain} (n n' a w : ℕ) → n ≤ n' → IsMemory d n a w → IsMemory d n' a w
IsMemory-later n n' a w le m = record { from = m.from; to = omega (arith, m.to, le) }

pub Allowed-later : (d : Domain) (n n' : ℕ) (x : Access) → n ≤ n' → Allowed d n x → Allowed d n' x
unfolding Allowed
Allowed-later d n n' (Access.read a w) le x = tt
Allowed-later d n n' (Access.write a w v) le (inl m) = inl (IsMemory-later n n' a w le m)
Allowed-later d n n' (Access.write a w v) le (inr r) = inr r
Allowed-later d n n' (Access.write_trb a t) le x = IsMemory-later n n' a 16 le x
Allowed-later d n n' (Access.zeroed a size) le x = IsMemory-later n n' a size le x
Allowed-later d n n' (Access.put c) le x = tt
Allowed-later d n n' Access.erase le x = tt

pub trace_later :
    (d : Domain) (n n' : ℕ) (xs : List Access)
    → n ≤ n'
    → All (Allowed d n) xs
    → All (Allowed d n') xs
trace_later d n n' [] le all = tt
trace_later d n n' (x ∷ xs) le all =
    (Allowed-later d n n' x le all.0, trace_later d n n' xs le all.1)

pub RingInMemory-later :
    (d : Domain) (n n' len phys size : ℕ)
    → n ≤ n'
    → RingInMemory d n len phys size
    → RingInMemory d n' len phys size
unfolding RingInMemory
RingInMemory-later d n n' len phys size le (inl absent) = inl absent
RingInMemory-later d n n' len phys size le (inr m) = inr (IsMemory-later n n' phys size le m)

pub Fits-later : (d : Domain) (n n' : ℕ) (s : ControllerState) → n ≤ n' → Fits d n s → Fits d n' s
Fits-later d n n' s le f = record {
  valid = f.valid;
  info = f.info;
  command = IsMemory-later n n' _ _ le f.command;
  dcbaa = IsMemory-later n n' _ _ le f.dcbaa;
  ep0 = RingInMemory-later d n n' _ _ _ le f.ep0;
  intr = RingInMemory-later d n n' _ _ _ le f.intr;
  slot = f.slot;
}

pub StateFits-later :
    (d : Domain) (n n' : ℕ) (o : Option ControllerState)
    → n ≤ n'
    → StateFits d n o
    → StateFits d n' o
unfolding StateFits
StateFits-later d n n' none le f = tt
StateFits-later d n n' (some s) le f = Fits-later d n n' s le f
