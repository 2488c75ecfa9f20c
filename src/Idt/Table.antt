-- ===== src/Idt/Table.antt =====
-- The interrupt descriptor table that init of kernel/src/idt.rs fills, with configure_idt of syscall.rs. The
-- table is the x86_64 crate's: a parameter with what the code relies on of it.
use mon_os.Base.{ℕ, ◌≡◌, Option, none, some, List, [], ◌∷◌, ◌++◌, ◌==◌, if◌then◌else◌}
use mon_os.Gdt.{PrivilegeLevel, double_fault_ist_index}
use mon_os.Idt.{InterruptIndex, as_u8, Exception}

abbrev pub syscall_vector : ℕ
syscall_vector = 0x80

-- The functions of `mod handlers`, and syscall_entry
pub data Handler : Type 0 where
  exception : Exception → Handler
  page_fault : Handler
  irq : InterruptIndex → Handler
  syscall_entry : Handler

-- An entry of the table by the crate's field for it, or by `idt[n]`
pub data Slot : Type 0 where
  exception : Exception → Slot
  page_fault : Slot
  at : ℕ → Slot

pub record Gate : Type 0 where
  pub handler : Option Handler
  pub stack_index : Option ℕ
  pub privilege : PrivilegeLevel

abbrev pub missing : Gate
missing = record { handler = none; stack_index = none; privilege = PrivilegeLevel.ring0 }

-- The crate's methods of an entry
pub data Setting : Type 0 where
  set_handler_fn : Handler → Setting
  set_stack_index : ℕ → Setting
  set_privilege_level : PrivilegeLevel → Setting

abbrev pub changed : Setting → Gate → Gate
changed (Setting.set_handler_fn h) g = record g { handler = some h }
changed (Setting.set_stack_index i) g = record g { stack_index = some i }
changed (Setting.set_privilege_level p) g = record g { privilege = p }

-- The vectors that the processor gives its exceptions
abbrev pub vector_of : Exception → ℕ
vector_of Exception.divide_error = 0
vector_of Exception.debug = 1
vector_of Exception.non_maskable_interrupt = 2
vector_of Exception.breakpoint = 3
vector_of Exception.overflow = 4
vector_of Exception.bound_range_exceeded = 5
vector_of Exception.invalid_opcode = 6
vector_of Exception.device_not_available = 7
vector_of Exception.double_fault = 8
vector_of Exception.invalid_tss = 10
vector_of Exception.segment_not_present = 11
vector_of Exception.stack_segment_fault = 12
vector_of Exception.general_protection_fault = 13
vector_of Exception.x87_floating_point = 16
vector_of Exception.alignment_check = 17
vector_of Exception.machine_check = 18
vector_of Exception.simd_floating_point = 19
vector_of Exception.virtualization = 20
vector_of Exception.cp_protection = 21
vector_of Exception.hv_injection = 28
vector_of Exception.vmm_communication = 29
vector_of Exception.security = 30

abbrev pub page_fault_vector : ℕ
page_fault_vector = 14

abbrev pub vector_at : Slot → ℕ
vector_at (Slot.exception e) = vector_of e
vector_at Slot.page_fault = page_fault_vector
vector_at (Slot.at n) = n

-- The crate: `gate` is what the processor finds at a vector, `apply` is a method of one entry, and the fields
-- of the exceptions stand at their vectors.
pub record Crate : Type 1 where
  pub Table : Type 0
  pub new : Table
  pub apply : Slot → Setting → Table → Table
  pub vector : Slot → ℕ
  pub gate : Table → ℕ → Gate
  pub vector_lem : (s : Slot) → vector s ≡ vector_at s
  pub gate-new : (v : ℕ) → gate new v ≡ missing
  pub gate-apply :
      (s : Slot) (x : Setting) (t : Table) (v : ℕ)
      → gate (apply s x t) v ≡ (if vector s == v then changed x (gate t v) else gate t v)

-- `idt.field.set_handler_fn(handlers::…)`
abbrev handled : Exception → Slot × Setting
handled e = (Slot.exception e, Setting.set_handler_fn (Handler.exception e))

-- `idt[InterruptIndex::…].set_handler_fn(handlers::…)`
abbrev line : InterruptIndex → Slot × Setting
line i = (Slot.at (as_u8 i), Setting.set_handler_fn (Handler.irq i))

unfoldable pub exceptions : List (Slot × Setting)
exceptions =
    handled Exception.divide_error
    ∷ handled Exception.debug
    ∷ handled Exception.non_maskable_interrupt
    ∷ handled Exception.breakpoint
    ∷ handled Exception.overflow
    ∷ handled Exception.bound_range_exceeded
    ∷ handled Exception.invalid_opcode
    ∷ handled Exception.device_not_available
    ∷ handled Exception.double_fault
    ∷ (Slot.exception Exception.double_fault, Setting.set_stack_index double_fault_ist_index)
    ∷ handled Exception.invalid_tss
    ∷ handled Exception.segment_not_present
    ∷ handled Exception.stack_segment_fault
    ∷ handled Exception.general_protection_fault
    ∷ (Slot.page_fault, Setting.set_handler_fn Handler.page_fault)
    ∷ handled Exception.x87_floating_point
    ∷ handled Exception.alignment_check
    ∷ handled Exception.machine_check
    ∷ handled Exception.simd_floating_point
    ∷ handled Exception.virtualization
    ∷ handled Exception.cp_protection
    ∷ handled Exception.hv_injection
    ∷ handled Exception.vmm_communication
    ∷ handled Exception.security
    ∷ []

unfoldable pub lines : List (Slot × Setting)
lines =
    line InterruptIndex.timer
    ∷ line InterruptIndex.keyboard
    ∷ line InterruptIndex.cascade
    ∷ line InterruptIndex.serial2
    ∷ line InterruptIndex.serial1
    ∷ line InterruptIndex.lpt2
    ∷ line InterruptIndex.floppy
    ∷ line InterruptIndex.lpt1
    ∷ line InterruptIndex.rtc
    ∷ line InterruptIndex.acpi
    ∷ line InterruptIndex.available1
    ∷ line InterruptIndex.available2
    ∷ line InterruptIndex.mouse
    ∷ line InterruptIndex.coprocessor
    ∷ line InterruptIndex.primary_ata
    ∷ line InterruptIndex.secondary_ata
    ∷ []

-- configure_idt
unfoldable pub configure_idt : PrivilegeLevel → List (Slot × Setting)
configure_idt user_level =
    (Slot.at syscall_vector, Setting.set_handler_fn Handler.syscall_entry)
    ∷ (Slot.at syscall_vector, Setting.set_privilege_level user_level)
    ∷ []

-- All that init does to the new table, in order
unfoldable pub settings : List (Slot × Setting)
settings = exceptions ++ (lines ++ configure_idt PrivilegeLevel.ring3)

module _ (c : Crate) where
  open c use {Table, new, apply}

  unfoldable pub apply_all : List (Slot × Setting) → Table → Table
  apply_all [] t = t
  apply_all ((s, x) ∷ rest) t = apply_all rest (apply s x t)

  -- The table of init
  unfoldable pub init : Table
  init = apply_all settings new
