-- ===== src/Idt/Dispatch.antt =====
-- Which handler each vector reaches after init of idt.rs.
use mon_os.Base.{
  ℕ, ◌<◌, ◌≡◌, refl, ap, ◌∙◌, arith, Bool, true, false, ◌&&◌, ◌||◌, Option, none, some, List, [],
  ◌∷◌, ◌==◌, ltb, leb, if◌then◌else◌,
}
use mon_os.Base.Tables.{table, table-lookup}
use mon_os.Gdt.{PrivilegeLevel, double_fault_ist_index}
use mon_os.Idt.{InterruptIndex, as_u8, Exception}
use mon_os.Idt.Table.{
  Crate, Handler, Slot, Setting, Gate, missing, changed, vector_at, vector_of, page_fault_vector,
  syscall_vector, exceptions, lines, configure_idt, settings, apply_all, init,
}

-- What the settings make of a vector's entry
gate_after : List (Slot × Setting) → ℕ → Gate → Gate
gate_after [] v g = g
gate_after ((s, x) ∷ rest) v g = gate_after rest v (if vector_at s == v then changed x g else g)

gate-apply_all :
    (c : Crate) (xs : List (Slot × Setting)) (t : c.Table) (v : ℕ)
    → c.gate (apply_all c xs t) v ≡ gate_after xs v (c.gate t v)
unfolding apply_all gate_after
gate-apply_all c [] t v = refl
gate-apply_all c ((s, x) ∷ rest) t v =
    gate-apply_all c rest (c.apply s x t) v
    ∙ ap (gate_after rest v) (
        c.gate-apply s x t v
        ∙ ap (λ n. if n == v then changed x (c.gate t v) else c.gate t v) (c.vector_lem s))

gate-init : (c : Crate) (v : ℕ) → c.gate (init c) v ≡ gate_after settings v missing
unfolding init
gate-init c v = gate-apply_all c settings c.new v ∙ ap (gate_after settings v) (c.gate-new v)

-- The entry of a handler that only the kernel and the hardware may call
abbrev pub kernel_gate : Handler → Gate
kernel_gate h = record { handler = some h; stack_index = none; privilege = PrivilegeLevel.ring0 }

-- Double faults run on a stack of their own.
unfoldable pub stack_of : Exception → Option ℕ
stack_of Exception.double_fault = some double_fault_ist_index
stack_of e = none

-- The vectors with a handler
unfoldable pub assigned : ℕ → Bool
assigned v =
    ltb v 9
    || ((leb 10 v && ltb v 15)
        || ((leb 16 v && ltb v 22)
            || ((leb 28 v && ltb v 31) || ((leb 32 v && ltb v 48) || (v == syscall_vector)))))

is_missing : Gate → Bool
is_missing g = elim g.handler [
  | some h ↦ false
  | none ↦ elim g.stack_index [
    | some i ↦ false
    | none ↦ elim g.privilege [ PrivilegeLevel.ring0 ↦ true | PrivilegeLevel.ring3 ↦ false ]
  ]
]

exception_gate :
    (e : Exception)
    → gate_after settings (vector_of e) missing ≡ record {
      handler = some (Handler.exception e);
      stack_index = stack_of e;
      privilege = PrivilegeLevel.ring0;
    }
unfolding gate_after settings exceptions lines configure_idt as_u8 stack_of
exception_gate Exception.divide_error = refl
exception_gate Exception.debug = refl
exception_gate Exception.non_maskable_interrupt = refl
exception_gate Exception.breakpoint = refl
exception_gate Exception.overflow = refl
exception_gate Exception.bound_range_exceeded = refl
exception_gate Exception.invalid_opcode = refl
exception_gate Exception.device_not_available = refl
exception_gate Exception.x87_floating_point = refl
exception_gate Exception.simd_floating_point = refl
exception_gate Exception.virtualization = refl
exception_gate Exception.hv_injection = refl
exception_gate Exception.machine_check = refl
exception_gate Exception.invalid_tss = refl
exception_gate Exception.segment_not_present = refl
exception_gate Exception.stack_segment_fault = refl
exception_gate Exception.general_protection_fault = refl
exception_gate Exception.alignment_check = refl
exception_gate Exception.cp_protection = refl
exception_gate Exception.vmm_communication = refl
exception_gate Exception.security = refl
exception_gate Exception.double_fault = refl

irq_gate :
    (i : InterruptIndex) → gate_after settings (as_u8 i) missing ≡ kernel_gate (Handler.irq i)
unfolding gate_after settings exceptions lines configure_idt as_u8
irq_gate InterruptIndex.timer = refl
irq_gate InterruptIndex.keyboard = refl
irq_gate InterruptIndex.cascade = refl
irq_gate InterruptIndex.serial2 = refl
irq_gate InterruptIndex.serial1 = refl
irq_gate InterruptIndex.lpt2 = refl
irq_gate InterruptIndex.floppy = refl
irq_gate InterruptIndex.lpt1 = refl
irq_gate InterruptIndex.rtc = refl
irq_gate InterruptIndex.acpi = refl
irq_gate InterruptIndex.available1 = refl
irq_gate InterruptIndex.available2 = refl
irq_gate InterruptIndex.mouse = refl
irq_gate InterruptIndex.coprocessor = refl
irq_gate InterruptIndex.primary_ata = refl
irq_gate InterruptIndex.secondary_ata = refl

page_fault_gate : gate_after settings page_fault_vector missing ≡ kernel_gate Handler.page_fault
unfolding gate_after settings exceptions lines configure_idt as_u8
page_fault_gate = refl

syscall_gate : gate_after settings syscall_vector missing ≡ record {
  handler = some Handler.syscall_entry;
  stack_index = none;
  privilege = PrivilegeLevel.ring3;
}
unfolding gate_after settings exceptions lines configure_idt as_u8
syscall_gate = refl

other_table : table (λ v. assigned v || is_missing (gate_after settings v missing)) 256 ≡ true
unfolding table assigned is_missing gate_after settings exceptions lines configure_idt as_u8
other_table = refl

eq_missing : (g : Gate) → is_missing g ≡ true → g ≡ missing
unfolding is_missing
eq_missing g h = go g.handler g.stack_index g.privilege h
  where
    go :
        (handler : Option Handler) (stack_index : Option ℕ) (privilege : PrivilegeLevel)
        → is_missing
            (record { handler = handler; stack_index = stack_index; privilege = privilege })
          ≡ true
        → ◌≡◌ {A = Gate}
            (record { handler = handler; stack_index = stack_index; privilege = privilege })
            missing
    go none none PrivilegeLevel.ring0 h = refl
    go none none PrivilegeLevel.ring3 h = absurd (ground arith)
    go none (some i) privilege h = absurd (ground arith)
    go (some f) stack_index privilege h = absurd (ground arith)

other_gate : (v : ℕ) → v < 256 → assigned v ≡ false → gate_after settings v missing ≡ missing
other_gate v h free = eq_missing _ (
    ground (
      arith,
      free,
      table-lookup (λ v. assigned v || is_missing (gate_after settings v missing)) 256 v h
          other_table,
    ))

-- What a vector of the table reaches
pub record Dispatches (gate : ℕ → Gate) : Type 0 where
  pub exception :
      (e : Exception)
      → gate (vector_of e) ≡ record {
        handler = some (Handler.exception e);
        stack_index = stack_of e;
        privilege = PrivilegeLevel.ring0;
      }
  pub page_fault : gate page_fault_vector ≡ kernel_gate Handler.page_fault
  pub irq : (i : InterruptIndex) → gate (as_u8 i) ≡ kernel_gate (Handler.irq i)
  pub syscall : gate syscall_vector ≡ record {
    handler = some Handler.syscall_entry;
    stack_index = none;
    privilege = PrivilegeLevel.ring3;
  }
  pub other : (v : ℕ) → v < 256 → assigned v ≡ false → gate v ≡ missing

-- For a table whose entries keep what its methods set: after init every exception of the processor reaches
-- the handler of its name, every line of the interrupt controllers the handler that acknowledges that line,
-- vector 0x80 the system call, and no other vector has a handler. Only 0x80 is open to ring 3, and only
-- double faults change the stack, to the entry double_fault_ist_index of the task state segment.
pub init-Dispatches : (c : Crate) → Dispatches (c.gate (init c))
init-Dispatches c = record {
  exception = λ e. gate-init c (vector_of e) ∙ exception_gate e;
  page_fault = gate-init c page_fault_vector ∙ page_fault_gate;
  irq = λ i. gate-init c (as_u8 i) ∙ irq_gate i;
  syscall = gate-init c syscall_vector ∙ syscall_gate;
  other = λ v h free. gate-init c v ∙ other_gate v h free;
}
