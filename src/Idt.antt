-- ===== src/Idt.antt =====
-- kernel/src/idt.rs, pic.rs and syscall.rs: the handlers, the counters that they keep, and the end of
-- interrupt that they send. The interrupt controllers and the descriptor table are parameters.
pub mod Counters
pub mod Table
pub mod Dispatch
pub mod Lines
pub mod Syscall
mod Tests
use Prim.Native.String.{String}
use mon_os.Base.Text.{ascii}
use mon_os.Base.{ℕ, ◌+◌, ◌%◌, ◌^◌, none, some, List, [], ◌∷◌, ◌++◌, ◌==◌, if◌then◌else◌}
use mon_os.Keyboard.{Keyboard, handle_scancode}

abbrev pub pic_1_offset : ℕ
pic_1_offset = 32

abbrev pub pic_2_offset : ℕ
pic_2_offset = pic_1_offset + 8

-- InterruptIndex
pub data InterruptIndex : Type 0 where
  timer keyboard cascade serial2 serial1 lpt2 floppy lpt1 : InterruptIndex
  rtc acpi available1 available2 mouse coprocessor primary_ata secondary_ata : InterruptIndex

unfoldable pub as_u8 : InterruptIndex → ℕ
as_u8 InterruptIndex.timer = pic_1_offset
as_u8 InterruptIndex.keyboard = pic_1_offset + 1
as_u8 InterruptIndex.cascade = pic_1_offset + 2
as_u8 InterruptIndex.serial2 = pic_1_offset + 3
as_u8 InterruptIndex.serial1 = pic_1_offset + 4
as_u8 InterruptIndex.lpt2 = pic_1_offset + 5
as_u8 InterruptIndex.floppy = pic_1_offset + 6
as_u8 InterruptIndex.lpt1 = pic_1_offset + 7
as_u8 InterruptIndex.rtc = pic_2_offset
as_u8 InterruptIndex.acpi = pic_2_offset + 1
as_u8 InterruptIndex.available1 = pic_2_offset + 2
as_u8 InterruptIndex.available2 = pic_2_offset + 3
as_u8 InterruptIndex.mouse = pic_2_offset + 4
as_u8 InterruptIndex.coprocessor = pic_2_offset + 5
as_u8 InterruptIndex.primary_ata = pic_2_offset + 6
as_u8 InterruptIndex.secondary_ata = pic_2_offset + 7

-- The three counters, the keyboard module, and what the handlers have sent: the vectors that
-- notify_end_of_interrupt was given, and the bytes to the debug port
pub record Interrupts : Type 0 where
  pub irq_count : ℕ
  pub page_faults : ℕ
  pub timer_ticks : ℕ
  pub keys : Keyboard
  pub notified : List ℕ
  pub debug : List ℕ

-- Whether a handler returns, or the machine is left: halted for ever, or shut down by the keyboard
pub data Outcome : Type 0 where
  returns : Interrupts → Outcome
  halted : List ℕ → Interrupts → Outcome
  shuts_down : String → Interrupts → Outcome

unfoldable pub notify_end_of_interrupt : ℕ → Interrupts → Interrupts
notify_end_of_interrupt vector s = record s { notified = s.notified ++ (vector ∷ []) }

-- `fetch_add(1)` of an AtomicU64 wraps.
unfoldable pub count_irq : Interrupts → Interrupts
count_irq s = record s { irq_count = (s.irq_count + 1) % 2 ^ 64 }

-- The handler that `irq_handler!` makes
unfoldable pub irq_handler : InterruptIndex → Interrupts → Outcome
irq_handler index s = Outcome.returns (notify_end_of_interrupt (as_u8 index) (count_irq s))

unfoldable pub debug_line : List ℕ → Interrupts → Interrupts
debug_line message s = record s { debug = s.debug ++ message }

-- `TIMER_TICKS.fetch_add(1) + 1`; the sum overflows, and panics in a debug build, only at 2^64 - 1.
unfoldable pub on_timer : Interrupts → Outcome
on_timer s =
    let ticks = s.timer_ticks + 1 in
    let counted = count_irq (record s { timer_ticks = ticks % 2 ^ 64 }) in
    Outcome.returns (
      notify_end_of_interrupt (as_u8 InterruptIndex.timer) (
        if ticks % 1000 == 0
        then debug_line (ascii "[irq] timer" ++ (10 ∷ [])) counted
        else counted))

-- The port is read once, and the end of interrupt is sent before the shutdown.
unfoldable pub on_keyboard : ℕ → Interrupts → Outcome
on_keyboard scancode s =
    let decoded = handle_scancode scancode s.keys in
    let after =
      notify_end_of_interrupt (as_u8 InterruptIndex.keyboard) (record s { keys = decoded.1 }) in
    elim decoded.0 [ none ↦ Outcome.returns after | some combo ↦ Outcome.shuts_down combo after ]

-- report: the label goes to the serial port, with the code and the stack, and the processor halts.
unfoldable pub report : List ℕ → Interrupts → Outcome
report label s = Outcome.halted label s

unfoldable pub page_fault : Interrupts → Outcome
page_fault s =
    Outcome.halted (ascii "Page Fault") (record s { page_faults = (s.page_faults + 1) % 2 ^ 64 })

-- The exceptions with a handler of `simple_handler!`, of `error_handler!`, or of their own
pub data Exception : Type 0 where
  divide_error debug non_maskable_interrupt breakpoint overflow bound_range_exceeded : Exception
  invalid_opcode device_not_available x87_floating_point simd_floating_point virtualization :
      Exception
  hv_injection machine_check invalid_tss segment_not_present stack_segment_fault : Exception
  general_protection_fault alignment_check cp_protection vmm_communication security double_fault :
      Exception

unfoldable pub label : Exception → List ℕ
label Exception.divide_error = ascii "Divide Error"
label Exception.debug = ascii "Debug"
label Exception.non_maskable_interrupt = ascii "Non Maskable Interrupt"
label Exception.breakpoint = ascii "Breakpoint"
label Exception.overflow = ascii "Overflow"
label Exception.bound_range_exceeded = ascii "Bound Range Exceeded"
label Exception.invalid_opcode = ascii "Invalid Opcode"
label Exception.device_not_available = ascii "Device Not Available"
label Exception.x87_floating_point = ascii "x87 Floating Point"
label Exception.simd_floating_point = ascii "SIMD Floating Point"
label Exception.virtualization = ascii "Virtualization"
label Exception.hv_injection = ascii "Hypervisor Injection"
label Exception.machine_check = ascii "Machine Check"
label Exception.invalid_tss = ascii "Invalid TSS"
label Exception.segment_not_present = ascii "Segment Not Present"
label Exception.stack_segment_fault = ascii "Stack Segment Fault"
label Exception.general_protection_fault = ascii "General Protection Fault"
label Exception.alignment_check = ascii "Alignment Check"
label Exception.cp_protection = ascii "Control Protection"
label Exception.vmm_communication = ascii "VMM Communication"
label Exception.security = ascii "Security"
label Exception.double_fault = ascii "Double Fault"

unfoldable pub exception : Exception → Interrupts → Outcome
exception e s = report (label e) s

-- What a vector of the interrupt controllers runs, with the byte that the keyboard would give
unfoldable pub handler : InterruptIndex → ℕ → Interrupts → Outcome
handler InterruptIndex.timer scancode s = on_timer s
handler InterruptIndex.keyboard scancode s = on_keyboard scancode s
handler index scancode s = irq_handler index s
