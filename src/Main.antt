-- ===== src/Main.antt =====
-- kernel/src/main.rs: what kernel_main does in order, the count of the memory map, and the bring-up of the
-- USB controllers with the driver of xhci.rs.
pub mod Bringup
pub mod MemoryMap
mod Tests
use mon_os.Base.Memory.{Memory}
use mon_os.Base.{
  ℕ, zero, suc, ◌+◌, ◌/◌, Bool, not, ◌&&◌, Option, none, some, List, [], ◌∷◌, ◌++◌, ◌==◌,
  if◌then◌else◌, ltb, saturating_add, bit_or, ◌<<<◌, u32,
}
use mon_os.Base.Text.{ascii}
use mon_os.Serial
use mon_os.Serial.{Serial}
use mon_os.Vga
use mon_os.Vga.{Console}
use mon_os.BootInfo
use mon_os.BootInfo.{BootInfo, MemoryMapEntry, is_usable}
use mon_os.Pci.{PciAddress, Bar, find_usb_controllers, prog_if, bar}
use mon_os.Xhci.Machine.{XhciInfo, Run, M, pure, ◌>>=◌, ◌>>◌, load}
use mon_os.Xhci.Regs.{inspect}
use mon_os.Xhci.Events.{poll_events, panics}
use mon_os.Xhci.Ports.{report_ports, ensure_first_port_enabled}
use mon_os.Xhci.Commands.{enable_slot, address_device, configure_interrupt_in_endpoint}
use mon_os.Xhci.Control.{
  get_device_descriptor, get_configuration_descriptor_header, get_configuration_descriptor,
  set_configuration, start_hid_polling,
}
use mon_os.Xhci.Descriptors.{Parsed, parse_hid_keyboard_endpoint}
use mon_os.Xhci.Init.{InitError, InitResult, init_controller}

-- log_memory_map: how many regions, and the usable bytes
unfoldable pub count_region : ℕ × ℕ → MemoryMapEntry → ℕ × ℕ
count_region counted e =
    (counted.0 + 1, if is_usable e then saturating_add counted.1 e.length else counted.1)

unfoldable pub count_regions : ℕ × ℕ → List MemoryMapEntry → ℕ × ℕ
count_regions counted [] = counted
count_regions counted (e ∷ es) = count_regions (count_region counted e) es

-- The numbers of the last line: the KiB and the entries
unfoldable pub log_memory_map : Memory → BootInfo → ℕ × ℕ
log_memory_map mem boot =
    let counted = count_regions (0, 0) (BootInfo.entries mem boot) in (counted.1 / 1024, counted.0)

-- How far the bring-up of a controller gets, by the last line that it logs
pub data Stage : Type 0 where
  init_failed : InitError → Stage
  no_slot not_addressed no_device_descriptor no_config_header no_config : Stage
  not_configured no_keyboard no_endpoint not_polling polling : Stage

unfoldable pub read_bytes : ℕ → ℕ → M (List ℕ)
read_bytes addr zero = pure []
read_bytes addr (suc n) = load 1 addr >>= λ b. read_bytes (addr + 1) n >>= λ bs. pure (b ∷ bs)

-- parse_hid_keyboard_endpoint, on the bytes that the descriptor has now
unfoldable pub parsed : Parsed → M (Option (ℕ × ℕ × ℕ))
parsed Parsed.out_of_fuel = λ h. Run.out_of_fuel
parsed Parsed.panic = panics
parsed (Parsed.returns r) = pure r

unfoldable pub start_keyboard : ℕ → Option (ℕ × ℕ × ℕ) → M Stage
start_keyboard slot none = pure Stage.no_keyboard
start_keyboard slot (some (ep_addr, maxp, interval)) =
    configure_interrupt_in_endpoint slot ep_addr maxp interval >>= λ configured.
    if configured
    then (start_hid_polling slot ep_addr maxp >>= λ started.
        pure (if started then Stage.polling else Stage.not_polling))
    else pure Stage.no_endpoint

unfoldable pub configure : ℕ → ℕ → ℕ → ℕ → M Stage
configure slot total_len cfg_val cfg_phys = set_configuration slot cfg_val >>= λ set.
    if set
    then (read_bytes cfg_phys total_len >>= λ bytes.
        parsed (parse_hid_keyboard_endpoint bytes) >>= λ found. start_keyboard slot found)
    else pure Stage.not_configured

-- `if let Some(a) = … { … } else { … }`
abbrev pub or_stage : {A : Type 0} → Stage → M (Option A) → (A → M Stage) → M Stage
or_stage {A} stage m k = m >>= λ (got : Option A). elim got [ none ↦ pure stage | some a ↦ k a ]

unfoldable pub use_slot : ℕ → M Stage
use_slot slot = address_device slot >>= λ addressed.
    if addressed
    then or_stage Stage.no_device_descriptor (get_device_descriptor slot) (λ dev_desc.
      or_stage Stage.no_config_header (get_configuration_descriptor_header slot) (λ header.
        or_stage Stage.no_config (get_configuration_descriptor slot header.1)
          (λ cfg_phys. configure slot header.1 header.2 cfg_phys)))
    else pure Stage.not_addressed

-- The arms of `match xhci::init_controller(info)`
unfoldable pub after_init : InitResult → M Stage
after_init (InitResult.failed e) = pure (Stage.init_failed e)
after_init InitResult.ready = do
  report_ports
  poll_events
  ensure_first_port_enabled
  stage ← or_stage Stage.no_slot enable_slot use_slot
  poll_events
  pure stage

unfoldable pub bring_up : XhciInfo → M Stage
bring_up info = init_controller info >>= after_init

-- What log_usb_controllers makes of a controller that it finds
pub data Seen : Type 0 where
  other missing_bar not_memory no_capabilities : Seen
  driven : XhciInfo → Stage → Seen

unfoldable pub drive : Bar → M Seen
drive b =
    if b.is_memory
    then (inspect b.base >>= λ found. elim found [
      | none ↦ pure Seen.no_capabilities
      | some info ↦ bring_up info >>= λ stage. pure (Seen.driven info stage)
    ])
    else pure Seen.not_memory

unfoldable pub look_at : (ℕ → ℕ) → PciAddress → M Seen
look_at cfg addr =
    if prog_if cfg addr == 0x30
    then (elim (bar cfg addr 0) [ none ↦ pure Seen.missing_bar | some b ↦ drive b ])
    else pure Seen.other

unfoldable pub look_at_all : (ℕ → ℕ) → List PciAddress → M (List Seen)
look_at_all cfg [] = pure []
look_at_all cfg (addr ∷ rest) =
    look_at cfg addr >>= λ s. look_at_all cfg rest >>= λ later. pure (s ∷ later)

unfoldable pub log_usb_controllers : (ℕ → ℕ) → M (List Seen)
log_usb_controllers cfg = look_at_all cfg (find_usb_controllers cfg)

-- debug_out: the writes to a port, each with the port
unfoldable pub debug_out : List ℕ → List (ℕ × ℕ)
debug_out [] = []
debug_out (b ∷ bs) = (0xe9, b) ∷ debug_out bs

-- exit_qemu: the value for port 0xF4
unfoldable pub exit_value : ℕ → ℕ
exit_value code = bit_or (u32 (code <<< 1)) 1

unfoldable pub exit_qemu : ℕ → List (ℕ × ℕ)
exit_qemu code = (0xf4, exit_value code) ∷ []

-- shutdown_via_keyboard of keyboard.rs: the line for the serial port, and the writes of exit_qemu
unfoldable pub shutdown_via_keyboard : List ℕ → List ℕ × List (ℕ × ℕ)
shutdown_via_keyboard combo = (ascii "[KEYBOARD] " ++ (combo ++ (13 ∷ 10 ∷ [])), exit_qemu 0)

-- panic, with the text of the panic, on the serial port and the screen; then the processor halts for ever.
unfoldable pub panic : (ℕ → ℕ) → List ℕ → Serial → Console → Serial × Console
panic status info serial console = (Serial.panic status info serial, Vga.panic info console)

-- The calls of kernel_main in order, with the lines for the debug port between them. The early call of the
-- agent's task needs a model.
pub data Call : Type 0 where
  gdt_init serial_init find_model register_agent run_once idt_init syscall_init : Call
  vga_init vga_headline pic_init pmm_init memory_map usb_controllers : Call
  interrupts_on system_ready shell_start : Call
  poll_usb shell_step hlt : Call

-- The agent's early part: `if !INITRD_BASE.is_null() && INITRD_LEN > 0`, and then the model's address
unfoldable pub early_agent : BootInfo → Bool → List Call
early_agent boot has_model =
    (if not (boot.initrd_base == 0) && ltb 0 boot.initrd_len then Call.find_model ∷ [] else [])
    ++ (if has_model then Call.register_agent ∷ Call.run_once ∷ [] else [])

unfoldable pub kernel_main : BootInfo → Bool → List Call
kernel_main boot has_model =
    (Call.gdt_init ∷ Call.serial_init ∷ [])
    ++ (early_agent boot has_model
        ++ (Call.idt_init ∷ Call.run_once ∷ Call.syscall_init ∷ Call.run_once ∷ Call.vga_init
            ∷ Call.vga_headline ∷ Call.pic_init ∷ Call.run_once ∷ Call.pmm_init ∷ Call.memory_map
            ∷ Call.usb_controllers ∷ Call.run_once ∷ Call.interrupts_on ∷ Call.system_ready
            ∷ Call.shell_start ∷ []))

-- A round of the loop at the end
unfoldable pub main_round : List Call
main_round = Call.poll_usb ∷ Call.run_once ∷ Call.shell_step ∷ Call.hlt ∷ []
