-- ===== src/Xhci/Init.antt =====
-- The bring-up of the controller in xhci.rs.
use mon_os.Base.{
  ℕ, ◌+◌, ◌-◌, ◌*◌, ◌^◌, Bool, true, false, not, Option, none, some, ◌==◌, if◌then◌else◌, bit_and,
  bit_or,
}
use mon_os.Xhci.Machine.{
  XhciInfo, ControllerState, M, pure, ◌>>=◌, ◌>>◌, write32, write64, zero_phys, alloc, put_state,
  wait_for, a_million,
}
use mon_os.Xhci.Regs.{
  max_slots, usbcmd, set_usbcmd, usbsts, clear_usbsts, crcr, set_dcbaap, set_crcr, set_config,
  set_erstsz, set_erstba, set_erdp, iman, set_iman, set_imod,
}
use mon_os.Xhci.Rings.{zero_trbs, init_link_trb, enqueue_noop_command, ring_doorbell}
use mon_os.Xhci.Events.{wait_for_command_completion}

-- The texts of the errors, in the order of the code
pub data InitError : Type 0 where
  null_base halt_timeout reset_bit_stuck reset_halt_timeout : InitError
  no_command_ring no_dcbaa no_event_ring no_erst run_timeout : InitError

pub data InitResult : Type 0 where
  ready : InitResult
  failed : InitError → InitResult

-- `?` and `return Err(…)`
abbrev pub or_fail : Bool → InitError → M InitResult → M InitResult
or_fail true e k = k
or_fail false e k = pure (InitResult.failed e)

abbrev pub alloc_or : Option ℕ → InitError → (ℕ → M InitResult) → M InitResult
alloc_or none e k = pure (InitResult.failed e)
alloc_or (some p) e k = k p

unfoldable pub halted : XhciInfo → M Bool
halted i = do v ← usbsts i; pure (not (bit_and v 1 == 0))

unfoldable pub halt : XhciInfo → M Bool
halt i = usbcmd i >>= λ cmd.
    if bit_and cmd 1 == 0
    then pure true
    else (do set_usbcmd i (bit_and cmd 0x8e); wait_for (halted i))

unfoldable pub start_reset : XhciInfo → M Bool
start_reset i = do
  cmd ← usbcmd i
  set_usbcmd i (bit_or cmd 2)
  wait_for (do now ← usbcmd i; pure (bit_and now 2 == 0))

unfoldable pub prepare_erst : ℕ → ℕ → M (Unit {0})
prepare_erst erst_phys event_ring_phys = do
  zero_phys erst_phys 16
  write64 erst_phys event_ring_phys
  write32 (erst_phys + 8) 256

-- The registers, in the order of the code, and the run bit last
unfoldable pub program : XhciInfo → ℕ → ℕ → ℕ → ℕ → M (Unit {0})
program i cmd_ring_phys dcbaa_phys event_ring_phys erst_phys = do
  set_dcbaap i dcbaa_phys
  set_crcr i (bit_or (bit_and cmd_ring_phys (2 ^ 64 - 2 ^ 4)) 1)
  set_config i (bit_and (max_slots i) 0xff)
  set_erstsz i 1
  set_erstba i erst_phys
  set_erdp i event_ring_phys
  v ← iman i
  set_iman i (bit_or v 1)
  set_imod i 0
  clear_usbsts i 0x1c

unfoldable pub run : XhciInfo → M Bool
run i = do
  cmd ← usbcmd i
  set_usbcmd i (bit_or cmd 5)
  wait_for (do stopped ← halted i; pure (not stopped))

unfoldable pub fresh_state : XhciInfo → ℕ → ℕ → ℕ → ℕ → ControllerState
fresh_state i cmd_ring_phys dcbaa_phys event_ring_phys erst_phys = record {
  info = i;
  command_ring_phys = cmd_ring_phys;
  command_ring_len = 256;
  command_ring_enqueue = 0;
  command_ring_cycle = true;
  event_ring_phys = event_ring_phys;
  event_ring_len = 256;
  event_ring_dequeue = 0;
  event_ring_cycle = true;
  dcbaa_phys = dcbaa_phys;
  erst_phys = erst_phys;
  last_completion_code = none;
  last_completed_slot = none;
  last_transfer_code = none;
  last_transfer_len = none;
  last_transfer_ep = none;
  last_transfer_slot = none;
  active_slot = none;
  ep0_ring_phys = 0;
  ep0_ring_len = 0;
  ep0_enqueue = 0;
  ep0_cycle = true;
  intr_ep_addr = 0;
  intr_ep_id = 0;
  intr_ring_phys = 0;
  intr_ring_len = 0;
  intr_enqueue = 0;
  intr_cycle = true;
  hid_buf_phys = 0;
  hid_buf_len = 0;
}

-- CONTROLLER_STATE.call_once: only the first controller is kept.
unfoldable pub call_once : ControllerState → M (Unit {0})
call_once s h = elim h.state [ none ↦ put_state s h | some kept ↦ pure tt h ]

-- The no-op command and the wait for it, whatever comes of it
unfoldable pub try_noop : XhciInfo → M (Unit {0})
try_noop i = do
  crcr i
  enqueue_noop_command
  ring_doorbell 0 0
  wait_for_command_completion a_million
  usbsts i
  pure tt

unfoldable pub launch : XhciInfo → ℕ → ℕ → ℕ → ℕ → M InitResult
launch i cmd_ring dcbaa event_ring erst = do
  program i cmd_ring dcbaa event_ring erst
  running ← run i
  or_fail running InitError.run_timeout (do
    call_once (fresh_state i cmd_ring dcbaa event_ring erst)
    try_noop i
    pure InitResult.ready)

unfoldable pub set_up_event_ring : XhciInfo → ℕ → ℕ → M InitResult
set_up_event_ring i cmd_ring dcbaa = alloc (256 * 16) 64 >>= λ got.
    alloc_or got InitError.no_event_ring (λ event_ring. do
      zero_trbs event_ring 256
      got_erst ← alloc 16 64
      alloc_or got_erst InitError.no_erst
          (λ erst. do prepare_erst erst event_ring; launch i cmd_ring dcbaa event_ring erst))

unfoldable pub set_up_rings : XhciInfo → M InitResult
set_up_rings i = alloc (256 * 16) 64 >>= λ got. alloc_or got InitError.no_command_ring (λ cmd_ring.
    do
      zero_trbs cmd_ring 256
      init_link_trb cmd_ring 256 cmd_ring true
      got_dcbaa ← alloc ((max_slots i + 1) * 8) 64
      alloc_or got_dcbaa InitError.no_dcbaa
          (λ dcbaa. do zero_phys dcbaa ((max_slots i + 1) * 8); set_up_event_ring i cmd_ring dcbaa))

unfoldable pub init_controller : XhciInfo → M InitResult
init_controller i =
    if i.base == 0
    then pure (InitResult.failed InitError.null_base)
    else (halt i >>= λ stopped. or_fail stopped InitError.halt_timeout (
        start_reset i >>= λ reset. or_fail reset InitError.reset_bit_stuck (
          wait_for (halted i) >>= λ still.
          or_fail still InitError.reset_halt_timeout (set_up_rings i))))
