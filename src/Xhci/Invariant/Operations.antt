-- ===== src/Xhci/Invariant/Operations.antt =====
-- The calls that main.rs makes of xhci.rs, in any order, against the invariant of its state.
use mon_os.Base.{
  ℕ, ◌≡◌, refl, subst, arith, Bool, true, false, Option, none, some, inl, List, [], ◌∷◌,
}
use mon_os.Xhci.Machine.{XhciInfo, ControllerState, Host, Run, M, pure, ◌>>◌, put_state, load}
use mon_os.Xhci.Regs.{
  usbcmd, set_usbcmd, usbsts, clear_usbsts, crcr, set_dcbaap, set_crcr, set_config, set_erstsz,
  set_erstba, set_erdp, iman, set_iman, set_imod, set_wide, wide,
}
use mon_os.Xhci.Rings.{zero_trbs}
use mon_os.Xhci.Events.{poll_events}
use mon_os.Xhci.Ports.{report_ports, ensure_first_port_enabled}
use mon_os.Xhci.Commands.{enable_slot, address_device, configure_interrupt_in_endpoint}
use mon_os.Xhci.Control.{
  get_device_descriptor, get_configuration_descriptor_header, get_configuration_descriptor,
  set_configuration, request_hid_report_once, start_hid_polling,
}
use mon_os.Xhci.Init.{
  InitError, InitResult, or_fail, alloc_or, halted, halt, start_reset, prepare_erst, program, run,
  fresh_state, call_once, try_noop, launch, set_up_event_ring, set_up_rings, init_controller,
}
use mon_os.Xhci.Invariant.{
  IsValid, RingFits, Known, Ends, IsSafe, run_rules, bind-IsSafe, pure-IsSafe, wait_for-IsSafe,
}
use mon_os.Xhci.Invariant.Rings.{ring_rules}
use mon_os.Xhci.Invariant.Events.{poll_events-IsSafe, wait_for_command_completion-IsSafe}
use mon_os.Xhci.Invariant.Devices.{
  report_ports-IsSafe, ensure_first_port_enabled-IsSafe, enable_slot-IsSafe, address_device-IsSafe,
  configure_interrupt_in_endpoint-IsSafe,
}
use mon_os.Xhci.Invariant.Transfers.{
  get_device_descriptor-IsSafe, get_configuration_descriptor_header-IsSafe,
  get_configuration_descriptor-IsSafe, set_configuration-IsSafe, request_hid_report_once-IsSafe,
  start_hid_polling-IsSafe,
}

or_fail-IsSafe : (b : Bool) (e : InitError) (k : M InitResult) → IsSafe k → IsSafe (or_fail b e k)
or_fail-IsSafe true e k safe = safe
or_fail-IsSafe false e k safe = pure-IsSafe _

alloc_or-IsSafe :
    (o : Option ℕ) (e : InitError) (k : ℕ → M InitResult)
    → ((p : ℕ) → IsSafe (k p))
    → IsSafe (alloc_or o e k)
alloc_or-IsSafe none e k safe = pure-IsSafe _
alloc_or-IsSafe (some p) e k safe = safe p

halt-IsSafe : (i : XhciInfo) → IsSafe (halt i)
unfolding halt halted usbcmd usbsts set_usbcmd
halt-IsSafe i = search (run_rules, wait_for-IsSafe) depth 9

halted-IsSafe : (i : XhciInfo) → IsSafe (halted i)
unfolding halted usbsts
halted-IsSafe i = search run_rules

start_reset-IsSafe : (i : XhciInfo) → IsSafe (start_reset i)
unfolding start_reset usbcmd set_usbcmd
start_reset-IsSafe i = search (run_rules, wait_for-IsSafe) depth 9

prepare_erst-IsSafe : (erst ring : ℕ) → IsSafe (prepare_erst erst ring)
unfolding prepare_erst
prepare_erst-IsSafe erst ring = search run_rules

program-IsSafe : (i : XhciInfo) (cmd dcbaa ring erst : ℕ) → IsSafe (program i cmd dcbaa ring erst)
unfolding program set_dcbaap set_crcr set_config set_erstsz set_erstba set_erdp iman set_iman
    set_imod clear_usbsts set_wide Known Ends load
program-IsSafe i cmd dcbaa ring erst = search run_rules

run-IsSafe : (i : XhciInfo) → IsSafe (run i)
unfolding run usbcmd set_usbcmd
run-IsSafe i = search (run_rules, wait_for-IsSafe, halted-IsSafe) depth 9

pub fresh_state-IsValid :
    (i : XhciInfo) (cmd dcbaa ring erst : ℕ) → IsValid (fresh_state i cmd dcbaa ring erst)
unfolding fresh_state RingFits
fresh_state-IsValid i cmd dcbaa ring erst = record {
  command_len = refl;
  command_index = omega arith;
  event_len = refl;
  event_index = omega arith;
  ep0 = inl refl;
  intr = inl refl;
}

call_once-IsSafe : (s : ControllerState) → IsValid s → IsSafe (call_once s)
unfolding call_once Ends Known
call_once-IsSafe s v = record { at = λ h known. kept h h.state known known }
  where
    kept :
        (h : Host) (o : Option ControllerState)
        → Known o
        → Known h.state
        → Ends
            (λ (a : Unit {0}) (h' : Host). Known h'.state)
            (elim o [ none ↦ put_state s h | some kept ↦ pure tt h ])
    kept h none there known = v
    kept h (some s') there known = known

try_noop-IsSafe : (i : XhciInfo) → IsSafe (try_noop i)
unfolding try_noop crcr wide usbsts
try_noop-IsSafe i = search (ring_rules, wait_for_command_completion-IsSafe) depth 12

launch-IsSafe : (i : XhciInfo) (cmd dcbaa ring erst : ℕ) → IsSafe (launch i cmd dcbaa ring erst)
unfolding launch
launch-IsSafe i cmd dcbaa ring erst =
    search
      (
        run_rules, program-IsSafe, run-IsSafe, or_fail-IsSafe, call_once-IsSafe,
        fresh_state-IsValid, try_noop-IsSafe,
      )
      depth 12

set_up_event_ring-IsSafe : (i : XhciInfo) (cmd dcbaa : ℕ) → IsSafe (set_up_event_ring i cmd dcbaa)
unfolding set_up_event_ring zero_trbs
set_up_event_ring-IsSafe i cmd dcbaa =
    search (ring_rules, alloc_or-IsSafe, prepare_erst-IsSafe, launch-IsSafe) depth 12

set_up_rings-IsSafe : (i : XhciInfo) → IsSafe (set_up_rings i)
unfolding set_up_rings zero_trbs
set_up_rings-IsSafe i = search (ring_rules, alloc_or-IsSafe, set_up_event_ring-IsSafe) depth 14

pub init_controller-IsSafe : (i : XhciInfo) → IsSafe (init_controller i)
unfolding init_controller
init_controller-IsSafe i =
    search
      (
        run_rules, or_fail-IsSafe, halt-IsSafe, start_reset-IsSafe, wait_for-IsSafe, halted-IsSafe,
        set_up_rings-IsSafe,
      )
      depth 14

-- A call of the driver
pub data Operation : Type 0 where
  init : XhciInfo → Operation
  report poll ensure_enabled enable : Operation
  address device_descriptor config_header : ℕ → Operation
  config_descriptor set_config_value : ℕ → ℕ → Operation
  configure_endpoint : ℕ → ℕ → ℕ → ℕ → Operation
  request_report start_polling : ℕ → ℕ → ℕ → Operation

-- A call whose value the caller does not keep
unfoldable pub call : {A : Type 0} → M A → M (Unit {0})
call m = do m; pure tt

unfoldable pub perform : Operation → M (Unit {0})
perform (Operation.init i) = call (init_controller i)
perform Operation.report = report_ports
perform Operation.poll = call poll_events
perform Operation.ensure_enabled = call ensure_first_port_enabled
perform Operation.enable = call enable_slot
perform (Operation.address slot) = call (address_device slot)
perform (Operation.device_descriptor slot) = call (get_device_descriptor slot)
perform (Operation.config_header slot) = call (get_configuration_descriptor_header slot)
perform (Operation.config_descriptor slot total) = call (get_configuration_descriptor slot total)
perform (Operation.set_config_value slot v) = call (set_configuration slot v)
perform (Operation.configure_endpoint slot addr maxp interval) =
    call (configure_interrupt_in_endpoint slot addr maxp interval)
perform (Operation.request_report slot addr maxp) = call (request_hid_report_once slot addr maxp)
perform (Operation.start_polling slot addr maxp) = call (start_hid_polling slot addr maxp)

unfoldable pub perform_all : List Operation → M (Unit {0})
perform_all [] = pure tt
perform_all (op ∷ ops) = do perform op; perform_all ops

call-IsSafe : {A : Type 0} (m : M A) → IsSafe m → IsSafe (call m)
unfolding call
call-IsSafe m safe = search (run_rules, safe)

perform-IsSafe : (op : Operation) → IsSafe (perform op)
unfolding perform
perform-IsSafe (Operation.init i) = call-IsSafe _ (init_controller-IsSafe i)
perform-IsSafe Operation.report = report_ports-IsSafe
perform-IsSafe Operation.poll = call-IsSafe _ poll_events-IsSafe
perform-IsSafe Operation.ensure_enabled = call-IsSafe _ ensure_first_port_enabled-IsSafe
perform-IsSafe Operation.enable = call-IsSafe _ enable_slot-IsSafe
perform-IsSafe (Operation.address slot) = call-IsSafe _ (address_device-IsSafe slot)
perform-IsSafe (Operation.device_descriptor slot) =
    call-IsSafe _ (get_device_descriptor-IsSafe slot)
perform-IsSafe (Operation.config_header slot) =
    call-IsSafe _ (get_configuration_descriptor_header-IsSafe slot)
perform-IsSafe (Operation.config_descriptor slot total) =
    call-IsSafe _ (get_configuration_descriptor-IsSafe slot total)
perform-IsSafe (Operation.set_config_value slot v) = call-IsSafe _ (set_configuration-IsSafe slot v)
perform-IsSafe (Operation.configure_endpoint slot addr maxp interval) =
    call-IsSafe _ (configure_interrupt_in_endpoint-IsSafe slot addr maxp interval)
perform-IsSafe (Operation.request_report slot addr maxp) =
    call-IsSafe _ (request_hid_report_once-IsSafe slot addr maxp)
perform-IsSafe (Operation.start_polling slot addr maxp) =
    call-IsSafe _ (start_hid_polling-IsSafe slot addr maxp)

perform_all-IsSafe : (ops : List Operation) → IsSafe (perform_all ops)
unfolding perform_all
perform_all-IsSafe [] = pure-IsSafe tt
perform_all-IsSafe (op ∷ ops) =
    bind-IsSafe (perform op) _ (perform-IsSafe op) (λ _. perform_all-IsSafe ops)

-- Where no controller is set up, or one whose state is valid, any calls of the driver that all end leave no
-- controller or a valid state, the set-up of the controller among them. Valid means: the command ring has
-- 256 entries and its next one is not the link TRB, the event ring has 256 and its next one is inside, and
-- each transfer ring is absent, or has its size and a next entry that is not the link TRB.
pub perform_all-Known :
    (ops : List Operation) (h h' : Host)
    → Known h.state
    → perform_all ops h ≡ Run.ok tt h'
    → Known h'.state
unfolding Ends
perform_all-Known ops h h' start ended =
    subst (Ends (λ (a : Unit {0}) (x : Host). Known x.state)) ended
      ((perform_all-IsSafe ops).at h start)
