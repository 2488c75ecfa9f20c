-- ===== src/Xhci/Invariant/Devices.antt =====
-- The invariant under the port functions, the commands and the control transfers.
use mon_os.Base.{ℕ, zero, suc, ◌+◌, refl, arith, Option, none, some, inr}
use mon_os.Xhci.Machine.{XhciInfo, ControllerState, M}
use mon_os.Xhci.Regs.{write_portsc}
use mon_os.Xhci.Rings.{zero_trbs}
use mon_os.Xhci.Ports.{
  with_info, report_from, report_ports, connected_from, find_first_connected_port, reset_port,
  port_enabled, ensure_first_port_enabled,
}
use mon_os.Xhci.Commands.{
  enable_slot, speed_of_first_port, write_dequeue, fill_address_context, install, new_ring, adopt,
  addressed, issue, address_with, address_device, configured, fill_endpoint_context,
  configure_interrupt_in_endpoint,
}
use mon_os.Xhci.Invariant.{
  IsValid, RingFits, IsSafe, run_rules, bind-IsSafe, pure-IsSafe, then-IsSafe, cases-IsSafe,
  wait_for-IsSafe,
}
use mon_os.Xhci.Invariant.Rings.{ring_rules}
use mon_os.Xhci.Invariant.Events.{panics-IsSafe, portsc-IsSafe, wait_for_command_completion-IsSafe}

write_portsc-IsSafe : (i : XhciInfo) (index v : ℕ) → IsSafe (write_portsc i index v)
unfolding write_portsc
write_portsc-IsSafe i index v = search run_rules

with_info-IsSafe :
    {A : Type 0} (absent : A) (body : XhciInfo → M A)
    → ((i : XhciInfo) → IsSafe (body i))
    → IsSafe (with_info absent body)
with_info-IsSafe absent body safe = search run_rules

report_from-IsSafe : (i : XhciInfo) (n index : ℕ) → IsSafe (report_from i n index)
unfolding report_from
report_from-IsSafe i zero index = search run_rules
report_from-IsSafe i (suc n) index =
    then-IsSafe _ _ (portsc-IsSafe i index) (report_from-IsSafe i n (index + 1))

pub report_ports-IsSafe : IsSafe report_ports
unfolding report_ports
report_ports-IsSafe = search (run_rules, with_info-IsSafe, report_from-IsSafe)

connected_from-IsSafe : (i : XhciInfo) (n index : ℕ) → IsSafe (connected_from i n index)
unfolding connected_from
connected_from-IsSafe i zero index = search run_rules
connected_from-IsSafe i (suc n) index =
    bind-IsSafe _ _ (portsc-IsSafe i index)
      (λ sc. cases-IsSafe _ _ _ (connected_from-IsSafe i n (index + 1)) (pure-IsSafe _))

pub find_first_connected_port-IsSafe : IsSafe find_first_connected_port
unfolding find_first_connected_port
find_first_connected_port-IsSafe = search (run_rules, with_info-IsSafe, connected_from-IsSafe)

ruleset port_rules = (
  ring_rules, with_info-IsSafe, portsc-IsSafe, write_portsc-IsSafe,
  find_first_connected_port-IsSafe, wait_for-IsSafe,
)

reset_port-IsSafe : (index : ℕ) → IsSafe (reset_port index)
unfolding reset_port
reset_port-IsSafe index = search port_rules depth 14

port_enabled-IsSafe : (index : ℕ) → IsSafe (port_enabled index)
unfolding port_enabled
port_enabled-IsSafe index = search port_rules depth 9

pub ensure_first_port_enabled-IsSafe : IsSafe ensure_first_port_enabled
unfolding ensure_first_port_enabled
ensure_first_port_enabled-IsSafe =
    search (port_rules, port_enabled-IsSafe, reset_port-IsSafe) depth 9

pub enable_slot-IsSafe : IsSafe enable_slot
unfolding enable_slot
enable_slot-IsSafe = search (ring_rules, wait_for_command_completion-IsSafe)

speed_of_first_port-IsSafe : IsSafe speed_of_first_port
unfolding speed_of_first_port
speed_of_first_port-IsSafe = search port_rules depth 9

write_dequeue-IsSafe : (ctx phys : ℕ) → IsSafe (write_dequeue ctx phys)
unfolding write_dequeue
write_dequeue-IsSafe ctx phys = search run_rules

fill_address_context-IsSafe : (size ic phys : ℕ) → IsSafe (fill_address_context size ic phys)
unfolding fill_address_context
fill_address_context-IsSafe size ic phys =
    search (run_rules, speed_of_first_port-IsSafe, write_dequeue-IsSafe) depth 14

install-IsSafe : (i : XhciInfo) (dcbaa slot dc : ℕ) → IsSafe (install i dcbaa slot dc)
unfolding install
install-IsSafe i dcbaa slot dc = search (run_rules, panics-IsSafe)

new_ring-IsSafe : (phys n : ℕ) → IsSafe (new_ring phys n)
unfolding new_ring zero_trbs
new_ring-IsSafe phys n = search ring_rules

-- A successful command changes the state as told, and only then.
adopt-IsSafe :
    (change : ControllerState → ControllerState) (slot : ℕ) (done : Option (ℕ × ℕ))
    → ((s : ControllerState) → IsValid s → IsValid (change s))
    → IsSafe (adopt change slot done)
unfolding adopt
adopt-IsSafe change slot none good = search run_rules
adopt-IsSafe change slot (some (code, done)) good = search (run_rules, good) depth 9

issue-IsSafe :
    (t ic : ℕ) (change : ControllerState → ControllerState) (slot : ℕ)
    → ((s : ControllerState) → IsValid s → IsValid (change s))
    → IsSafe (issue t ic change slot)
unfolding issue
issue-IsSafe t ic change slot good =
    search (ring_rules, wait_for_command_completion-IsSafe, adopt-IsSafe, good) depth 9

pub addressed-IsValid :
    (slot phys : ℕ) (s : ControllerState) → IsValid s → IsValid (addressed slot phys s)
unfolding addressed RingFits
addressed-IsValid slot phys s v = record {
  command_len = v.command_len;
  command_index = v.command_index;
  event_len = v.event_len;
  event_index = v.event_index;
  ep0 = inr (refl, omega arith);
  intr = v.intr;
}

pub configured-IsValid :
    (addr ep phys : ℕ) (s : ControllerState) → IsValid s → IsValid (configured addr ep phys s)
unfolding configured RingFits
configured-IsValid addr ep phys s v = record {
  command_len = v.command_len;
  command_index = v.command_index;
  event_len = v.event_len;
  event_index = v.event_index;
  ep0 = v.ep0;
  intr = inr (refl, omega arith);
}

address_with-IsSafe : (i : XhciInfo) (dcbaa slot : ℕ) → IsSafe (address_with i dcbaa slot)
unfolding address_with
address_with-IsSafe i dcbaa slot =
    search
      (
        run_rules, install-IsSafe, new_ring-IsSafe, fill_address_context-IsSafe, issue-IsSafe,
        addressed-IsValid,
      )
      depth 20

pub address_device-IsSafe : (slot : ℕ) → IsSafe (address_device slot)
unfolding address_device
address_device-IsSafe slot = search (run_rules, address_with-IsSafe) depth 9

fill_endpoint_context-IsSafe :
    (size ic ep maxp phys : ℕ) → IsSafe (fill_endpoint_context size ic ep maxp phys)
unfolding fill_endpoint_context
fill_endpoint_context-IsSafe size ic ep maxp phys = search (run_rules, write_dequeue-IsSafe) depth 9

pub configure_interrupt_in_endpoint-IsSafe :
    (slot addr maxp interval : ℕ) → IsSafe (configure_interrupt_in_endpoint slot addr maxp interval)
unfolding configure_interrupt_in_endpoint
configure_interrupt_in_endpoint-IsSafe slot addr maxp interval =
    search
      (
        run_rules, with_info-IsSafe, new_ring-IsSafe, fill_endpoint_context-IsSafe, issue-IsSafe,
        configured-IsValid,
      )
      depth 16
