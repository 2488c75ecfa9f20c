-- ===== src/Xhci/Tests.antt =====
-- The properties of xhci.rs at concrete hosts and descriptors.
use mon_os.Base.{
  ℕ, ◌+◌, ◌≡◌, refl, arith, false, Option, none, some, inr, List, [], ◌∷◌, ◌==◌, if◌then◌else◌,
}
use mon_os.Xhci.Machine.{Access, XhciInfo, ControllerState, Host, Run, locked, load_trb, load}
use mon_os.Xhci.Rings.{next_index, next_cycle}
use mon_os.Xhci.Regs.{set_erdp, set_wide, max_slots, max_ports, portsc}
use mon_os.Xhci.Ports.{report_ports, report_from}
use mon_os.Xhci.Events.{
  poll_events, is_ready, trb_type_of, poll_locked, poll_loop, read_event, take_event, handle_event,
  on_command_completion, advance_event,
}
use mon_os.Xhci.Control.{start_hid_polling}
use mon_os.Xhci.Init.{fresh_state}
use mon_os.Xhci.Commands.{configured, addressed}
use mon_os.Xhci.Descriptors.{Parsed, is_keyboard, endpoint_of, parse_hid_keyboard_endpoint}
use mon_os.Xhci.Descriptors.Layout.{
  Descriptor, render_all, pick, visit, endpoint_body, interface_body,
  parse_hid_keyboard_endpoint-render_all,
}
use mon_os.Xhci.Descriptors.Rounds.{parse_hid_keyboard_endpoint-returns}
use mon_os.Xhci.Locking.Polling.{HasBuffer, start_hid_polling_lem}
use mon_os.Xhci.Invariant.{IsValid, Known, RingFits}
use mon_os.Xhci.Invariant.Operations.{Operation, perform_all, perform, call, perform_all-Known}
use mon_os.Xhci.Memory.{Domain, IsSound, StateFits, RingInMemory, SlotFits}
use mon_os.Xhci.Memory.Calls.{IsTyped, perform_all-IsSound}
use mon_os.Xhci.Laps.{Command, host_behind, enqueue_all, queued, enqueue_all_lem}

abbrev controller : XhciInfo
controller = record {
  base = 0x1000;
  cap_length = 0x20;
  hci_version = 0x100;
  hcsparams1 = 0x04000008;
  hcsparams2 = 0;
  hcsparams3 = 0;
  hccparams1 = 0;
  dboff = 0x1000;
  rtsoff = 0x2000;
}

abbrev keyboard_state : ControllerState
keyboard_state =
    record (configured 0x81 3 0x9000
      (addressed 1 0x8000 (fresh_state controller 0x4000 0x5000 0x6000 0x7000))) {
        hid_buf_phys = 0xa000;
        hid_buf_len = 8;
      }

-- The event of a report of eight bytes with `left` bytes of the transfer left
abbrev report_answers : ℕ → List Access → ℕ → ℕ → ℕ
report_answers left trace addr width =
    if addr == 0x6008 then 0x1000000 + left else if addr == 0x600c then 0x38001 else 0

abbrev host : (List Access → ℕ → ℕ → ℕ) → Option ControllerState → Host
host answer state = record {
  answer = answer;
  trace = [];
  state = state;
  held = false;
  pmm = record { next_free = 0x100000; limit = 0x200000 };
  patience = 4;
}

start_hid_polling_lem_example :
    start_hid_polling 1 0x81 8 (host (report_answers 8) (some keyboard_state)) ≡ Run.deadlock
unfolding HasBuffer configured
start_hid_polling_lem_example =
    start_hid_polling_lem 1 0x81 8 (host (report_answers 8) (some keyboard_state)) keyboard_state
      refl refl (omega arith) (λ e. absurd (ground arith))

-- A configuration with one interface of a boot keyboard and its interrupt endpoint
abbrev keyboard_descriptors : List Descriptor
keyboard_descriptors =
    record { dtype = 2; body = 34 ∷ 0 ∷ 1 ∷ 1 ∷ 0 ∷ 0xa0 ∷ 50 ∷ [] }
    ∷ record { dtype = 4; body = 0 ∷ 0 ∷ 1 ∷ 3 ∷ 1 ∷ 1 ∷ 0 ∷ [] }
    ∷ record { dtype = 5; body = 0x81 ∷ 3 ∷ 8 ∷ 0 ∷ 10 ∷ [] }
    ∷ []

parse_hid_keyboard_endpoint-render_all_example :
    parse_hid_keyboard_endpoint (render_all keyboard_descriptors)
    ≡ Parsed.returns (pick false keyboard_descriptors)
parse_hid_keyboard_endpoint-render_all_example =
    parse_hid_keyboard_endpoint-render_all keyboard_descriptors

picked : pick false keyboard_descriptors ≡ some (0x81, 8, 10)
unfolding pick visit endpoint_body interface_body is_keyboard endpoint_of
picked = refl

parse_hid_keyboard_endpoint-returns_example :
    (r : Option (ℕ × ℕ × ℕ)) × (parse_hid_keyboard_endpoint (9 ∷ 4 ∷ 0 ∷ []) ≡ Parsed.returns r)
parse_hid_keyboard_endpoint-returns_example = parse_hid_keyboard_endpoint-returns (9 ∷ 4 ∷ 0 ∷ [])

abbrev commands : List Command
commands = (9, 0, 0) ∷ (23, 0, 0) ∷ []

enqueue_all_lem_example :
    enqueue_all commands (host_behind 254 keyboard_state (host (report_answers 8) none))
    ≡ Run.ok tt (
        host_behind 256 keyboard_state (record (host (report_answers 8) none) {
          trace = queued keyboard_state.command_ring_phys 254 commands [];
        }))
enqueue_all_lem_example = enqueue_all_lem commands 254 keyboard_state (host (report_answers 8) none)

-- A completion of a command, for the slot in its low byte, waits in the event ring.
abbrev completion_answers : List Access → ℕ → ℕ → ℕ
completion_answers trace addr width =
    if addr == 0x6008 then 0x1000000 else if addr == 0x600c then 0x8401 else 0

abbrev after : {A : Type 0} → Host → Run A → Host
after h (Run.ok a h') = h'
after h Run.deadlock = h
after h Run.panic = h
after h Run.out_of_fuel = h

abbrev calls : List Operation
calls = Operation.poll ∷ Operation.report ∷ []

abbrev completing : Host
completing = host completion_answers (some keyboard_state)

keyboard_state-IsValid : IsValid keyboard_state
unfolding configured addressed fresh_state RingFits
keyboard_state-IsValid = record {
  command_len = refl;
  command_index = ground arith;
  event_len = refl;
  event_index = ground arith;
  ep0 = inr (refl, ground arith);
  intr = inr (refl, ground arith);
}

perform_all-Known_example : Known (after completing (perform_all calls completing)).state
unfolding Known perform_all perform call configured addressed fresh_state poll_events poll_locked
    poll_loop locked read_event load_trb is_ready take_event handle_event trb_type_of
    on_command_completion advance_event next_index next_cycle set_erdp set_wide report_ports
    report_from max_ports portsc load
perform_all-Known_example =
    perform_all-Known calls completing (after completing (perform_all calls completing))
      keyboard_state-IsValid refl

-- The region starts where the rings of the keyboard's controller are.
abbrev region : Domain
region = record { info = controller; first = 0x4000 }

completing-IsSound : IsSound region completing
unfolding StateFits RingInMemory SlotFits configured addressed fresh_state max_slots
completing-IsSound = record {
  started = omega arith;
  room = omega arith;
  trace = tt;
  state = record {
    valid = keyboard_state-IsValid;
    info = refl;
    command = record { from = omega arith; to = omega arith };
    dcbaa = record { from = omega arith; to = omega arith };
    ep0 = inr (record { from = omega arith; to = omega arith });
    intr = inr (record { from = omega arith; to = omega arith });
    slot = omega arith;
  };
}

perform_all-IsSound_example : IsSound region (after completing (perform_all calls completing))
unfolding IsTyped perform_all perform call configured addressed fresh_state poll_events poll_locked
    poll_loop locked read_event load_trb is_ready take_event handle_event trb_type_of
    on_command_completion advance_event next_index next_cycle set_erdp set_wide report_ports
    report_from max_ports portsc load
perform_all-IsSound_example =
    perform_all-IsSound region calls completing (after completing (perform_all calls completing))
      (tt, (tt, tt)) completing-IsSound refl
