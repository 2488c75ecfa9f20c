-- ===== src/Xhci/Memory/Init.antt =====
-- The bring-up of the controller in xhci.rs: what it writes.
use mon_os.Base.{ℕ, ◌+◌, ◌*◌, ◌^◌, ◌≤◌, refl, arith, Bool, true, false, Option, none, some, inl}
use mon_os.Pmm.{page_size}
use mon_os.Xhci.Machine.{XhciInfo, ControllerState, Host, M, pure, put_state, a_million}
use mon_os.Xhci.Regs.{max_slots}
use mon_os.Xhci.Init.{
  InitError, InitResult, or_fail, halted, halt, start_reset, prepare_erst, program, run,
  fresh_state, call_once, try_noop, launch, set_up_event_ring, set_up_rings, init_controller,
}
use mon_os.Xhci.Invariant.Operations.{fresh_state-IsValid}
use mon_os.Xhci.Memory.{Domain, IsMemory, IsMemory-later, RingInMemory, SlotFits, IsSound, Fits}
use mon_os.Xhci.Memory.Rules.{Leaves, Writes, Always, then-Gives, bind-Gives, pure-Writes, if-Gives}
use mon_os.Xhci.Memory.Accesses.{write_memory, zeroed_memory, wait_for-Writes, put_state-Writes}
use mon_os.Xhci.Memory.Grants.{block-Gives}
use mon_os.Xhci.Memory.Regs.{
  usbcmd-Writes, set_usbcmd-Writes, usbsts-Writes, clear_usbsts-Writes, crcr-Writes,
  set_crcr-Writes, set_dcbaap-Writes, set_config-Writes, set_erstsz-Writes, set_erstba-Writes,
  set_erdp-Writes, iman-Writes, set_iman-Writes, set_imod-Writes,
}
use mon_os.Xhci.Memory.Rings.{
  zero_trbs-Writes, init_link_trb-Writes, enqueue_noop_command-Writes, ring_doorbell-Writes, part,
}
use mon_os.Xhci.Memory.Ports.{wait_for_command_completion-Writes}

table-bounds : (i : XhciInfo) → (max_slots i + 1) * 8 + page_size ≤ 2 ^ 64
unfolding max_slots
table-bounds i = omega arith

module _ {d : Domain} where
  or_fail-Writes :
      (n : ℕ) (b : Bool) (e : InitError) (k : M InitResult)
      → Writes d n k
      → Writes d n (or_fail b e k)
  or_fail-Writes n true e k safe = safe
  or_fail-Writes n false e k safe = pure-Writes n _

  halted-Writes : (n : ℕ) (i : XhciInfo) → Writes d n (halted i)
  unfolding halted
  halted-Writes n i = bind-Gives n Always _ _ (usbsts-Writes n i) (λ v. pure-Writes n _)

  halt-Writes : (n : ℕ) → Writes d n (halt d.info)
  unfolding halt
  halt-Writes n = bind-Gives n Always _ _ (usbcmd-Writes n) (λ cmd.
      if-Gives n Always _ _ _ (pure-Writes n true)
        (then-Gives n Always _ _ (set_usbcmd-Writes n _) (wait_for-Writes n _ (halted-Writes n _))))

  start_reset-Writes : (n : ℕ) → Writes d n (start_reset d.info)
  unfolding start_reset
  start_reset-Writes n = bind-Gives n Always _ _ (usbcmd-Writes n) (λ cmd.
      then-Gives n Always _ _ (set_usbcmd-Writes n _)
        (wait_for-Writes n _ (bind-Gives n Always _ _ (usbcmd-Writes n) (λ now. pure-Writes n _))))

  run-Writes : (n : ℕ) → Writes d n (run d.info)
  unfolding run
  run-Writes n = bind-Gives n Always _ _ (usbcmd-Writes n) (λ cmd.
      then-Gives n Always _ _ (set_usbcmd-Writes n _) (
        wait_for-Writes n _
          (bind-Gives n Always _ _ (halted-Writes n d.info) (λ stopped. pure-Writes n _))))

  prepare_erst-Writes :
      (n erst ring : ℕ) → IsMemory d n erst 16 → Writes d n (prepare_erst erst ring)
  unfolding prepare_erst
  prepare_erst-Writes n erst ring m = then-Gives n Always _ _ (zeroed_memory n erst 16 m) (
      then-Gives n Always _ _
        (write_memory n erst 8 _ (part n erst 16 erst 8 m (omega arith) (omega arith)))
        (write_memory n (erst + 8) 4 _ (part n erst 16 (erst + 8) 4 m (omega arith) (omega arith))))

  program-Writes : (n cmd dcbaa ring erst : ℕ) → Writes d n (program d.info cmd dcbaa ring erst)
  unfolding program
  program-Writes n cmd dcbaa ring erst = then-Gives n Always _ _ (set_dcbaap-Writes n _) (
      then-Gives n Always _ _ (set_crcr-Writes n _) (
        then-Gives n Always _ _ (set_config-Writes n _) (
          then-Gives n Always _ _ (set_erstsz-Writes n _) (
            then-Gives n Always _ _ (set_erstba-Writes n _) (
              then-Gives n Always _ _ (set_erdp-Writes n _ _ refl) (
                bind-Gives n Always _ _ (iman-Writes n d.info) (λ v.
                  then-Gives n Always _ _ (set_iman-Writes n _)
                    (then-Gives n Always _ _ (set_imod-Writes n _) (clear_usbsts-Writes n _)))))))))

  fresh_state-Fits :
      (n cmd dcbaa ring erst : ℕ)
      → IsMemory d n cmd 4096
      → IsMemory d n dcbaa ((max_slots d.info + 1) * 8)
      → Fits d n (fresh_state d.info cmd dcbaa ring erst)
  unfolding fresh_state RingInMemory SlotFits
  fresh_state-Fits n cmd dcbaa ring erst commands table = record {
    valid = unfold fresh_state in fresh_state-IsValid d.info cmd dcbaa ring erst;
    info = refl;
    command = commands;
    dcbaa = table;
    ep0 = inl refl;
    intr = inl refl;
    slot = tt;
  }

  call_once-Writes : (n : ℕ) (s : ControllerState) → Fits d n s → Writes d n (call_once s)
  unfolding call_once Leaves Always
  call_once-Writes n s f = record { at = λ h le sound. kept h le sound h.state }
    where
      kept :
          (h : Host)
          → n ≤ h.pmm.next_free
          → IsSound d h
          → (o : Option ControllerState)
          → Leaves d h Always (elim o [ none ↦ put_state s h | some kept ↦ pure tt h ])
      kept h le sound none = (put_state-Writes n s f).at h le sound
      kept h le sound (some s') = (pure-Writes n tt).at h le sound

  try_noop-Writes : (n : ℕ) (i : XhciInfo) → Writes d n (try_noop i)
  unfolding try_noop
  try_noop-Writes n i = then-Gives n Always _ _ (crcr-Writes n i) (
      then-Gives n Always _ _ (enqueue_noop_command-Writes n) (
        then-Gives n Always _ _ (ring_doorbell-Writes n 0 0 (omega arith)) (
          then-Gives n Always _ _ (wait_for_command_completion-Writes n a_million)
            (then-Gives n Always _ _ (usbsts-Writes n i) (pure-Writes n tt)))))

  launch-Writes :
      (n cmd dcbaa ring erst : ℕ)
      → IsMemory d n cmd 4096
      → IsMemory d n dcbaa ((max_slots d.info + 1) * 8)
      → Writes d n (launch d.info cmd dcbaa ring erst)
  unfolding launch
  launch-Writes n cmd dcbaa ring erst commands table =
      then-Gives n Always _ _ (program-Writes n cmd dcbaa ring erst) (
        bind-Gives n Always _ _ (run-Writes n) (λ running. or_fail-Writes n running _ _ (
          then-Gives n Always _ _
            (call_once-Writes n _ (fresh_state-Fits n cmd dcbaa ring erst commands table))
            (then-Gives n Always _ _ (try_noop-Writes n d.info) (pure-Writes n _)))))

  set_up_event_ring-Writes :
      (n cmd dcbaa : ℕ)
      → IsMemory d n cmd 4096
      → IsMemory d n dcbaa ((max_slots d.info + 1) * 8)
      → Writes d n (set_up_event_ring d.info cmd dcbaa)
  unfolding set_up_event_ring
  set_up_event_ring-Writes n cmd dcbaa commands table =
      block-Gives n 4096 Always _ (omega arith) (λ n1 le. pure-Writes n1 _)
        (λ ring n1 le1 events. then-Gives n1 Always _ _ (zero_trbs-Writes n1 ring 256 events) (
          block-Gives n1 16 Always _ (omega arith) (λ n2 le. pure-Writes n2 _)
            (λ erst n2 le2 segment.
              then-Gives n2 Always _ _ (prepare_erst-Writes n2 erst ring segment) (
                launch-Writes n2 cmd dcbaa ring erst
                  (IsMemory-later n n2 _ _ (omega (arith, le1, le2)) commands)
                  (IsMemory-later n n2 _ _ (omega (arith, le1, le2)) table)))))

  set_up_rings-Writes : (n : ℕ) → Writes d n (set_up_rings d.info)
  unfolding set_up_rings
  set_up_rings-Writes n =
      block-Gives n 4096 Always _ (omega arith) (λ n1 le. pure-Writes n1 _)
        (λ cmd n1 le1 commands. then-Gives n1 Always _ _ (zero_trbs-Writes n1 cmd 256 commands) (
          then-Gives n1 Always _ _ (init_link_trb-Writes n1 cmd 256 cmd true commands) (
            block-Gives n1 ((max_slots d.info + 1) * 8) Always _ (table-bounds d.info)
              (λ n2 le. pure-Writes n2 _)
              (λ dcbaa n2 le2 table. then-Gives n2 Always _ _ (zeroed_memory n2 dcbaa _ table) (
                set_up_event_ring-Writes n2 cmd dcbaa (IsMemory-later n1 n2 _ _ le2 commands)
                  table)))))

  pub init_controller-Writes : (n : ℕ) → Writes d n (init_controller d.info)
  unfolding init_controller
  init_controller-Writes n = if-Gives n Always _ _ _ (pure-Writes n _) (
      bind-Gives n Always _ _ (halt-Writes n) (λ stopped. or_fail-Writes n stopped _ _ (
        bind-Gives n Always _ _ (start_reset-Writes n) (λ reset. or_fail-Writes n reset _ _ (
          bind-Gives n Always _ _ (wait_for-Writes n _ (halted-Writes n d.info))
            (λ still. or_fail-Writes n still _ _ (set_up_rings-Writes n)))))))
