-- ===== src/Xhci/Memory/Ports.antt =====
-- The waits for events, and the root ports in xhci.rs: what they write.
use mon_os.Base.{
  ℕ, zero, suc, ◌+◌, ◌≤◌, ◌<◌, ◌≡◌, arith, Bool, true, false, Option, none, some, ◌==◌, bit_and,
  if◌then◌else◌,
}
use mon_os.Xhci.Machine.{XhciInfo, ControllerState, M, pure, ◌>>=◌, put_state, locked, some_or}
use mon_os.Xhci.Regs.{max_ports, portsc}
use mon_os.Xhci.Events.{
  take_completion, wait_for_command_completion, take_transfer, take_transfer_code, wait_transfer,
}
use mon_os.Xhci.Ports.{
  with_info, report_from, report_ports, connected_from, find_first_connected_port, reset_port,
  port_enabled, ensure_first_port_enabled,
}
use mon_os.Xhci.Memory.{Domain, Fits}
use mon_os.Xhci.Memory.Rules.{
  Gives, Writes, Always, then-Gives, bind-Gives, given-Gives, pure-Gives, pure-Writes,
  some_or-Gives, if-Gives, forget-Gives,
}
use mon_os.Xhci.Memory.Accesses.{
  write_rules, locked-Gives, locked-Writes, put_state-Writes, attempts-Writes,
}
use mon_os.Xhci.Memory.Regs.{portsc-Writes, write_portsc-Writes}
use mon_os.Xhci.Memory.Events.{poll_events-Writes}

module _ {d : Domain} where
  -- The mailboxes of the state are not what is laid out in memory.
  taken_completion :
      (n : ℕ) (s : ControllerState)
      → Fits d n s
      → Writes d n
          (put_state (record s { last_completion_code = none; last_completed_slot = none }))
  taken_completion n s f = put_state-Writes n _ (record {
    valid = search;
    info = f.info;
    command = f.command;
    dcbaa = f.dcbaa;
    ep0 = f.ep0;
    intr = f.intr;
    slot = f.slot;
  })

  take_completion-Writes : (n : ℕ) → Writes d n take_completion
  unfolding take_completion
  take_completion-Writes n = locked-Writes n _ _ (λ s n' le f.
      some_or-Gives n' Always s.last_completion_code none _ (pure-Writes n' _)
        (λ code. then-Gives n' Always _ _ (taken_completion n' s f) (pure-Writes n' _)))

  pub wait_for_command_completion-Writes : (n k : ℕ) → Writes d n (wait_for_command_completion k)
  unfolding wait_for_command_completion
  wait_for_command_completion-Writes n k =
      attempts-Writes n k _
        (then-Gives n Always _ _ (poll_events-Writes n) (take_completion-Writes n))

  taken_transfer :
      (n : ℕ) (s : ControllerState) (len : Option ℕ)
      → Fits d n s
      → Writes d n (put_state (record s { last_transfer_code = none; last_transfer_len = len }))
  taken_transfer n s len f = put_state-Writes n _ (record {
    valid = search;
    info = f.info;
    command = f.command;
    dcbaa = f.dcbaa;
    ep0 = f.ep0;
    intr = f.intr;
    slot = f.slot;
  })

  pub take_transfer-Writes : (n : ℕ) → Writes d n take_transfer
  unfolding take_transfer
  take_transfer-Writes n = locked-Writes n _ _ (λ s n' le f.
      some_or-Gives n' Always s.last_transfer_code none _ (pure-Writes n' _)
        (λ code. then-Gives n' Always _ _ (taken_transfer n' s none f) (pure-Writes n' _)))

  pub take_transfer_code-Writes : (n : ℕ) → Writes d n take_transfer_code
  unfolding take_transfer_code
  take_transfer_code-Writes n = locked-Writes n _ _ (λ s n' le f.
      some_or-Gives n' Always s.last_transfer_code none _ (pure-Writes n' _) (λ code.
        then-Gives n' Always _ _ (taken_transfer n' s s.last_transfer_len f) (pure-Writes n' _)))

  pub wait_transfer-Writes :
      (n : ℕ) (take : M (Option ℕ)) → Writes d n take → Writes d n (wait_transfer take)
  unfolding wait_transfer
  wait_transfer-Writes n take safe =
      attempts-Writes n 1000000 _ (then-Gives n Always _ _ (poll_events-Writes n) safe)

-- The controller that the lock hands on
InfoFits : Domain → ℕ → Option XhciInfo → Type 0
InfoFits d n none = Unit {0}
InfoFits d n (some i) = i ≡ d.info

module _ {d : Domain} {A : Type 0} where
  pub with_info-Gives :
      (n : ℕ) (Q : ℕ → A → Type 0) (absent : A) (body : XhciInfo → M A)
      → ((n' : ℕ) → n ≤ n' → Q n' absent)
      → ((i : XhciInfo) (n' : ℕ) → n ≤ n' → i ≡ d.info → Gives d n' Q (body i))
      → Gives d n Q (with_info absent body)
  unfolding InfoFits
  with_info-Gives n Q absent body none_there inside =
      given-Gives n (InfoFits d) Q (locked none (λ s. pure (some s.info)))
        (λ i. some_or i absent body)
        (locked-Gives n (InfoFits d) none _ (λ n' le. tt)
          (λ s n' le f. pure-Gives n' (InfoFits d) (some s.info) (λ n2 le2. f.info)))
        (λ i n' le known. opened i n' le known)
    where
      opened :
          (i : Option XhciInfo) (n' : ℕ)
          → n ≤ n'
          → InfoFits d n' i
          → Gives d n' Q (some_or i absent body)
      opened none n' le known =
          pure-Gives n' Q absent (λ n2 le2. none_there n2 (omega (arith, le, le2)))
      opened (some i) n' le known = inside i n' le known

  pub with_info-Writes :
      (n : ℕ) (absent : A) (body : XhciInfo → M A)
      → ((i : XhciInfo) (n' : ℕ) → n ≤ n' → i ≡ d.info → Writes d n' (body i))
      → Writes d n (with_info absent body)
  unfolding Always
  with_info-Writes n absent body inside = with_info-Gives n Always absent body (λ n' le. tt) inside

-- A port that the controller has
unfoldable pub PortFits : Domain → ℕ → Option ℕ → Type 0
PortFits d n none = Unit {0}
PortFits d n (some index) = index < max_ports d.info

module _ {d : Domain} where
  report_from-Writes : (n : ℕ) (i : XhciInfo) (k index : ℕ) → Writes d n (report_from i k index)
  unfolding report_from
  report_from-Writes n i zero index = pure-Writes n _
  report_from-Writes n i (suc k) index =
      then-Gives n Always _ _ (portsc-Writes n i index) (report_from-Writes n i k (index + 1))

  pub report_ports-Writes : (n : ℕ) → Writes d n report_ports
  unfolding report_ports
  report_ports-Writes n =
      with_info-Writes n _ _
        (λ i n' le e. if-Gives n' Always _ _ _ (pure-Writes n' _) (report_from-Writes n' i _ 0))

  connected_from-Gives :
      (n : ℕ) (i : XhciInfo) (k index : ℕ)
      → index + k ≤ max_ports d.info
      → Gives d n (PortFits d) (connected_from i k index)
  unfolding connected_from PortFits
  connected_from-Gives n i zero index h = pure-Gives n (PortFits d) none (λ n' le. tt)
  connected_from-Gives n i (suc k) index h =
      bind-Gives n (PortFits d) (portsc i index) _ (portsc-Writes n i index) (λ sc.
        next (bit_and sc 0x1 == 0) (connected_from-Gives n i k (index + 1) (omega (arith, h))))
    where
      next :
          (b : Bool)
          → Gives d n (PortFits d) (connected_from i k (index + 1))
          → Gives d n
              (PortFits d)
              (elim b [ true ↦ connected_from i k (index + 1) | false ↦ pure (some index) ])
      next true rest = rest
      next false rest = pure-Gives n (PortFits d) (some index) (λ n' le. omega (arith, h))

  pub find_first_connected_port-Gives : (n : ℕ) → Gives d n (PortFits d) find_first_connected_port
  unfolding find_first_connected_port PortFits
  find_first_connected_port-Gives n =
      with_info-Gives n (PortFits d) none _ (λ n' le. tt)
        (λ i n' le e.
          if-Gives n' (PortFits d) _ _ _ (pure-Gives n' (PortFits d) none (λ n2 le2. tt))
            (connected_from-Gives n' i (max_ports i) 0 (rw e (omega arith))))

  pub find_first_connected_port-Writes : (n : ℕ) → Writes d n find_first_connected_port
  find_first_connected_port-Writes n =
      forget-Gives n (PortFits d) _ (find_first_connected_port-Gives n)

  reset_port-Writes : (n index : ℕ) → index < max_ports d.info → Writes d n (reset_port index)
  unfolding reset_port
  reset_port-Writes n index below = with_info-Writes n _ _ (λ i n' le e.
      if-Gives n' Always _ _ _ (pure-Writes n' _) (
        bind-Gives n' Always _ _ (portsc-Writes n' i index) (λ sc.
          then-Gives n' Always _ _ (write_portsc-Writes n' i index _ e (rw e below))
            (search (write_rules, portsc-Writes) depth 12))))

  port_enabled-Writes : (n index : ℕ) → Writes d n (port_enabled index)
  unfolding port_enabled
  port_enabled-Writes n index = with_info-Writes n _ _ (λ i n' le e.
      if-Gives n' Always _ _ _ (pure-Writes n' _)
        (bind-Gives n' Always _ _ (portsc-Writes n' i index) (λ sc. pure-Writes n' _)))

  pub ensure_first_port_enabled-Writes : (n : ℕ) → Writes d n ensure_first_port_enabled
  unfolding ensure_first_port_enabled PortFits
  ensure_first_port_enabled-Writes n =
      given-Gives n (PortFits d) Always _ _ (find_first_connected_port-Gives n)
        (λ found n' le inside. enabled n' found inside)
    where
      enabled :
          (n : ℕ) (found : Option ℕ)
          → PortFits d n found
          → Writes d n (
              some_or found false (λ index.
                port_enabled index >>= λ enabled. if enabled then pure true else reset_port index))
      enabled n none inside = pure-Writes n _
      enabled n (some index) inside =
          bind-Gives n Always _ _ (port_enabled-Writes n index)
            (λ on. if-Gives n Always on _ _ (pure-Writes n _) (reset_port-Writes n index inside))
