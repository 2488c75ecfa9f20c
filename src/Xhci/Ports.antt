-- ===== src/Xhci/Ports.antt =====
-- The root ports in xhci.rs.
use mon_os.Base.{
  ℕ, zero, suc, ◌+◌, Bool, true, false, not, Option, none, some, ◌==◌, if◌then◌else◌, ◌<<<◌,
  bit_and, bit_or,
}
use mon_os.Xhci.Machine.{XhciInfo, M, pure, ◌>>=◌, ◌>>◌, locked, wait_for, some_or}
use mon_os.Xhci.Regs.{max_ports, portsc, write_portsc, with_controller}

-- `state_lock.lock().info`, the lock dropped at once
abbrev pub with_info : {A : Type 0} → A → (XhciInfo → M A) → M A
with_info {A} absent body = locked none (λ s. pure (some s.info)) >>= λ i. some_or i absent body

-- `n` ports from `index` on
unfoldable pub report_from : XhciInfo → ℕ → ℕ → M (Unit {0})
report_from i zero index = pure tt
report_from i (suc n) index = do portsc i index; report_from i n (index + 1)

unfoldable pub report_ports : M (Unit {0})
report_ports = with_info tt (λ i. with_controller i tt (report_from i (max_ports i) 0))

unfoldable pub connected_from : XhciInfo → ℕ → ℕ → M (Option ℕ)
connected_from i zero index = pure none
connected_from i (suc n) index = portsc i index >>= λ sc. elim (bit_and sc 0x1 == 0) [
  | true ↦ connected_from i n (index + 1)
  | false ↦ pure (some index)
]

unfoldable pub find_first_connected_port : M (Option ℕ)
find_first_connected_port =
    with_info none (λ i. with_controller i none (connected_from i (max_ports i) 0))

unfoldable pub reset_port : ℕ → M Bool
reset_port index = with_info false (λ i. with_controller i false (do
  sc ← portsc i index
  write_portsc i index (bit_or sc (1 <<< 4))
  wait_for (do now ← portsc i index; pure (bit_and now (1 <<< 4) == 0))
  done ← wait_for (do now ← portsc i index; pure (not (bit_and now 0x2 == 0)))
  portsc i index
  pure done))

-- Whether the port is enabled already
unfoldable pub port_enabled : ℕ → M Bool
port_enabled index =
    with_info false
      (λ i. with_controller i false (do sc ← portsc i index; pure (not (bit_and sc 0x2 == 0))))

unfoldable pub ensure_first_port_enabled : M Bool
ensure_first_port_enabled = find_first_connected_port >>= λ found.
    some_or found false
      (λ index. port_enabled index >>= λ enabled. if enabled then pure true else reset_port index)
