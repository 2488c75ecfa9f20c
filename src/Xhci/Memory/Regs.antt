-- ===== src/Xhci/Memory/Regs.antt =====
-- The register writes of xhci.rs.
use mon_os.Base.{ℕ, ◌+◌, ◌*◌, ◌≤◌, ◌<◌, ◌≡◌, sym, subst, arith}
use mon_os.Xhci.Machine.{XhciInfo, write32}
use mon_os.Xhci.Regs.{
  operational, interrupter_0, max_ports, port_at, usbcmd, set_usbcmd, usbsts, clear_usbsts,
  set_wide, wide, crcr, set_crcr, set_dcbaap, set_config, iman, set_iman, set_imod, set_erstsz,
  set_erstba, set_erdp, ring, portsc, write_portsc,
}
use mon_os.Xhci.Memory.{Domain, IsRegister}
use mon_os.Xhci.Memory.Rules.{Writes, bind-Gives, Always}
use mon_os.Xhci.Memory.Accesses.{write_rules, write_register, load-Writes}

module _ {d : Domain} where
  operational-IsRegister :
      (offset : ℕ) → offset ≤ 0x3fc → IsRegister d (operational d.info + offset) 4
  operational-IsRegister offset h = IsRegister.operational_or_port (omega arith) (omega arith)

  runtime-IsRegister : (offset : ℕ) → offset ≤ 0x1c → IsRegister d (interrupter_0 d.info + offset) 4
  runtime-IsRegister offset h = IsRegister.runtime (omega arith) (omega arith)

  pub usbcmd-Writes : (n : ℕ) → Writes d n (usbcmd d.info)
  unfolding usbcmd
  usbcmd-Writes n = search write_rules

  pub set_usbcmd-Writes : (n v : ℕ) → Writes d n (set_usbcmd d.info v)
  unfolding set_usbcmd
  set_usbcmd-Writes n v = search (write_rules, operational-IsRegister, arith)

  pub usbsts-Writes : (n : ℕ) (i : XhciInfo) → Writes d n (usbsts i)
  unfolding usbsts
  usbsts-Writes n i = search write_rules

  pub wide-Writes : (n addr mask : ℕ) → Writes d n (wide addr mask)
  unfolding wide
  wide-Writes n addr mask = search write_rules depth 9

  pub crcr-Writes : (n : ℕ) (i : XhciInfo) → Writes d n (crcr i)
  unfolding crcr
  crcr-Writes n i = wide-Writes n _ _

  pub iman-Writes : (n : ℕ) (i : XhciInfo) → Writes d n (iman i)
  unfolding iman
  iman-Writes n i = search write_rules

  pub portsc-Writes : (n : ℕ) (i : XhciInfo) (index : ℕ) → Writes d n (portsc i index)
  unfolding portsc
  portsc-Writes n i index = search write_rules

  pub clear_usbsts-Writes : (n v : ℕ) → Writes d n (clear_usbsts d.info v)
  unfolding clear_usbsts
  clear_usbsts-Writes n v = search (write_rules, operational-IsRegister, arith)

  pub set_config-Writes : (n v : ℕ) → Writes d n (set_config d.info v)
  unfolding set_config
  set_config-Writes n v = search (write_rules, operational-IsRegister, arith)

  set_wide-Writes :
      (n addr v : ℕ)
      → IsRegister d addr 4
      → IsRegister d (addr + 4) 4
      → Writes d n (set_wide addr v)
  unfolding set_wide
  set_wide-Writes n addr v low high = search write_rules

  wide_operational :
      (n offset v : ℕ) → offset ≤ 0x3f8 → Writes d n (set_wide (operational d.info + offset) v)
  wide_operational n offset v h =
      set_wide-Writes n _ v (operational-IsRegister offset (omega arith))
        (IsRegister.operational_or_port (omega arith) (omega arith))

  wide_runtime :
      (n offset v : ℕ) → offset ≤ 0x18 → Writes d n (set_wide (interrupter_0 d.info + offset) v)
  wide_runtime n offset v h =
      set_wide-Writes n _ v (runtime-IsRegister offset (omega arith))
        (IsRegister.runtime (omega arith) (omega arith))

  pub set_crcr-Writes : (n v : ℕ) → Writes d n (set_crcr d.info v)
  unfolding set_crcr
  set_crcr-Writes n v = wide_operational n 0x18 v (omega arith)

  pub set_dcbaap-Writes : (n v : ℕ) → Writes d n (set_dcbaap d.info v)
  unfolding set_dcbaap
  set_dcbaap-Writes n v = wide_operational n 0x30 v (omega arith)

  pub set_erstba-Writes : (n v : ℕ) → Writes d n (set_erstba d.info v)
  unfolding set_erstba
  set_erstba-Writes n v = wide_runtime n 0x10 v (omega arith)

  pub set_erdp-Writes : (n : ℕ) (i : XhciInfo) (v : ℕ) → i ≡ d.info → Writes d n (set_erdp i v)
  unfolding set_erdp
  set_erdp-Writes n i v e =
      subst (λ j. Writes d n (set_wide (interrupter_0 j + 0x18) v)) (sym e)
        (wide_runtime n 0x18 v (omega arith))

  pub set_iman-Writes : (n v : ℕ) → Writes d n (set_iman d.info v)
  unfolding set_iman
  set_iman-Writes n v = search (write_rules, runtime-IsRegister, arith)

  pub set_imod-Writes : (n v : ℕ) → Writes d n (set_imod d.info v)
  unfolding set_imod
  set_imod-Writes n v = search (write_rules, runtime-IsRegister, arith)

  pub set_erstsz-Writes : (n v : ℕ) → Writes d n (set_erstsz d.info v)
  unfolding set_erstsz
  set_erstsz-Writes n v =
      bind-Gives n Always _ _ (load-Writes n 4 _)
        (λ current. write_register n _ 4 _ (runtime-IsRegister 8 (omega arith)))

  -- A doorbell: the slot is a byte.
  pub ring-Writes :
      (n : ℕ) (i : XhciInfo) (slot target : ℕ)
      → i ≡ d.info
      → slot < 256
      → Writes d n (ring i slot target)
  unfolding ring
  ring-Writes n i slot target e small =
      subst (λ (j : XhciInfo). Writes d n (write32 (j.base + j.dboff + slot * 4) target)) (sym e)
        (write_register n _ 4 _ (IsRegister.doorbell (omega arith) (omega arith)))

  pub write_portsc-Writes :
      (n : ℕ) (i : XhciInfo) (index v : ℕ)
      → i ≡ d.info
      → index < max_ports i
      → Writes d n (write_portsc i index v)
  unfolding write_portsc
  write_portsc-Writes n i index v e below =
      subst (λ (j : XhciInfo). index < max_ports j → Writes d n (write32 (port_at j index) v))
        (sym e)
        (λ inside.
          write_register n _ 4 _ (IsRegister.operational_or_port (omega arith) (omega arith)))
        below
