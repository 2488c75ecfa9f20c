-- ===== src/Xhci/Memory/Commands.antt =====
-- The commands of xhci.rs that bring a device up: what they write.
use mon_os.Base.{
  ℕ, ◌+◌, ◌*◌, ◌^◌, ◌≤◌, ◌<◌, ◌≡◌, refl, sym, subst, arith, Bool, true, false, Option, none, some,
  inr, ltb, if◌then◌else◌,
}
use mon_os.Pmm.{page_size}
use mon_os.Xhci.Machine.{
  XhciInfo, ControllerState, pure, zero_phys, write64, some_or, locked, a_million, ◌>>◌,
}
use mon_os.Xhci.Regs.{max_slots, context_size}
use mon_os.Xhci.Events.{panics}
use mon_os.Xhci.Commands.{
  enable_slot, fill_address_context, install, new_ring, adopt, addressed, issue, address_with,
  address_device, configured, configure_interrupt_in_endpoint, endpoint_id_from_addr,
}
use mon_os.Xhci.Invariant.Devices.{addressed-IsValid, configured-IsValid}
use mon_os.Xhci.Memory.{
  Domain, IsMemory, IsMemory-later, RingInMemory, SlotFits, StateFits, Fits, Fits-later,
}
use mon_os.Xhci.Memory.Rules.{
  Writes, Always, then-Gives, bind-Gives, given-Gives, pure-Gives, pure-Writes, if-Gives,
}
use mon_os.Xhci.Memory.Accesses.{
  write_memory, zeroed_memory, locked-Gives, locked-Writes, put_state-Writes,
}
use mon_os.Xhci.Memory.Grants.{block-Gives}
use mon_os.Xhci.Memory.Rings.{
  zero_trbs-Writes, init_link_trb-Writes, enqueue_command_trb-Writes,
  enqueue_command_trb_slot-Writes, ring_doorbell-Writes, part,
}
use mon_os.Xhci.Memory.Events.{panics-Gives}
use mon_os.Xhci.Memory.Ports.{with_info-Writes, wait_for_command_completion-Writes}
use mon_os.Xhci.Memory.Contexts.{
  context_size-bounds, endpoint_block-bounds, fill_address_context-Writes,
  fill_endpoint_context-Writes,
}

module _ {d : Domain} where
  pub enable_slot-Writes : (n : ℕ) → Writes d n enable_slot
  unfolding enable_slot
  enable_slot-Writes n = then-Gives n Always _ _ (enqueue_command_trb-Writes n 9 0 0) (
      then-Gives n Always _ _ (ring_doorbell-Writes n 0 0 (omega arith)) (
        bind-Gives n Always _ _ (wait_for_command_completion-Writes n a_million)
          (λ done. pure-Writes n _)))

  install-Writes :
      (n : ℕ) (i : XhciInfo) (dcbaa slot dc : ℕ)
      → i ≡ d.info
      → IsMemory d n dcbaa ((max_slots d.info + 1) * 8)
      → Writes d n (install i dcbaa slot dc)
  unfolding install
  install-Writes n i dcbaa slot dc e m = rw e (decided (ltb slot (max_slots d.info + 1)) refl)
    where
      decided :
          (b : Bool)
          → ltb slot (max_slots d.info + 1) ≡ b
          → Writes d n (if b then write64 (dcbaa + 8 * slot) dc else panics)
      decided true inside =
          write_memory n _ 8 _ (part n dcbaa _ _ 8 m (omega arith) (ground (arith, inside)))
      decided false outside = panics-Gives n Always

  pub new_ring-Writes : (n phys k : ℕ) → IsMemory d n phys (k * 16) → Writes d n (new_ring phys k)
  unfolding new_ring
  new_ring-Writes n phys k m =
      then-Gives n Always _ _ (zero_trbs-Writes n phys k m)
        (init_link_trb-Writes n phys k phys true m)

  adopt-Writes :
      (n : ℕ) (change : ControllerState → ControllerState) (slot : ℕ) (done : Option (ℕ × ℕ))
      → ((s : ControllerState) (n' : ℕ) → n ≤ n' → Fits d n' s → Fits d n' (change s))
      → Writes d n (adopt change slot done)
  unfolding adopt
  adopt-Writes n change slot none good = pure-Writes n _
  adopt-Writes n change slot (some (code, done)) good =
      if-Gives n Always _ _ _
        (then-Gives n Always _ _
          (locked-Writes n _ _ (λ s n' le f. put_state-Writes n' _ (good s n' le f)))
          (pure-Writes n _))
        (pure-Writes n _)

  issue-Writes :
      (n t ic : ℕ) (change : ControllerState → ControllerState) (slot : ℕ)
      → ((s : ControllerState) (n' : ℕ) → n ≤ n' → Fits d n' s → Fits d n' (change s))
      → Writes d n (issue t ic change slot)
  unfolding issue
  issue-Writes n t ic change slot good =
      then-Gives n Always _ _ (enqueue_command_trb_slot-Writes n t ic 0 slot) (
        then-Gives n Always _ _ (ring_doorbell-Writes n 0 0 (omega arith)) (
          bind-Gives n Always _ _ (wait_for_command_completion-Writes n a_million)
            (λ done. adopt-Writes n change slot done good)))

  addressed-Fits :
      (n : ℕ) (slot phys : ℕ) (s : ControllerState)
      → slot < 256
      → IsMemory d n phys 1024
      → Fits d n s
      → Fits d n (addressed slot phys s)
  unfolding addressed RingInMemory SlotFits
  addressed-Fits n slot phys s small m f = record {
    valid = unfold addressed in addressed-IsValid slot phys s f.valid;
    info = f.info;
    command = f.command;
    dcbaa = f.dcbaa;
    ep0 = inr m;
    intr = f.intr;
    slot = small;
  }

  configured-Fits :
      (n : ℕ) (addr ep phys : ℕ) (s : ControllerState)
      → IsMemory d n phys 2048
      → Fits d n s
      → Fits d n (configured addr ep phys s)
  unfolding configured RingInMemory
  configured-Fits n addr ep phys s m f = record {
    valid = unfold configured in configured-IsValid addr ep phys s f.valid;
    info = f.info;
    command = f.command;
    dcbaa = f.dcbaa;
    ep0 = f.ep0;
    intr = inr m;
    slot = f.slot;
  }

  address_with-Writes :
      (n dcbaa slot : ℕ)
      → slot < 256
      → IsMemory d n dcbaa ((max_slots d.info + 1) * 8)
      → Writes d n (address_with d.info dcbaa slot)
  unfolding address_with
  address_with-Writes n dcbaa slot small m =
      block-Gives n (size * 32) Always _ (omega (arith, bounds.1)) (λ n1 le. pure-Writes n1 _)
        (λ dc n1 le1 device. then-Gives n1 Always _ _ (zeroed_memory n1 dc (size * 32) device) (
          then-Gives n1 Always _ _
            (install-Writes n1 d.info dcbaa slot dc refl (IsMemory-later n n1 _ _ le1 m))
            (block-Gives n1 1024 Always _ (omega arith) (λ n2 le. pure-Writes n2 _)
              (λ ring n2 le2 m2. then-Gives n2 Always _ _ (new_ring-Writes n2 ring 64 m2) (
                block-Gives n2 (size * 3) Always _ (omega (arith, bounds.1))
                  (λ n3 le. pure-Writes n3 _)
                  (λ ic n3 le3 context.
                    addressing ic ring n3 context (IsMemory-later n2 n3 _ _ le3 m2)))))))
    where
      size : ℕ
      size = context_size d.info

      bounds : (32 ≤ context_size d.info) × (context_size d.info ≤ 64)
      bounds = context_size-bounds d.info

      addressing :
          (ic ring n3 : ℕ)
          → IsMemory d n3 ic (size * 3)
          → IsMemory d n3 ring 1024
          → Writes d n3 (
              zero_phys ic (size * 3)
              >> (fill_address_context size ic ring >> issue 11 ic (addressed slot ring) slot))
      addressing ic ring n3 context m3 =
          then-Gives n3 Always _ _ (zeroed_memory n3 ic (size * 3) context) (
            then-Gives n3 Always _ _ (fill_address_context-Writes n3 size ic ring bounds.0 context)
              (issue-Writes n3 11 ic (addressed slot ring) slot (λ s n' le f.
                addressed-Fits n' slot ring s small (IsMemory-later n3 n' _ _ le m3) f)))

  pub address_device-Writes : (n slot : ℕ) → slot < 256 → Writes d n (address_device slot)
  unfolding address_device StateFits
  address_device-Writes n slot small =
      given-Gives n (StateFits d) Always (locked none (λ s. pure (some s))) _
        (locked-Gives n (StateFits d) none _ (λ n' le. tt)
          (λ s n' le f.
            pure-Gives n' (StateFits d) (some s) (λ n2 le2. Fits-later d n' n2 s le2 f)))
        (λ known n' le f. addressed_one known n' f)
    where
      addressed_one :
          (known : Option ControllerState) (n' : ℕ)
          → StateFits d n' known
          → Writes d n' (some_or known false (λ s. address_with s.info s.dcbaa_phys slot))
      addressed_one none n' f = pure-Writes n' _
      addressed_one (some s) n' f =
          subst (λ i. Writes d n' (address_with i s.dcbaa_phys slot)) (sym f.info)
            (address_with-Writes n' s.dcbaa_phys slot small f.dcbaa)

  pub configure_interrupt_in_endpoint-Writes :
      (n slot addr maxp interval : ℕ)
      → Writes d n (configure_interrupt_in_endpoint slot addr maxp interval)
  unfolding configure_interrupt_in_endpoint
  configure_interrupt_in_endpoint-Writes n slot addr maxp interval =
      with_info-Writes n _ _ (λ i n0 le0 e.
        block-Gives n0 2048 Always _ (omega arith) (λ n1 le. pure-Writes n1 _)
          (λ ring n1 le1 m1. then-Gives n1 Always _ _ (new_ring-Writes n1 ring 128 m1) (
            block-Gives n1 (context_size i * (2 + ep)) Always _ (fits i) (λ n2 le. pure-Writes n2 _)
              (λ ic n2 le2 context. then-Gives n2 Always _ _ (zeroed_memory n2 ic _ context) (
                then-Gives n2 Always _ _
                  (fill_endpoint_context-Writes n2 (context_size i) ic ep maxp ring
                    (context_size-bounds i).0 context)
                  (issue-Writes n2 12 ic (configured addr ep ring) slot (λ s n' le f.
                    configured-Fits n' addr ep ring s
                      (IsMemory-later n2 n' _ _ le (IsMemory-later n1 n2 _ _ le2 m1)) f)))))))
    where
      ep : ℕ
      ep = endpoint_id_from_addr addr

      fits : (i : XhciInfo) → context_size i * (2 + ep) + page_size ≤ 2 ^ 64
      fits i = endpoint_block-bounds i addr
