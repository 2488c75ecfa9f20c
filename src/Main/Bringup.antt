-- ===== src/Main/Bringup.antt =====
-- The bring-up of the USB controllers in main.rs: what it makes of the driver's state, and how far it gets.
use mon_os.Base.{
  ℕ, zero, suc, ◌+◌, ◌≡◌, refl, subst, Bool, true, false, Option, none, some, List, [], ◌∷◌, ◌==◌,
  All,
}
use mon_os.Pci.{PciAddress, Bar, prog_if, bar}
use mon_os.Xhci.Machine.{XhciInfo, Host, Run, M, pure, ◌>>=◌, load}
use mon_os.Xhci.Regs.{inspect}
use mon_os.Xhci.Descriptors.{Parsed, parse_hid_keyboard_endpoint}
use mon_os.Xhci.Init.{InitResult}
use mon_os.Xhci.Invariant.{
  Known, Ends, Keeps, IsSafe, run_rules, bind-Keeps, valid_then-Keeps, pure-Keeps, if-Keeps,
  bind-IsSafe, load-IsSafe, pure-IsSafe,
}
use mon_os.Xhci.Invariant.Events.{poll_events-IsSafe}
use mon_os.Xhci.Invariant.Devices.{
  report_ports-IsSafe, ensure_first_port_enabled-IsSafe, enable_slot-IsSafe, address_device-IsSafe,
  configure_interrupt_in_endpoint-IsSafe,
}
use mon_os.Xhci.Invariant.Transfers.{
  get_device_descriptor-IsSafe, get_configuration_descriptor_header-IsSafe,
  get_configuration_descriptor-IsSafe, set_configuration-IsSafe,
}
use mon_os.Xhci.Invariant.Operations.{init_controller-IsSafe}
use mon_os.Xhci.Locking.Refused.{start_hid_polling-Keeps}
use mon_os.Main.{
  Stage, read_bytes, parsed, start_keyboard, configure, or_stage, use_slot, after_init, bring_up,
  Seen, drive, look_at, look_at_all,
}

-- Every stage but the last
unfoldable pub is_polling : Stage → Bool
is_polling Stage.polling = true
is_polling stage = false

Unpolled : Stage → Type 0
Unpolled stage = is_polling stage ≡ false

-- A controller that is not driven, or whose bring-up ends before its keyboard is polled
unfoldable pub NotPolling : Seen → Type 0
NotPolling (Seen.driven info stage) = is_polling stage ≡ false
NotPolling seen = Unit {0}

read_bytes-IsSafe : (addr n : ℕ) → IsSafe (read_bytes addr n)
unfolding read_bytes
read_bytes-IsSafe addr zero = pure-IsSafe []
read_bytes-IsSafe addr (suc n) = bind-IsSafe (load 1 addr) _ (load-IsSafe 1 addr) (λ b.
    bind-IsSafe (read_bytes (addr + 1) n) _ (read_bytes-IsSafe (addr + 1) n) (λ bs. pure-IsSafe _))

parsed-IsSafe : (p : Parsed) → IsSafe (parsed p)
unfolding parsed Ends
parsed-IsSafe Parsed.out_of_fuel = record { at = λ h known. tt }
parsed-IsSafe Parsed.panic = record { at = λ h known. tt }
parsed-IsSafe (Parsed.returns r) = pure-IsSafe r

or_stage-Keeps :
    {A : Type 0} (stage : Stage) (m : M (Option A)) (k : A → M Stage)
    → Unpolled stage
    → IsSafe m
    → ((a : A) → Keeps Unpolled (k a))
    → Keeps Unpolled (or_stage stage m k)
or_stage-Keeps {A} stage m k short safe next = bind-Keeps Unpolled m _ safe (λ got. go got)
  where
    go : (got : Option A) → Keeps Unpolled (elim got [ none ↦ pure stage | some a ↦ k a ])
    go none = pure-Keeps Unpolled stage short
    go (some a) = next a

start_keyboard-Keeps :
    (slot : ℕ) (found : Option (ℕ × ℕ × ℕ)) → Keeps Unpolled (start_keyboard slot found)
unfolding start_keyboard Unpolled is_polling
start_keyboard-Keeps slot none = pure-Keeps Unpolled _ refl
start_keyboard-Keeps slot (some (addr, maxp, interval)) =
    bind-Keeps Unpolled _ _ (configure_interrupt_in_endpoint-IsSafe slot addr maxp interval)
      (λ configured.
        if-Keeps Unpolled configured _ _
          (valid_then-Keeps (λ b. b ≡ false) Unpolled _ _ (start_hid_polling-Keeps slot addr maxp)
            (λ started refused. rw refused (pure-Keeps Unpolled Stage.not_polling refl)))
          (pure-Keeps Unpolled Stage.no_endpoint refl))

configure-Keeps : (slot total value phys : ℕ) → Keeps Unpolled (configure slot total value phys)
unfolding configure Unpolled is_polling
configure-Keeps slot total value phys =
    bind-Keeps Unpolled _ _ (set_configuration-IsSafe slot value) (λ set.
      if-Keeps Unpolled set _ _
        (bind-Keeps Unpolled _ _ (read_bytes-IsSafe phys total) (λ bytes.
          bind-Keeps Unpolled _ _ (parsed-IsSafe (parse_hid_keyboard_endpoint bytes))
            (λ found. start_keyboard-Keeps slot found)))
        (pure-Keeps Unpolled Stage.not_configured refl))

use_slot-Keeps : (slot : ℕ) → Keeps Unpolled (use_slot slot)
unfolding use_slot Unpolled is_polling
use_slot-Keeps slot = bind-Keeps Unpolled _ _ (address_device-IsSafe slot) (λ addressed.
    if-Keeps Unpolled addressed _ _
      (or_stage-Keeps Stage.no_device_descriptor _ _ refl (get_device_descriptor-IsSafe slot)
        (λ dev.
          or_stage-Keeps Stage.no_config_header _ _ refl
            (get_configuration_descriptor_header-IsSafe slot)
            (λ header.
              or_stage-Keeps Stage.no_config _ _ refl
                (get_configuration_descriptor-IsSafe slot header.1)
                (λ phys. configure-Keeps slot header.1 header.2 phys))))
      (pure-Keeps Unpolled Stage.not_addressed refl))

after_init-Keeps : (r : InitResult) → Keeps Unpolled (after_init r)
unfolding after_init Unpolled is_polling
after_init-Keeps (InitResult.failed e) = pure-Keeps Unpolled _ refl
after_init-Keeps InitResult.ready = bind-Keeps Unpolled _ _ report_ports-IsSafe (λ _.
    bind-Keeps Unpolled _ _ poll_events-IsSafe (λ _.
      bind-Keeps Unpolled _ _ ensure_first_port_enabled-IsSafe (λ _.
        valid_then-Keeps Unpolled Unpolled _ _
          (or_stage-Keeps Stage.no_slot _ _ refl enable_slot-IsSafe use_slot-Keeps)
          (λ stage short.
            bind-Keeps Unpolled _ _ poll_events-IsSafe (λ _. pure-Keeps Unpolled stage short)))))

bring_up-Keeps : (info : XhciInfo) → Keeps Unpolled (bring_up info)
unfolding bring_up
bring_up-Keeps info = bind-Keeps Unpolled _ _ (init_controller-IsSafe info) after_init-Keeps

inspect-IsSafe : (base : ℕ) → IsSafe (inspect base)
unfolding inspect
inspect-IsSafe base = search run_rules depth 12

drive-Keeps : (b : Bar) → Keeps NotPolling (drive b)
unfolding drive Unpolled NotPolling
drive-Keeps b =
    if-Keeps NotPolling b.is_memory _ _
      (bind-Keeps NotPolling _ _ (inspect-IsSafe b.base) (λ found. driven found))
      (pure-Keeps NotPolling Seen.not_memory tt)
  where
    driven :
        (found : Option XhciInfo)
        → Keeps NotPolling (elim found [
          | none ↦ pure Seen.no_capabilities
          | some info ↦ bring_up info >>= λ stage. pure (Seen.driven info stage)
        ])
    driven none = pure-Keeps NotPolling Seen.no_capabilities tt
    driven (some info) =
        valid_then-Keeps Unpolled NotPolling _ _ (bring_up-Keeps info)
          (λ stage short. pure-Keeps NotPolling (Seen.driven info stage) short)

look_at-Keeps : (cfg : ℕ → ℕ) (addr : PciAddress) → Keeps NotPolling (look_at cfg addr)
unfolding look_at NotPolling
look_at-Keeps cfg addr =
    if-Keeps NotPolling (prog_if cfg addr == 0x30) _ _ (based (bar cfg addr 0))
      (pure-Keeps NotPolling Seen.other tt)
  where
    based :
        (o : Option Bar)
        → Keeps NotPolling (elim o [ none ↦ pure Seen.missing_bar | some b ↦ drive b ])
    based none = pure-Keeps NotPolling Seen.missing_bar tt
    based (some b) = drive-Keeps b

look_at_all-Keeps :
    (cfg : ℕ → ℕ) (addrs : List PciAddress) → Keeps (All NotPolling) (look_at_all cfg addrs)
unfolding look_at_all
look_at_all-Keeps cfg [] = pure-Keeps (All NotPolling) [] tt
look_at_all-Keeps cfg (addr ∷ rest) =
    valid_then-Keeps NotPolling (All NotPolling) _ _ (look_at-Keeps cfg addr) (λ seen first.
      valid_then-Keeps (All NotPolling) (All NotPolling) _ _ (look_at_all-Keeps cfg rest)
        (λ later others. pure-Keeps (All NotPolling) (seen ∷ later) (first, others)))

-- Whatever the PCI bus and the controllers answer, where the driver has no controller yet or one in a valid
-- state: if the scan of some of the USB controllers ends, the driver has none or one in a valid state, and no
-- bring-up has got as far as polling a keyboard.
pub look_at_all-Known :
    (cfg : ℕ → ℕ) (addrs : List PciAddress) (h h' : Host) (seen : List Seen)
    → Known h.state
    → look_at_all cfg addrs h ≡ Run.ok seen h'
    → Known h'.state × All NotPolling seen
unfolding Ends
look_at_all-Known cfg addrs h h' seen start ended =
    subst (Ends (λ (a : List Seen) (x : Host). Known x.state × All NotPolling a)) ended
      ((look_at_all-Keeps cfg addrs).at h start)
