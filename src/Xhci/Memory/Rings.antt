-- ===== src/Xhci/Memory/Rings.antt =====
-- The writes to the rings of xhci.rs, and the doorbells.
use mon_os.Base.{
  ℕ, zero, suc, ◌+◌, ◌-◌, ◌*◌, ◌%◌, ◌≤◌, ◌<◌, ◌≡◌, ◌==◌, arith, Bool, false, inl, inr,
}
use native.Mathlib.Omega.{mod_fact}
use mon_os.Xhci.Machine.{Trb, ControllerState}
use mon_os.Xhci.Rings.{
  trb_at, zero_from, zero_trbs, init_link_trb, post_command, next_index, enqueue_noop_command,
  enqueue_command_trb, enqueue_command_trb_slot, ring_doorbell, ep0_enqueue_trb, ep0_cycle_bit,
  intr_cycle_bit, ring_ep0, advance_intr, write_intr, intr_enqueue_trb,
}
use mon_os.Xhci.Invariant.Rings.{posted-IsValid, ep0_posted-IsValid, advance_intr-IsValid}
use mon_os.Xhci.Invariant.{RingFits}
use mon_os.Xhci.Memory.{Domain, IsMemory, Fits, RingInMemory}
use mon_os.Xhci.Memory.Rules.{Writes, Always, then-Gives, test-Gives, pure-Writes, if-Gives}
use mon_os.Xhci.Memory.Accesses.{
  write_rules, put_state-Writes, write_trb_memory, write_memory, locked-Writes,
}
use mon_os.Xhci.Memory.Regs.{ring-Writes}

module _ {d : Domain} where
  pub ring_doorbell-Writes :
      (n slot target : ℕ) → slot < 256 → Writes d n (ring_doorbell slot target)
  unfolding ring_doorbell
  ring_doorbell-Writes n slot target small = locked-Writes n _ _ (λ s n' le f.
      if-Gives n' Always _ _ _ (pure-Writes n' _) (ring-Writes n' s.info slot target f.info small))

  pub zero_from-Writes :
      (n phys k index : ℕ)
      → IsMemory d n phys ((index + k) * 16)
      → Writes d n (zero_from phys k index)
  unfolding zero_from
  zero_from-Writes n phys zero index m = pure-Writes n _
  zero_from-Writes n phys (suc k) index m =
      then-Gives n Always _ _
        (write_trb_memory n _ _ (record { from = omega (arith, m.from); to = omega (arith, m.to) }))
        (zero_from-Writes n phys k (index + 1) (record { from = m.from; to = omega (arith, m.to) }))

  pub zero_trbs-Writes : (n phys k : ℕ) → IsMemory d n phys (k * 16) → Writes d n (zero_trbs phys k)
  unfolding zero_trbs
  zero_trbs-Writes n phys k m =
      zero_from-Writes n phys k 0 (record { from = m.from; to = omega (arith, m.to) })

  pub part :
      (n phys size a w : ℕ)
      → IsMemory d n phys size
      → phys ≤ a
      → a + w ≤ phys + size
      → IsMemory d n a w
  part n phys size a w m low high = record {
    from = omega (arith, m.from, low);
    to = omega (arith, m.to, high);
  }

  pub init_link_trb-Writes :
      (n phys k base : ℕ) (toggle : Bool)
      → IsMemory d n phys (k * 16)
      → Writes d n (init_link_trb phys k base toggle)
  unfolding init_link_trb
  init_link_trb-Writes n phys zero base toggle m = pure-Writes n _
  init_link_trb-Writes n phys (suc k) base toggle m =
      then-Gives n Always _ _
        (write_memory n _ 8 _ (part n phys _ _ 8 m (omega arith) (omega arith)))
        (write_memory n _ 4 _ (part n phys _ _ 4 m (omega arith) (omega arith)))

  -- An entry of a ring below its link TRB
  entry :
      (n phys len i : ℕ)
      → IsMemory d n phys (len * 16)
      → (len - 1 == 0) ≡ false
      → IsMemory d n (trb_at phys (i % (len - 1))) 16
  entry n phys len i m some_left =
      part n phys _ _ 16 m (omega arith) (ground (arith, some_left, mod_below i (len - 1)))
    where
      mod_below : (i k : ℕ) → 0 < k → i % k < k
      mod_below i zero h = absurd (omega (arith, h))
      mod_below i (suc k) h = mod_fact i k

  posted-Fits :
      (n : ℕ) (s : ControllerState) (c : Bool)
      → Fits d n s
      → Fits d n (record s {
        command_ring_enqueue = next_index (s.command_ring_len - 1) s.command_ring_enqueue;
        command_ring_cycle = c;
      })
  posted-Fits n s c f = record {
    valid = posted-IsValid s c f.valid;
    info = f.info;
    command = f.command;
    dcbaa = f.dcbaa;
    ep0 = f.ep0;
    intr = f.intr;
    slot = f.slot;
  }

  post_command-Writes : (n : ℕ) (make : ℕ → Trb) → Writes d n (post_command make)
  unfolding post_command
  post_command-Writes n make = locked-Writes n _ _ (λ s n' le f.
      test-Gives n' Always (s.command_ring_len - 1 == 0) _ _ (pure-Writes n' _) (λ some_left.
        then-Gives n' Always _ _
          (write_trb_memory n' _ _ (
            entry n' s.command_ring_phys s.command_ring_len s.command_ring_enqueue
              (part n' s.command_ring_phys 4096 _ _ f.command (omega arith)
                (omega (arith, f.valid.command_len)))
              some_left))
          (put_state-Writes n' _ (posted-Fits n' s _ f))))

  pub enqueue_noop_command-Writes : (n : ℕ) → Writes d n enqueue_noop_command
  unfolding enqueue_noop_command
  enqueue_noop_command-Writes n = post_command-Writes n _

  pub enqueue_command_trb-Writes : (n t p s : ℕ) → Writes d n (enqueue_command_trb t p s)
  unfolding enqueue_command_trb
  enqueue_command_trb-Writes n t p s = post_command-Writes n _

  pub enqueue_command_trb_slot-Writes :
      (n t p s slot : ℕ) → Writes d n (enqueue_command_trb_slot t p s slot)
  unfolding enqueue_command_trb_slot
  enqueue_command_trb_slot-Writes n t p s slot = post_command-Writes n _

  -- A ring of the state that has entries
  present :
      (n size len i phys : ℕ)
      → RingFits size len i
      → RingInMemory d n len phys (size * 16)
      → (len - 1 == 0) ≡ false
      → IsMemory d n phys (len * 16)
  unfolding RingFits RingInMemory
  present n size len i phys (inl none_yet) ring some_left =
      absurd (ground (arith, none_yet, some_left))
  present n size len i phys (inr fits) (inl none_yet) some_left =
      absurd (ground (arith, none_yet, some_left))
  present n size len i phys (inr fits) (inr m) some_left = rw fits.0 m

  ep0_posted-Fits :
      (n : ℕ) (s : ControllerState) (c : Bool)
      → Fits d n s
      → Fits d n
          (record s { ep0_enqueue = next_index (s.ep0_ring_len - 1) s.ep0_enqueue; ep0_cycle = c })
  ep0_posted-Fits n s c f = record {
    valid = ep0_posted-IsValid s c f.valid;
    info = f.info;
    command = f.command;
    dcbaa = f.dcbaa;
    ep0 = f.ep0;
    intr = f.intr;
    slot = f.slot;
  }

  pub advance_intr-Fits : (n : ℕ) (s : ControllerState) → Fits d n s → Fits d n (advance_intr s)
  unfolding advance_intr
  advance_intr-Fits n s f = record {
    valid = unfold advance_intr in advance_intr-IsValid s f.valid;
    info = f.info;
    command = f.command;
    dcbaa = f.dcbaa;
    ep0 = f.ep0;
    intr = f.intr;
    slot = f.slot;
  }

  pub ep0_enqueue_trb-Writes : (n : ℕ) (trb : Trb) → Writes d n (ep0_enqueue_trb trb)
  unfolding ep0_enqueue_trb
  ep0_enqueue_trb-Writes n trb = locked-Writes n _ _ (λ s n' le f.
      test-Gives n' Always (s.ep0_ring_len - 1 == 0) _ _ (pure-Writes n' _) (λ some_left.
        then-Gives n' Always _ _
          (write_trb_memory n' _ _ (
            entry n' s.ep0_ring_phys s.ep0_ring_len s.ep0_enqueue
              (present n' 64 s.ep0_ring_len s.ep0_enqueue s.ep0_ring_phys f.valid.ep0 f.ep0
                some_left)
              some_left))
          (put_state-Writes n' _ (ep0_posted-Fits n' s _ f))))

  pub write_intr-Writes :
      (n : ℕ) (s : ControllerState) (trb : Trb)
      → Fits d n s
      → (s.intr_ring_len - 1 == 0) ≡ false
      → Writes d n (write_intr s trb)
  unfolding write_intr
  write_intr-Writes n s trb f some_left = write_trb_memory n _ _ (
      entry n s.intr_ring_phys s.intr_ring_len s.intr_enqueue
        (present n 128 s.intr_ring_len s.intr_enqueue s.intr_ring_phys f.valid.intr f.intr
          some_left)
        some_left)

  pub intr_enqueue_trb-Writes : (n : ℕ) (trb : Trb) → Writes d n (intr_enqueue_trb trb)
  unfolding intr_enqueue_trb
  intr_enqueue_trb-Writes n trb = locked-Writes n _ _ (λ s n' le f.
      test-Gives n' Always (s.intr_ring_len - 1 == 0) _ _ (pure-Writes n' _) (λ some_left.
        then-Gives n' Always _ _ (write_intr-Writes n' s trb f some_left)
          (put_state-Writes n' _ (advance_intr-Fits n' s f))))

  pub ep0_cycle_bit-Writes : (n : ℕ) → Writes d n ep0_cycle_bit
  unfolding ep0_cycle_bit
  ep0_cycle_bit-Writes n = search write_rules

  pub intr_cycle_bit-Writes : (n : ℕ) → Writes d n intr_cycle_bit
  unfolding intr_cycle_bit
  intr_cycle_bit-Writes n = search write_rules

  pub ring_ep0-Writes : (n slot : ℕ) → slot < 256 → Writes d n (ring_ep0 slot)
  unfolding ring_ep0
  ring_ep0-Writes n slot small = ring_doorbell-Writes n slot 1 small
