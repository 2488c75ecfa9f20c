-- ===== src/Xhci/Rings.antt =====
-- The rings of xhci.rs: the command ring, the transfer ring of endpoint 0 and that of the interrupt
-- endpoint, as the driver fills them.
use mon_os.Base.{
  ℕ, zero, suc, ◌+◌, ◌-◌, ◌*◌, ◌%◌, Bool, not, ◌==◌, if◌then◌else◌, ◌<<<◌, bit_and, bit_or, u32,
}
use mon_os.Xhci.Machine.{
  Trb, Access, ControllerState, M, pure, ◌>>◌, touch, write32, write64, locked, put_state,
}
use mon_os.Xhci.Regs.{ring, with_controller}

abbrev pub no_trb : Trb
no_trb = record { parameter = 0; status = 0; control = 0 }

abbrev pub trb_at : ℕ → ℕ → ℕ
trb_at phys index = phys + 16 * index

-- `zero_trbs` on `n` entries, the first at `index`
unfoldable pub zero_from : ℕ → ℕ → ℕ → M (Unit {0})
zero_from phys zero index = pure tt
zero_from phys (suc n) index = do
  touch (Access.write_trb (trb_at phys index) no_trb)
  zero_from phys n (index + 1)

unfoldable pub zero_trbs : ℕ → ℕ → M (Unit {0})
zero_trbs phys n = zero_from phys n 0

unfoldable pub link_control : Bool → ℕ
link_control toggle =
    let control = bit_or (bit_and 6 0x3f <<< 10) 1 in
    if toggle then bit_or control (1 <<< 1) else control

-- The link TRB stands in the last entry; an empty ring has none.
unfoldable pub init_link_trb : ℕ → ℕ → ℕ → Bool → M (Unit {0})
init_link_trb phys zero base_phys toggle = pure tt
init_link_trb phys (suc n) base_phys toggle = do
  write64 (trb_at phys n) base_phys
  write32 (trb_at phys n + 12) (link_control toggle)

-- `if cycle { 1 } else { 0 }`
unfoldable pub cycle_bit : Bool → ℕ
cycle_bit c = if c then 1 else 0

-- The index and the cycle state after one more entry of `usable`
unfoldable pub next_index : ℕ → ℕ → ℕ
next_index usable i = (i + 1) % usable

unfoldable pub next_cycle : ℕ → ℕ → Bool → Bool
next_cycle usable i c = if next_index usable i == 0 then not c else c

-- The control word of a TRB: type, interrupt on completion, cycle bit
unfoldable pub control_word : ℕ → ℕ → ℕ
control_word trb_type cycle = bit_or (bit_or (bit_and trb_type 0x3f <<< 10) (1 <<< 5)) cycle

-- What the three functions that queue a command share; `make` is given the cycle bit.
unfoldable pub post_command : (ℕ → Trb) → M (Unit {0})
post_command make = locked tt (λ s.
    let usable = s.command_ring_len - 1 in
    if usable == 0 then pure tt else do
      touch (
          Access.write_trb (trb_at s.command_ring_phys (s.command_ring_enqueue % usable))
            (make (cycle_bit s.command_ring_cycle)))
      put_state (record s {
        command_ring_enqueue = next_index usable s.command_ring_enqueue;
        command_ring_cycle = next_cycle usable s.command_ring_enqueue s.command_ring_cycle;
      }))

unfoldable pub enqueue_noop_command : M (Unit {0})
enqueue_noop_command =
    post_command (λ c. record { parameter = 0; status = 0; control = control_word 23 c })

unfoldable pub enqueue_command_trb : ℕ → ℕ → ℕ → M (Unit {0})
enqueue_command_trb trb_type parameter status =
    post_command
      (λ c. record { parameter = parameter; status = status; control = control_word trb_type c })

unfoldable pub enqueue_command_trb_slot : ℕ → ℕ → ℕ → ℕ → M (Unit {0})
enqueue_command_trb_slot trb_type parameter status slot_id = post_command (λ c. record {
  parameter = parameter;
  status = status;
  control = bit_or (control_word trb_type c) (u32 (slot_id <<< 16));
})

unfoldable pub ring_doorbell : ℕ → ℕ → M (Unit {0})
ring_doorbell slot_id target =
    locked tt (λ s. with_controller s.info tt (ring s.info slot_id target))

unfoldable pub ep0_enqueue_trb : Trb → M (Unit {0})
ep0_enqueue_trb trb = locked tt (λ s.
    let usable = s.ep0_ring_len - 1 in
    if usable == 0 then pure tt else do
      touch (Access.write_trb (trb_at s.ep0_ring_phys (s.ep0_enqueue % usable)) trb)
      put_state (record s {
        ep0_enqueue = next_index usable s.ep0_enqueue;
        ep0_cycle = next_cycle usable s.ep0_enqueue s.ep0_cycle;
      }))

unfoldable pub ep0_cycle_bit : M ℕ
ep0_cycle_bit = locked 1 (λ s. pure (cycle_bit s.ep0_cycle))

unfoldable pub ring_ep0 : ℕ → M (Unit {0})
ring_ep0 slot_id = ring_doorbell slot_id 1

unfoldable pub intr_cycle_bit : M ℕ
intr_cycle_bit = locked 1 (λ s. pure (cycle_bit s.intr_cycle))

-- The interrupt ring after one more TRB, and the write of it. The index is below the ring's length.
unfoldable pub advance_intr : ControllerState → ControllerState
advance_intr s =
    let usable = s.intr_ring_len - 1 in
    record s {
      intr_enqueue = next_index usable s.intr_enqueue;
      intr_cycle = next_cycle usable s.intr_enqueue s.intr_cycle;
    }

unfoldable pub write_intr : ControllerState → Trb → M (Unit {0})
write_intr s trb =
    touch (Access.write_trb (trb_at s.intr_ring_phys (s.intr_enqueue % (s.intr_ring_len - 1))) trb)

unfoldable pub intr_enqueue_trb : Trb → M (Unit {0})
intr_enqueue_trb trb = locked tt (λ s.
    if (s.intr_ring_len - 1) == 0 then pure tt else do write_intr s trb; put_state (advance_intr s))
