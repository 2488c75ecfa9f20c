-- ===== src/Xhci/Commands.antt =====
-- The commands of xhci.rs that bring a device up: enable a slot, address the device, configure its
-- interrupt endpoint.
use mon_os.Base.{
  ℕ, ◌+◌, ◌-◌, ◌*◌, ◌^◌, Bool, true, false, not, ◌&&◌, Option, none, some, ◌==◌, if◌then◌else◌, ltb,
  u8, u32, ◌<<<◌, ◌>>>◌, bit_and, bit_or,
}
use mon_os.Xhci.Machine.{
  XhciInfo, ControllerState, M, pure, ◌>>=◌, ◌>>◌, write32, write64, zero_phys, alloc, locked,
  put_state, some_or, a_million,
}
use mon_os.Xhci.Regs.{max_slots, context_size, portsc, with_controller}
use mon_os.Xhci.Rings.{
  zero_trbs, init_link_trb, enqueue_command_trb, enqueue_command_trb_slot, ring_doorbell,
}
use mon_os.Xhci.Events.{wait_for_command_completion, panics}
use mon_os.Xhci.Ports.{with_info, find_first_connected_port}

unfoldable pub enable_slot : M (Option ℕ)
enable_slot = do
  enqueue_command_trb 9 0 0
  ring_doorbell 0 0
  done ← wait_for_command_completion a_million
  pure (elim done [ none ↦ none | some (code, slot) ↦ if code == 1 then some slot else none ])

-- The speed of the first connected port, 0 where there is none
unfoldable pub speed_of_first_port : M ℕ
speed_of_first_port = find_first_connected_port >>= λ found. some_or found 0 (λ index.
    with_info 0 (λ i. with_controller i 0 (do sc ← portsc i index; pure (bit_and (sc >>> 10) 0xf))))

unfoldable pub max_packet : ℕ → ℕ
max_packet speed =
    if speed == 4
    then 512
    else if speed == 3
    then 64
    else if speed == 1
    then 8
    else if speed == 2
    then 8
    else 64

-- The dequeue pointer in DW2 and DW3 of an endpoint context
unfoldable pub write_dequeue : ℕ → ℕ → M (Unit {0})
write_dequeue ctx ring_phys = do
  write32 (ctx + 8) (bit_and (u32 ring_phys) (2 ^ 32 - 2 ^ 4))
  write32 (ctx + 12) (ring_phys >>> 32)

-- The input context: flags, slot context, context of endpoint 0
unfoldable pub fill_address_context : ℕ → ℕ → ℕ → M (Unit {0})
fill_address_context size ic_phys ep0_ring_phys = do
  write32 (ic_phys + 4) 0b11
  write32 (ic_phys + size) 0
  speed ← speed_of_first_port
  write32 (ic_phys + size + 4) (speed <<< 20)
  write32 (ic_phys + size + 8) (1 <<< 27)
  write32 (ic_phys + size + size + 4) (max_packet speed <<< 16)
  write_dequeue (ic_phys + size + size) ep0_ring_phys

-- `dcbaa[slot_id] = dc_phys`
unfoldable pub install : XhciInfo → ℕ → ℕ → ℕ → M (Unit {0})
install i dcbaa_phys slot_id dc_phys =
    if ltb slot_id (max_slots i + 1) then write64 (dcbaa_phys + 8 * slot_id) dc_phys else panics

abbrev pub ep0_trbs : ℕ
ep0_trbs = 64

unfoldable pub new_ring : ℕ → ℕ → M (Unit {0})
new_ring phys n = do zero_trbs phys n; init_link_trb phys n phys true

-- What a successful command leaves in the state
unfoldable pub adopt : (ControllerState → ControllerState) → ℕ → Option (ℕ × ℕ) → M Bool
adopt change slot_id none = pure false
adopt change slot_id (some (code, slot)) =
    if (code == 1) && (slot == slot_id)
    then (do locked tt (λ s. put_state (change s)); pure true)
    else pure false

unfoldable pub addressed : ℕ → ℕ → ControllerState → ControllerState
addressed slot_id ep0_ring_phys s = record s {
  active_slot = some slot_id;
  ep0_ring_phys = ep0_ring_phys;
  ep0_ring_len = ep0_trbs;
  ep0_enqueue = 0;
  ep0_cycle = true;
}

-- The command of `address_device` and the wait for it
unfoldable pub issue : ℕ → ℕ → (ControllerState → ControllerState) → ℕ → M Bool
issue trb_type ic_phys change slot_id = do
  enqueue_command_trb_slot trb_type ic_phys 0 slot_id
  ring_doorbell 0 0
  done ← wait_for_command_completion a_million
  adopt change slot_id done

-- The part of address_device behind the lock
unfoldable pub address_with : XhciInfo → ℕ → ℕ → M Bool
address_with i dcbaa_phys slot_id =
    let size = context_size i in
    alloc (size * 32) 64 >>= λ got_dc. some_or got_dc false (λ dc_phys. do
      zero_phys dc_phys (size * 32)
      install i dcbaa_phys slot_id dc_phys
      got_ring ← alloc (ep0_trbs * 16) 64
      some_or got_ring false (λ ep0_ring_phys. do
        new_ring ep0_ring_phys ep0_trbs
        got_ic ← alloc (size * 3) 64
        some_or got_ic false (λ ic_phys. do
          zero_phys ic_phys (size * 3)
          fill_address_context size ic_phys ep0_ring_phys
          issue 11 ic_phys (addressed slot_id ep0_ring_phys) slot_id)))

unfoldable pub address_device : ℕ → M Bool
address_device slot_id = locked none (λ s. pure (some s)) >>= λ known.
    some_or known false (λ s. address_with s.info s.dcbaa_phys slot_id)

unfoldable pub endpoint_id_from_addr : ℕ → ℕ
endpoint_id_from_addr addr =
    u8 (bit_and addr 0x0f * 2 + (if not (bit_and addr 0x80 == 0) then 1 else 0))

unfoldable pub configured : ℕ → ℕ → ℕ → ControllerState → ControllerState
configured ep_addr ep_id ring_phys s = record s {
  intr_ep_addr = ep_addr;
  intr_ep_id = ep_id;
  intr_ring_phys = ring_phys;
  intr_ring_len = 128;
  intr_enqueue = 0;
  intr_cycle = true;
}

unfoldable pub fill_endpoint_context : ℕ → ℕ → ℕ → ℕ → ℕ → M (Unit {0})
fill_endpoint_context size ic_phys ep_id maxp ring_phys = do
  write32 (ic_phys + 4) (bit_or 1 (u32 (1 <<< ep_id)))
  write32 (ic_phys + size + 8) (ep_id <<< 27)
  write32 (ic_phys + size + size * ep_id + 4) (maxp <<< 16)
  write_dequeue (ic_phys + size + size * ep_id) ring_phys

unfoldable pub configure_interrupt_in_endpoint : ℕ → ℕ → ℕ → ℕ → M Bool
configure_interrupt_in_endpoint slot_id ep_addr maxp interval =
    let ep_id = endpoint_id_from_addr ep_addr in
    with_info false (λ i.
      let size = context_size i in
      alloc (128 * 16) 64 >>= λ got_ring. some_or got_ring false (λ ring_phys. do
        new_ring ring_phys 128
        got_ic ← alloc (size * (2 + ep_id)) 64
        some_or got_ic false (λ ic_phys. do
          zero_phys ic_phys (size * (2 + ep_id))
          fill_endpoint_context size ic_phys ep_id maxp ring_phys
          issue 12 ic_phys (configured ep_addr ep_id ring_phys) slot_id)))
