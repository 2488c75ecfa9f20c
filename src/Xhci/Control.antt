-- ===== src/Xhci/Control.antt =====
-- Control transfers on endpoint 0 in xhci.rs, the descriptors that they fetch, and the reports of the
-- keyboard's interrupt endpoint.
use mon_os.Base.{
  ℕ, ◌+◌, ◌-◌, ◌*◌, ◌^◌, Bool, true, false, Option, none, some, ◌==◌, if◌then◌else◌, ◌<<<◌, bit_or,
}
use mon_os.Xhci.Machine.{
  ControllerState, M, pure, ◌>>=◌, ◌>>◌, zero_phys, alloc, locked, put_state, some_or, load,
}
use mon_os.Xhci.Rings.{
  control_word, cycle_bit, ep0_cycle_bit, ep0_enqueue_trb, ring_ep0, intr_cycle_bit,
  intr_enqueue_trb, write_intr, advance_intr, ring_doorbell,
}
use mon_os.Xhci.Events.{wait_transfer, take_transfer, take_transfer_code}
use mon_os.Xhci.Commands.{endpoint_id_from_addr}

-- The eight bytes of UsbSetupPacket as one little-endian number
unfoldable pub setup_packet : ℕ → ℕ → ℕ → ℕ → ℕ → ℕ
setup_packet request_type request value index length =
    request_type + request * 2 ^ 8 + value * 2 ^ 16 + index * 2 ^ 32 + length * 2 ^ 48

-- The cycle bit is read under its own lock, before the TRB is queued under another.
unfoldable pub setup_stage : ℕ → M (Unit {0})
setup_stage packet = do
  c ← ep0_cycle_bit
  ep0_enqueue_trb (record { parameter = packet; status = 8; control = control_word 2 c })

unfoldable pub data_stage_in : ℕ → ℕ → M (Unit {0})
data_stage_in data_phys length = do
  c ← ep0_cycle_bit
  ep0_enqueue_trb (record {
    parameter = data_phys;
    status = length;
    control = bit_or (bit_or (bit_or (3 <<< 10) (1 <<< 16)) (1 <<< 5)) c;
  })

unfoldable pub status_stage_out : M (Unit {0})
status_stage_out = do
  c ← ep0_cycle_bit
  ep0_enqueue_trb (record { parameter = 0; status = 0; control = control_word 4 c })

unfoldable pub status_stage_in : M (Unit {0})
status_stage_in = do
  c ← ep0_cycle_bit
  ep0_enqueue_trb (record {
    parameter = 0;
    status = 0;
    control = bit_or (bit_or (bit_or (4 <<< 10) (1 <<< 16)) (1 <<< 5)) c;
  })

-- `code == 1`, or false when no event came
unfoldable pub succeeded : Option ℕ → Bool
succeeded none = false
succeeded (some code) = code == 1

unfoldable pub control_in : ℕ → ℕ → ℕ → ℕ → ℕ → ℕ → ℕ → M Bool
control_in slot_id request_type request value index length data_phys = do
  setup_stage (setup_packet request_type request value index length)
  data_stage_in data_phys length
  status_stage_out
  ring_ep0 slot_id
  code ← wait_transfer take_transfer
  pure (succeeded code)

unfoldable pub control_no_data : ℕ → ℕ → ℕ → ℕ → ℕ → M Bool
control_no_data slot_id request_type request value index = do
  setup_stage (setup_packet request_type request value index 0)
  status_stage_in
  ring_ep0 slot_id
  code ← wait_transfer take_transfer_code
  pure (succeeded code)

-- A zeroed buffer of `size` bytes, of which `length` are requested
unfoldable pub fetch : ℕ → ℕ → ℕ → ℕ → M (Option ℕ)
fetch slot_id size value length = alloc size 64 >>= λ got. some_or got none (λ buf_phys. do
  zero_phys buf_phys size
  good ← control_in slot_id 0x80 6 value 0 length buf_phys
  pure (if good then some buf_phys else none))

unfoldable pub get_device_descriptor : ℕ → M (Option ℕ)
get_device_descriptor slot_id = fetch slot_id 256 (1 <<< 8) 18

-- The buffer, wTotalLength and bConfigurationValue
unfoldable pub get_configuration_descriptor_header : ℕ → M (Option (ℕ × ℕ × ℕ))
get_configuration_descriptor_header slot_id = fetch slot_id 64 (2 <<< 8) 9 >>= λ got.
    some_or got none (λ buf_phys. do
      low ← load 1 (buf_phys + 2)
      high ← load 1 (buf_phys + 3)
      cfg_val ← load 1 (buf_phys + 5)
      pure (some (buf_phys, bit_or low (high <<< 8), cfg_val)))

unfoldable pub get_configuration_descriptor : ℕ → ℕ → M (Option ℕ)
get_configuration_descriptor slot_id total_len = fetch slot_id total_len (2 <<< 8) total_len

unfoldable pub set_configuration : ℕ → ℕ → M Bool
set_configuration slot_id cfg_value = control_no_data slot_id 0x00 9 cfg_value 0

unfoldable pub request_hid_report_once : ℕ → ℕ → ℕ → M (Option ℕ)
request_hid_report_once slot_id ep_addr maxp = alloc maxp 64 >>= λ got.
    some_or got none (λ buf_phys. do
      zero_phys buf_phys maxp
      c ← intr_cycle_bit
      intr_enqueue_trb (record { parameter = buf_phys; status = maxp; control = control_word 1 c })
      ring_doorbell slot_id (endpoint_id_from_addr ep_addr)
      code ← wait_transfer take_transfer
      pure (if succeeded code then some buf_phys else none))

-- The buffer of the reports, allocated on the first call
unfoldable pub hid_buffer : ControllerState → ℕ → M (Option ControllerState)
hid_buffer s maxp =
    if s.hid_buf_phys == 0
    then (alloc maxp 64 >>= λ got. some_or got none (λ buf_phys. do
      zero_phys buf_phys maxp
      let s' : ControllerState = record s { hid_buf_phys = buf_phys; hid_buf_len = maxp }
      put_state s'
      pure (some s')))
    else pure (some s)

-- The rest of start_hid_polling, with the lock still held
unfoldable pub post_hid : ControllerState → ℕ → ℕ → ℕ → M Bool
post_hid s slot_id ep_addr maxp = if (s.intr_ring_len - 1) == 0 then pure false else (do
  write_intr s (record {
    parameter = s.hid_buf_phys;
    status = maxp;
    control = control_word 1 (cycle_bit s.intr_cycle);
  })
  put_state (advance_intr s)
  ring_doorbell slot_id (endpoint_id_from_addr ep_addr)
  pure true)

unfoldable pub start_hid_polling : ℕ → ℕ → ℕ → M Bool
start_hid_polling slot_id ep_addr maxp = locked false (λ s.
    if s.intr_ring_len == 0
    then pure false
    else (hid_buffer s maxp >>= λ got. some_or got false (λ s'. post_hid s' slot_id ep_addr maxp)))
