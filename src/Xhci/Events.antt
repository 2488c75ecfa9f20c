-- ===== src/Xhci/Events.antt =====
-- The events of xhci.rs: the decoding of a keyboard report, the handler, and the loops that wait.
use mon_os.Base.{
  ℕ, zero, suc, ◌+◌, ◌-◌, min, Bool, true, false, not, ◌&&◌, Option, none, some, ◌==◌,
  if◌then◌else◌, u8, ◌<<<◌, ◌>>>◌, bit_and, bit_or, ltb, leb,
}
use mon_os.Xhci.Machine.{
  Trb, Access, ControllerState, Run, M, pure, ◌>>=◌, ◌>>◌, and_then, touch, load, load_trb, locked,
  put_state, attempts, some_or,
}
use mon_os.Xhci.Regs.{portsc, set_erdp, with_controller}
use mon_os.Xhci.Rings.{
  trb_at, cycle_bit, next_index, next_cycle, control_word, write_intr, advance_intr, ring_doorbell,
}

-- The arms of hid_usage_to_ascii that give a character
unfoldable pub usage_char : ℕ → Bool → Option ℕ
usage_char usage shift =
    if leb 0x04 usage && leb usage 0x1d
    then some ((if shift then b'A' else b'a') + (usage - 0x04))
    else if leb 0x1e usage && leb usage 0x26
    then some (b'1' + (usage - 0x1e))
    else if usage == 0x27
    then some b'0'
    else if usage == 0x2c
    then some b' '
    else if usage == 0x2d
    then some (if shift then b'_' else b'-')
    else if usage == 0x2e
    then some (if shift then b'+' else b'=')
    else if usage == 0x2f
    then some (if shift then b'{' else b'[')
    else if usage == 0x30
    then some (if shift then b'}' else b']')
    else if usage == 0x31
    then some (if shift then b'|' else 92)
    else if usage == 0x33
    then some (if shift then b':' else b';')
    else if usage == 0x34
    then some (if shift then 34 else 39)
    else if usage == 0x36
    then some (if shift then b'<' else b',')
    else if usage == 0x37
    then some (if shift then b'>' else b'.')
    else if usage == 0x38
    then some (if shift then b'?' else b'/')
    else none

-- The two arms that act on the screen give no character.
unfoldable pub hid_usage_to_ascii : ℕ → Bool → M (Option ℕ)
hid_usage_to_ascii usage shift =
    if usage == 0x28
    then (do touch (Access.put b'\n'); pure none)
    else if usage == 0x2a
    then (do touch Access.erase; pure none)
    else pure (usage_char usage shift)

-- The bytes that the log line shows
unfoldable pub dump : ℕ → ℕ → M (Unit {0})
dump buf zero = pure tt
dump buf (suc n) = do load 1 buf; dump (buf + 1) n

abbrev pub panics : {A : Type 0} → M A
panics h = Run.panic

-- `data[0]` and `data[2]` of a slice of `len` bytes panic where the slice is shorter.
unfoldable pub decode_hid_report : ℕ → ℕ → M (Unit {0})
decode_hid_report buf len = do
  dump buf len
  modifiers ← if ltb 0 len then load 1 buf else panics
  key ← if ltb 2 len then load 1 (buf + 2) else panics
  ch ← hid_usage_to_ascii key (not (bit_and modifiers 0x22 == 0))
  some_or ch tt (λ c. touch (Access.put c))

unfoldable pub on_command_completion : ControllerState → Trb → M ControllerState
on_command_completion s trb = pure (record s {
  last_completion_code = some (u8 (bit_and (trb.status >>> 24) 0xff));
  last_completed_slot = some (u8 (bit_and trb.parameter 0xff));
})

-- The new normal TRB on the interrupt ring, and the doorbell
unfoldable pub repost : ControllerState → M ControllerState
repost s = if (s.intr_ring_len - 1) == 0 then pure s else do
  write_intr s (record {
    parameter = s.hid_buf_phys;
    status = s.hid_buf_len;
    control = control_word 1 (cycle_bit s.intr_cycle);
  })
  some_or s.active_slot tt (λ slot. ring_doorbell slot s.intr_ep_id)
  pure (advance_intr s)

unfoldable pub transfer_code : Trb → ℕ
transfer_code trb = u8 (bit_and (trb.status >>> 24) 0xff)

unfoldable pub transfer_len : Trb → ℕ
transfer_len trb = bit_and trb.status 0x00ffffff

unfoldable pub transfer_ep : Trb → ℕ
transfer_ep trb = u8 (bit_and (trb.control >>> 16) 0x1f)

unfoldable pub noted : ControllerState → Trb → ControllerState
noted s trb = record s {
  last_transfer_code = some (transfer_code trb);
  last_transfer_len = some (transfer_len trb);
  last_transfer_ep = some (transfer_ep trb);
  last_transfer_slot = s.active_slot;
}

-- A successful transfer of the interrupt endpoint, with a buffer set up
unfoldable pub is_report : ControllerState → Trb → Bool
is_report s trb =
    (transfer_code trb == 1)
    && ltb 0 s.intr_ring_len
    && (transfer_ep trb == s.intr_ep_id)
    && not (s.hid_buf_phys == 0)

unfoldable pub on_transfer : ControllerState → Trb → M ControllerState
on_transfer s trb =
    if is_report s trb
    then (do
      decode_hid_report s.hid_buf_phys (min (transfer_len trb) s.hid_buf_len)
      repost (noted s trb))
    else pure (noted s trb)

unfoldable pub on_port_change : ControllerState → Trb → M ControllerState
on_port_change s trb =
    let port_id = u8 (bit_and (trb.parameter >>> 24) 0xff) in
    do with_controller s.info tt (do portsc s.info (port_id - 1); pure tt); pure s

unfoldable pub handle_event : ControllerState → ℕ → Trb → M ControllerState
handle_event s trb_type trb =
    if trb_type == 0x21
    then on_command_completion s trb
    else if trb_type == 0x20
    then on_transfer s trb
    else if trb_type == 0x22
    then on_port_change s trb
    else pure s

unfoldable pub trb_type_of : Trb → ℕ
trb_type_of trb = u8 (bit_and (trb.control >>> 10) 0x3f)

-- The event at the dequeue index belongs to the driver.
unfoldable pub is_ready : ControllerState → Trb → Bool
is_ready s trb =
    if s.event_ring_cycle then not (bit_and trb.control 1 == 0) else bit_and trb.control 1 == 0

unfoldable pub advance_event : ControllerState → ControllerState
advance_event s = record s {
  event_ring_dequeue = next_index s.event_ring_len s.event_ring_dequeue;
  event_ring_cycle = next_cycle s.event_ring_len s.event_ring_dequeue s.event_ring_cycle;
}

-- `ring[index]`
unfoldable pub read_event : ControllerState → M Trb
read_event s =
    if ltb s.event_ring_dequeue s.event_ring_len
    then load_trb (trb_at s.event_ring_phys s.event_ring_dequeue)
    else panics

-- The part of a round behind the cycle test
unfoldable pub take_event : ControllerState → Trb → M ControllerState
take_event s trb = do
  s' ← handle_event s (trb_type_of trb) trb
  let next = advance_event s'
  set_erdp next.info (bit_or (trb_at next.event_ring_phys next.event_ring_dequeue) (1 <<< 3))
  pure next

-- The `loop` of poll_events: the state and whether an event was taken. The bound is that of the model.
unfoldable pub poll_loop : ℕ → ControllerState → Bool → M (ControllerState × Bool)
poll_loop zero s processed = λ h. Run.out_of_fuel
poll_loop (suc n) s processed = read_event s >>= λ trb. elim (is_ready s trb) [
  | false ↦ pure (s, processed)
  | true ↦ take_event s trb >>= λ s'. poll_loop n s' true
]

unfoldable pub poll_locked : ControllerState → M Bool
poll_locked s h = and_then (poll_loop h.patience s false h) (λ out. put_state out.0 >> pure out.1)

unfoldable pub poll_events : M Bool
poll_events = locked false (λ s. with_controller s.info false (poll_locked s))

-- `last_completion_code.take()` under the lock
unfoldable pub take_completion : M (Option (ℕ × ℕ))
take_completion = locked none (λ s. some_or s.last_completion_code none (λ code. do
  put_state (record s { last_completion_code = none; last_completed_slot = none })
  pure (some (code, elim s.last_completed_slot [ none ↦ 0 | some slot ↦ slot ]))))

-- `for _ in 0..iterations`; without a controller the call ends at once, as each round here does.
unfoldable pub wait_for_command_completion : ℕ → M (Option (ℕ × ℕ))
wait_for_command_completion iterations = attempts iterations (do poll_events; take_completion)

-- `last_transfer_code.take()` and `last_transfer_len.take()`
unfoldable pub take_transfer : M (Option ℕ)
take_transfer = locked none (λ s. some_or s.last_transfer_code none (λ code. do
  put_state (record s { last_transfer_code = none; last_transfer_len = none })
  pure (some code)))

-- control_no_data leaves the length.
unfoldable pub take_transfer_code : M (Option ℕ)
take_transfer_code = locked none (λ s.
    some_or s.last_transfer_code none
      (λ code. do put_state (record s { last_transfer_code = none }); pure (some code)))

-- The loop that the control transfers and the single report share
unfoldable pub wait_transfer : M (Option ℕ) → M (Option ℕ)
wait_transfer take = attempts 1000000 (do poll_events; take)
