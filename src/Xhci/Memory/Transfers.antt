-- ===== src/Xhci/Memory/Transfers.antt =====
-- The control transfers of xhci.rs and the reports of the interrupt endpoint: what they write.
use mon_os.Base.{ℕ, ◌+◌, ◌-◌, ◌^◌, ◌≤◌, ◌<◌, arith, false, Option, none, some, ◌==◌}
use mon_os.Pmm.{page_size}
use mon_os.Xhci.Machine.{ControllerState, some_or}
use mon_os.Xhci.Control.{
  setup_stage, data_stage_in, status_stage_out, status_stage_in, control_in, control_no_data, fetch,
  get_device_descriptor, get_configuration_descriptor_header, get_configuration_descriptor,
  set_configuration, request_hid_report_once, hid_buffer, post_hid, start_hid_polling,
}
use mon_os.Xhci.Memory.{Domain, Fits, Fits-later, StateFits}
use mon_os.Xhci.Memory.Rules.{
  Gives, Writes, Always, then-Gives, bind-Gives, given-Gives, pure-Gives, pure-Writes, if-Gives,
  test-Gives, some_or-Gives,
}
use mon_os.Xhci.Memory.Accesses.{write_rules, zeroed_memory, locked-Writes, put_state-Writes}
use mon_os.Xhci.Memory.Grants.{block-Gives}
use mon_os.Xhci.Memory.Rings.{
  ep0_cycle_bit-Writes, ep0_enqueue_trb-Writes, ring_ep0-Writes, ring_doorbell-Writes,
  intr_cycle_bit-Writes, intr_enqueue_trb-Writes, write_intr-Writes, advance_intr-Fits,
}
use mon_os.Xhci.Memory.Ports.{wait_transfer-Writes, take_transfer-Writes, take_transfer_code-Writes}

module _ {d : Domain} where
  setup_stage-Writes : (n packet : ℕ) → Writes d n (setup_stage packet)
  unfolding setup_stage
  setup_stage-Writes n packet =
      bind-Gives n Always _ _ (ep0_cycle_bit-Writes n) (λ c. ep0_enqueue_trb-Writes n _)

  control_in-Writes :
      (n slot t r v i l p : ℕ) → slot < 256 → Writes d n (control_in slot t r v i l p)
  unfolding control_in data_stage_in status_stage_out
  control_in-Writes n slot t r v i l p small = then-Gives n Always _ _ (setup_stage-Writes n _) (
      then-Gives n Always _ _
        (bind-Gives n Always _ _ (ep0_cycle_bit-Writes n) (λ c. ep0_enqueue_trb-Writes n _))
        (then-Gives n Always _ _
          (bind-Gives n Always _ _ (ep0_cycle_bit-Writes n) (λ c. ep0_enqueue_trb-Writes n _))
          (then-Gives n Always _ _ (ring_ep0-Writes n slot small) (
            bind-Gives n Always _ _ (wait_transfer-Writes n _ (take_transfer-Writes n))
              (λ code. pure-Writes n _)))))

  control_no_data-Writes :
      (n slot t r v i : ℕ) → slot < 256 → Writes d n (control_no_data slot t r v i)
  unfolding control_no_data status_stage_in
  control_no_data-Writes n slot t r v i small = then-Gives n Always _ _ (setup_stage-Writes n _) (
      then-Gives n Always _ _
        (bind-Gives n Always _ _ (ep0_cycle_bit-Writes n) (λ c. ep0_enqueue_trb-Writes n _))
        (then-Gives n Always _ _ (ring_ep0-Writes n slot small) (
          bind-Gives n Always _ _ (wait_transfer-Writes n _ (take_transfer_code-Writes n))
            (λ code. pure-Writes n _))))

  fetch-Writes :
      (n slot size v l : ℕ)
      → slot < 256
      → size + page_size ≤ 2 ^ 64
      → Writes d n (fetch slot size v l)
  unfolding fetch
  fetch-Writes n slot size v l small fits =
      block-Gives n size Always _ fits (λ n' le. pure-Writes n' _)
        (λ buf n' le m. then-Gives n' Always _ _ (zeroed_memory n' buf size m) (
          bind-Gives n' Always _ _ (control_in-Writes n' slot _ _ _ _ _ _ small)
            (λ good. pure-Writes n' _)))

  pub get_device_descriptor-Writes :
      (n slot : ℕ) → slot < 256 → Writes d n (get_device_descriptor slot)
  unfolding get_device_descriptor
  get_device_descriptor-Writes n slot small = fetch-Writes n slot 256 _ _ small (omega arith)

  pub get_configuration_descriptor_header-Writes :
      (n slot : ℕ) → slot < 256 → Writes d n (get_configuration_descriptor_header slot)
  unfolding get_configuration_descriptor_header
  get_configuration_descriptor_header-Writes n slot small =
      bind-Gives n Always _ _ (fetch-Writes n slot 64 _ _ small (omega arith))
        (λ got. some_or-Gives n Always got none _ (pure-Writes n _) (λ buf. search write_rules))

  pub get_configuration_descriptor-Writes :
      (n slot total : ℕ)
      → slot < 256
      → total < 2 ^ 16
      → Writes d n (get_configuration_descriptor slot total)
  unfolding get_configuration_descriptor
  get_configuration_descriptor-Writes n slot total small short =
      fetch-Writes n slot total _ _ small (omega (arith, short))

  pub set_configuration-Writes : (n slot v : ℕ) → slot < 256 → Writes d n (set_configuration slot v)
  unfolding set_configuration
  set_configuration-Writes n slot v small = control_no_data-Writes n slot _ _ _ _ small

  pub request_hid_report_once-Writes :
      (n slot addr maxp : ℕ)
      → slot < 256
      → maxp < 2 ^ 16
      → Writes d n (request_hid_report_once slot addr maxp)
  unfolding request_hid_report_once
  request_hid_report_once-Writes n slot addr maxp small short =
      block-Gives n maxp Always _ (omega (arith, short)) (λ n' le. pure-Writes n' _)
        (λ buf n' le m. then-Gives n' Always _ _ (zeroed_memory n' buf maxp m) (
          bind-Gives n' Always _ _ (intr_cycle_bit-Writes n') (λ c.
            then-Gives n' Always _ _ (intr_enqueue_trb-Writes n' _) (
              then-Gives n' Always _ _ (ring_doorbell-Writes n' slot _ small) (
                bind-Gives n' Always _ _ (wait_transfer-Writes n' _ (take_transfer-Writes n'))
                  (λ code. pure-Writes n' _))))))

  hid_buffer_taken-Fits :
      (n : ℕ) (s : ControllerState) (phys len : ℕ)
      → Fits d n s
      → Fits d n (record s { hid_buf_phys = phys; hid_buf_len = len })
  hid_buffer_taken-Fits n s phys len f = record {
    valid = search;
    info = f.info;
    command = f.command;
    dcbaa = f.dcbaa;
    ep0 = f.ep0;
    intr = f.intr;
    slot = f.slot;
  }

  hid_buffer-Gives :
      (n : ℕ) (s : ControllerState) (maxp : ℕ)
      → maxp < 2 ^ 16
      → Fits d n s
      → Gives d n (StateFits d) (hid_buffer s maxp)
  unfolding hid_buffer StateFits
  hid_buffer-Gives n s maxp short f =
      if-Gives n (StateFits d) (s.hid_buf_phys == 0) _ _
        (block-Gives n maxp (StateFits d) _ (omega (arith, short))
          (λ n' le. pure-Gives n' (StateFits d) none (λ n2 le2. tt))
          (λ buf n' le m.
            let taken = hid_buffer_taken-Fits n' s buf maxp (Fits-later d n n' s le f) in
            then-Gives n' (StateFits d) _ _ (zeroed_memory n' buf maxp m) (
              then-Gives n' (StateFits d) _ _ (put_state-Writes n' _ taken)
                (pure-Gives n' (StateFits d) _ (λ n2 le2. Fits-later d n' n2 _ le2 taken)))))
        (pure-Gives n (StateFits d) (some s) (λ n' le. Fits-later d n n' s le f))

  post_hid-Writes :
      (n : ℕ) (s : ControllerState) (slot addr maxp : ℕ)
      → slot < 256
      → Fits d n s
      → Writes d n (post_hid s slot addr maxp)
  unfolding post_hid
  post_hid-Writes n s slot addr maxp small f =
      test-Gives n Always (s.intr_ring_len - 1 == 0) _ _ (pure-Writes n _) (λ some_left.
        then-Gives n Always _ _ (write_intr-Writes n s _ f some_left) (
          then-Gives n Always _ _ (put_state-Writes n _ (advance_intr-Fits n s f))
            (then-Gives n Always _ _ (ring_doorbell-Writes n slot _ small) (pure-Writes n _))))

  pub start_hid_polling-Writes :
      (n slot addr maxp : ℕ)
      → slot < 256
      → maxp < 2 ^ 16
      → Writes d n (start_hid_polling slot addr maxp)
  unfolding start_hid_polling StateFits
  start_hid_polling-Writes n slot addr maxp small short = locked-Writes n false _ (λ s n' le f.
      if-Gives n' Always (s.intr_ring_len == 0) _ _ (pure-Writes n' false) (
        given-Gives n' (StateFits d) Always _ _ (hid_buffer-Gives n' s maxp short f)
          (λ got n2 le2 good. posted got n2 good)))
    where
      posted :
          (got : Option ControllerState) (n2 : ℕ)
          → StateFits d n2 got
          → Writes d n2 (some_or got false (λ s'. post_hid s' slot addr maxp))
      posted none n2 good = pure-Writes n2 false
      posted (some s') n2 good = post_hid-Writes n2 s' slot addr maxp small good
