-- ===== src/Xhci/Invariant/Transfers.antt =====
-- The invariant under the control transfers and the reports of the interrupt endpoint.
use mon_os.Base.{ℕ, ◌≡◌, refl, subst, some-injective, ◌==◌, arith, false, Option, none, some}
use mon_os.Xhci.Machine.{ControllerState, pure, ◌>>◌, put_state, zero_phys, some_or}
use mon_os.Xhci.Rings.{ring_ep0}
use mon_os.Xhci.Control.{
  setup_stage, data_stage_in, status_stage_out, status_stage_in, control_in, control_no_data, fetch,
  get_device_descriptor, get_configuration_descriptor_header, get_configuration_descriptor,
  set_configuration, request_hid_report_once, hid_buffer, post_hid, start_hid_polling,
}
use mon_os.Xhci.Invariant.{
  IsValid, Keeps, IsSafe, run_rules, if-Keeps, bind-Keeps, pure-Keeps, touch-IsSafe, alloc-IsSafe,
  valid_then-IsSafe, pure-IsSafe, if-IsSafe, put_state-IsSafe, locked-IsSafe,
}
use mon_os.Xhci.Invariant.Rings.{ring_rules, advance_intr-IsValid}
use mon_os.Xhci.Invariant.Events.{
  wait_transfer-IsSafe, take_transfer-IsSafe, take_transfer_code-IsSafe,
}

control_in-IsSafe : (slot t r v i l p : ℕ) → IsSafe (control_in slot t r v i l p)
unfolding control_in setup_stage data_stage_in status_stage_out ring_ep0
control_in-IsSafe slot t r v i l p =
    search (ring_rules, wait_transfer-IsSafe, take_transfer-IsSafe) depth 12

control_no_data-IsSafe : (slot t r v i : ℕ) → IsSafe (control_no_data slot t r v i)
unfolding control_no_data setup_stage status_stage_in ring_ep0
control_no_data-IsSafe slot t r v i =
    search (ring_rules, wait_transfer-IsSafe, take_transfer_code-IsSafe) depth 12

fetch-IsSafe : (slot size v l : ℕ) → IsSafe (fetch slot size v l)
unfolding fetch
fetch-IsSafe slot size v l = search (run_rules, control_in-IsSafe) depth 9

pub get_device_descriptor-IsSafe : (slot : ℕ) → IsSafe (get_device_descriptor slot)
unfolding get_device_descriptor
get_device_descriptor-IsSafe slot = fetch-IsSafe _ _ _ _

pub get_configuration_descriptor_header-IsSafe :
    (slot : ℕ) → IsSafe (get_configuration_descriptor_header slot)
unfolding get_configuration_descriptor_header
get_configuration_descriptor_header-IsSafe slot = search (run_rules, fetch-IsSafe) depth 9

pub get_configuration_descriptor-IsSafe :
    (slot total : ℕ) → IsSafe (get_configuration_descriptor slot total)
unfolding get_configuration_descriptor
get_configuration_descriptor-IsSafe slot total = fetch-IsSafe _ _ _ _

pub set_configuration-IsSafe : (slot v : ℕ) → IsSafe (set_configuration slot v)
unfolding set_configuration
set_configuration-IsSafe slot v = control_no_data-IsSafe _ _ _ _ _

pub request_hid_report_once-IsSafe :
    (slot addr maxp : ℕ) → IsSafe (request_hid_report_once slot addr maxp)
unfolding request_hid_report_once
request_hid_report_once-IsSafe slot addr maxp =
    search (ring_rules, wait_transfer-IsSafe, take_transfer-IsSafe) depth 14

hid_buffer_taken-IsValid :
    (s : ControllerState) (phys len : ℕ)
    → IsValid s
    → IsValid (record s { hid_buf_phys = phys; hid_buf_len = len })
hid_buffer_taken-IsValid s phys len v = search

-- The state that hid_buffer hands on
Handed : Option ControllerState → Type 0
Handed got = (s : ControllerState) → got ≡ some s → IsValid s

hid_buffer-Keeps : (s : ControllerState) (maxp : ℕ) → IsValid s → Keeps Handed (hid_buffer s maxp)
unfolding hid_buffer Handed
hid_buffer-Keeps s maxp v =
    if-Keeps Handed (s.hid_buf_phys == 0) _ _
      (bind-Keeps Handed _ _ (alloc-IsSafe maxp 64) (λ got. allocated got))
      (pure-Keeps Handed (some s) (λ s' e. subst IsValid (some-injective e) v))
  where
    allocated :
        (got : Option ℕ)
        → Keeps Handed (
            some_or got none (λ buf_phys. do
              zero_phys buf_phys maxp
              let s' : ControllerState = record s { hid_buf_phys = buf_phys; hid_buf_len = maxp }
              put_state s'
              pure (some s')))
    allocated none = pure-Keeps Handed none (λ s' e. absurd (ground arith))
    allocated (some p) = bind-Keeps Handed _ _ (touch-IsSafe _) (λ _.
        bind-Keeps Handed _ _ (put_state-IsSafe _ (hid_buffer_taken-IsValid s p maxp v)) (λ _.
          pure-Keeps Handed _
            (λ s' e. subst IsValid (some-injective e) (hid_buffer_taken-IsValid s p maxp v))))

post_hid-IsSafe :
    (s : ControllerState) (slot addr maxp : ℕ) → IsValid s → IsSafe (post_hid s slot addr maxp)
unfolding post_hid
post_hid-IsSafe s slot addr maxp v = search (ring_rules, advance_intr-IsValid) depth 9

pub start_hid_polling-IsSafe : (slot addr maxp : ℕ) → IsSafe (start_hid_polling slot addr maxp)
unfolding start_hid_polling Handed
start_hid_polling-IsSafe slot addr maxp = locked-IsSafe false _ (λ s v.
    if-IsSafe (s.intr_ring_len == 0) _ _ (pure-IsSafe false)
      (valid_then-IsSafe Handed _ _ (hid_buffer-Keeps s maxp v) (λ got good. posted got good)))
  where
    posted :
        (got : Option ControllerState)
        → Handed got
        → IsSafe (some_or got false (λ s'. post_hid s' slot addr maxp))
    posted none good = pure-IsSafe false
    posted (some s') good = post_hid-IsSafe s' slot addr maxp (good s' refl)
