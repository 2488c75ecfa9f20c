-- ===== src/Xhci/Locking/Polling.antt =====
-- start_hid_polling of xhci.rs on its own lock.
use mon_os.Base.{ℕ, ◌-◌, ◌<◌, ◌≡◌, refl, arith, true, false, some, ◌==◌, Bool-cases, inl, inr}
use mon_os.Pmm.{alloc_aligned}
use mon_os.Xhci.Machine.{ControllerState, Host, Run, locked, alloc}
use mon_os.Xhci.Rings.{ring_doorbell, write_intr}
use mon_os.Xhci.Control.{hid_buffer, post_hid, start_hid_polling}
use mon_os.Xhci.Locking.{deadlock_then, ring_doorbell-held}

pub post_hid-held :
    (s : ControllerState) (slot ep_addr maxp : ℕ) (h : Host)
    → h.held ≡ true
    → 1 < s.intr_ring_len
    → post_hid s slot ep_addr maxp h ≡ Run.deadlock
unfolding post_hid write_intr
post_hid-held s slot ep_addr maxp h held long =
    let usable : (s.intr_ring_len - 1 == 0) ≡ false = ground (arith, long) in
    rw usable (deadlock_then (ring_doorbell slot _) _ _ (ring_doorbell-held slot _ _ _ refl held))

-- Where the buffer is there already, or can be allocated
unfoldable pub HasBuffer : ControllerState → ℕ → Host → Type 0
HasBuffer s maxp h =
    (s.hid_buf_phys == 0) ≡ true → (p : ℕ) × ((alloc_aligned h.pmm maxp 64).1 ≡ some p)

-- On a configured endpoint, with a buffer for the reports, start_hid_polling never comes back: it rings
-- the doorbell, which takes the lock, under its own guard.
pub start_hid_polling_lem :
    (slot ep_addr maxp : ℕ) (h : Host) (s : ControllerState)
    → h.state ≡ some s
    → h.held ≡ false
    → 1 < s.intr_ring_len
    → HasBuffer s maxp h
    → start_hid_polling slot ep_addr maxp h ≡ Run.deadlock
unfolding start_hid_polling locked HasBuffer hid_buffer alloc
start_hid_polling_lem slot ep_addr maxp h s known free long buffer =
    let some_len : (s.intr_ring_len == 0) ≡ false = ground (arith, long) in
    elim (Bool-cases (s.hid_buf_phys == 0)) [
      | inl new ↦
          let p = buffer new in
          rw (known, free, some_len, new, p.1)
            (deadlock_then (post_hid _ slot ep_addr maxp) _ _
              (post_hid-held _ slot ep_addr maxp _ refl long))
      | inr old ↦
          rw (known, free, some_len, old)
            (deadlock_then (post_hid s slot ep_addr maxp) _ _
              (post_hid-held s slot ep_addr maxp _ refl long))
    ]
