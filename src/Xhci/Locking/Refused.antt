-- ===== src/Xhci/Locking/Refused.antt =====
-- start_hid_polling of xhci.rs never says that it polls.
use mon_os.Base.{
  ℕ, ◌-◌, ◌≡◌, refl, arith, Bool, true, false, Option, none, some, ◌==◌, if◌then◌else◌, Bool-cases,
  inl, inr,
}
use mon_os.Xhci.Machine.{
  ControllerState, Host, Run, M, pure, ◌>>◌, and_then, zero_phys, put_state, locked, alloc, some_or,
}
use mon_os.Pmm.{alloc_aligned}
use mon_os.Xhci.Control.{hid_buffer, post_hid, start_hid_polling}
use mon_os.Xhci.Invariant.{Ends, Keeps, and_then-Ends, with-Keeps}
use mon_os.Xhci.Invariant.Transfers.{start_hid_polling-IsSafe}
use mon_os.Xhci.Locking.Polling.{post_hid-held}

-- What a body under the lock gives
locked-Ends :
    {A : Type 0} (Q : A → Type 0) (absent : A) (body : ControllerState → M A)
    → Q absent
    → ((s : ControllerState) (h : Host) → h.held ≡ true → Ends (λ a h'. Q a) (body s h))
    → (h : Host) → Ends (λ a h'. Q a) (locked absent body h)
unfolding locked Ends
locked-Ends {A} Q absent body none_there inside h = opened h.state
  where
    opened :
        (o : Option ControllerState)
        → Ends
            (λ (a : A) (h' : Host). Q a)
            (elim o [
              | none ↦ Run.ok absent h
              | some s ↦
                  if h.held
                  then Run.deadlock
                  else and_then
                      (body s (record h { held = true }))
                      (λ (a : A) h'. Run.ok a (record h' { held = false }))
            ])
    opened none = none_there
    opened (some s) =
        elim h.held
          as (λ held.
            Ends (λ (a : A) (h' : Host). Q a)
              (if held
                then Run.deadlock
                else and_then (body s (record h { held = true }))
                    (λ (a : A) h'. Run.ok a (record h' { held = false })))) [
                      | true ↦ tt
                      | false ↦
                          and_then-Ends _ _ (body s (record h { held = true })) _
                            (inside s (record h { held = true }) refl) (λ a h' p. p)
                    ]

hid_buffer-held :
    (s : ControllerState) (maxp : ℕ) (h : Host)
    → h.held ≡ true
    → Ends (λ (got : Option ControllerState) (h' : Host). h'.held ≡ true) (hid_buffer s maxp h)
unfolding hid_buffer Ends alloc
hid_buffer-held s maxp h held = elim (Bool-cases (s.hid_buf_phys == 0)) [
  | inr old ↦ rw old held
  | inl new ↦
      let got = alloc_aligned h.pmm maxp 64 in
      rw new (allocated got.1 (record h { pmm = got.0 }) held)
]
  where
    allocated :
        (got : Option ℕ) (h' : Host)
        → h'.held ≡ true
        → Ends
            (λ (got : Option ControllerState) (h' : Host). h'.held ≡ true)
            (some_or got none
              (λ buf_phys. do
                zero_phys buf_phys maxp
                let s' : ControllerState = record s { hid_buf_phys = buf_phys; hid_buf_len = maxp }
                put_state s'
                pure (some s'))
              h')
    allocated none h' held' = held'
    allocated (some p) h' held' = held'

post_hid-false :
    (s : ControllerState) (slot addr maxp : ℕ) (h : Host)
    → h.held ≡ true
    → Ends (λ (b : Bool) (h' : Host). b ≡ false) (post_hid s slot addr maxp h)
unfolding Ends post_hid
post_hid-false s slot addr maxp h held = elim (Bool-cases (s.intr_ring_len - 1 == 0)) [
  | inl short ↦ rw short refl
  | inr long ↦ rw (post_hid-held s slot addr maxp h held (ground (arith, long))) tt
]

-- Whatever the machine answers, a call that returns has returned false.
pub start_hid_polling-Keeps :
    (slot addr maxp : ℕ) → Keeps (λ b. b ≡ false) (start_hid_polling slot addr maxp)
unfolding start_hid_polling Ends
start_hid_polling-Keeps slot addr maxp = with-Keeps _ _ (start_hid_polling-IsSafe slot addr maxp) (
    locked-Ends (λ b. b ≡ false) false _ refl
      (λ s h held. elim (Bool-cases (s.intr_ring_len == 0)) [
        | inl none_yet ↦ rw none_yet refl
        | inr there ↦ rw there (
            and_then-Ends (λ got h'. h'.held ≡ true) _ (hid_buffer s maxp h) _
              (hid_buffer-held s maxp h held) (λ got h' held'. posted got h' held'))
      ]))
  where
    posted :
        (got : Option ControllerState) (h' : Host)
        → h'.held ≡ true
        → Ends
            (λ (b : Bool) (h'' : Host). b ≡ false)
            (some_or got false (λ s'. post_hid s' slot addr maxp) h')
    posted none h' held' = refl
    posted (some s') h' held' = post_hid-false s' slot addr maxp h' held'
