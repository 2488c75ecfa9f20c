-- ===== src/Xhci/Memory/Events.antt =====
-- The event loop of xhci.rs and the waits for it: what they write, and that the state still fits.
use mon_os.Base.{ℕ, zero, suc, ◌+◌, ◌-◌, ◌==◌, Bool, true, false, Option, none, some}
use mon_os.Xhci.Machine.{Trb, ControllerState, pure, ◌>>=◌, some_or}
use mon_os.Xhci.Rings.{ring_doorbell, advance_intr}
use mon_os.Xhci.Events.{
  hid_usage_to_ascii, dump, panics, decode_hid_report, on_command_completion, repost, noted,
  on_transfer, on_port_change, handle_event, advance_event, read_event, take_event, poll_loop,
  poll_locked, poll_events, is_ready, trb_type_of,
}
use mon_os.Xhci.Invariant.{Ends}
use mon_os.Xhci.Invariant.Events.{advance_event-IsValid}
use mon_os.Xhci.Memory.{Domain, Fits, Fits-later, SlotFits}
use mon_os.Xhci.Memory.Rules.{
  Leaves, Gives, Writes, Always, then-Gives, bind-Gives, given-Gives, pure-Gives, pure-Writes,
  test-Gives, if-Gives,
}
use mon_os.Xhci.Memory.Accesses.{write_rules, put_state-Writes}
use mon_os.Xhci.Memory.Regs.{portsc-Writes, set_erdp-Writes}
use mon_os.Xhci.Memory.Rings.{ring_doorbell-Writes, write_intr-Writes, advance_intr-Fits}

-- What the loop hands on
OutFits : Domain → ℕ → ControllerState × Bool → Type 0
OutFits d n out = Fits d n out.0

module _ {d : Domain} where
  pub panics-Gives : {A : Type 0} (n : ℕ) (Q : ℕ → A → Type 0) → Gives d n Q (panics {A = A})
  unfolding Leaves Ends
  panics-Gives n Q = record { at = λ h le sound. tt }

  hid_usage_to_ascii-Writes :
      (n usage : ℕ) (shift : Bool) → Writes d n (hid_usage_to_ascii usage shift)
  unfolding hid_usage_to_ascii
  hid_usage_to_ascii-Writes n usage shift = search write_rules

  dump-Writes : (n buf k : ℕ) → Writes d n (dump buf k)
  unfolding dump
  dump-Writes n buf zero = pure-Writes n _
  dump-Writes n buf (suc k) =
      then-Gives n Always _ _ (search write_rules) (dump-Writes n (buf + 1) k)

  decode_hid_report-Writes : (n buf len : ℕ) → Writes d n (decode_hid_report buf len)
  unfolding decode_hid_report
  decode_hid_report-Writes n buf len =
      search (write_rules, panics-Gives, hid_usage_to_ascii-Writes, dump-Writes) depth 9

  kept : (n : ℕ) (s : ControllerState) → Fits d n s → Gives d n (Fits d) (pure s)
  kept n s f = pure-Gives n (Fits d) s (λ n' le. Fits-later d n n' s le f)

  ring_active :
      (n : ℕ) (slot : Option ℕ) (target : ℕ)
      → SlotFits slot
      → Writes d n (some_or slot tt (λ slot. ring_doorbell slot target))
  unfolding SlotFits
  ring_active n none target small = pure-Writes n _
  ring_active n (some slot) target small = ring_doorbell-Writes n slot target small

  repost-Gives : (n : ℕ) (s : ControllerState) → Fits d n s → Gives d n (Fits d) (repost s)
  unfolding repost
  repost-Gives n s f =
      test-Gives n (Fits d) (s.intr_ring_len - 1 == 0) _ _ (kept n s f) (λ some_left.
        then-Gives n (Fits d) _ _ (write_intr-Writes n s _ f some_left) (
          then-Gives n (Fits d) _ _ (ring_active n s.active_slot s.intr_ep_id f.slot)
            (kept n (advance_intr s) (advance_intr-Fits n s f))))

  noted-Fits : (n : ℕ) (s : ControllerState) (trb : Trb) → Fits d n s → Fits d n (noted s trb)
  unfolding noted
  noted-Fits n s trb f = record {
    valid = search;
    info = f.info;
    command = f.command;
    dcbaa = f.dcbaa;
    ep0 = f.ep0;
    intr = f.intr;
    slot = f.slot;
  }

  on_transfer-Gives :
      (n : ℕ) (s : ControllerState) (trb : Trb)
      → Fits d n s
      → Gives d n (Fits d) (on_transfer s trb)
  unfolding on_transfer
  on_transfer-Gives n s trb f =
      if-Gives n (Fits d) _ _ _
        (then-Gives n (Fits d) _ _ (decode_hid_report-Writes n _ _)
          (repost-Gives n (noted s trb) (noted-Fits n s trb f)))
        (kept n (noted s trb) (noted-Fits n s trb f))

  on_port_change-Gives :
      (n : ℕ) (s : ControllerState) (trb : Trb)
      → Fits d n s
      → Gives d n (Fits d) (on_port_change s trb)
  unfolding on_port_change
  on_port_change-Gives n s trb f =
      then-Gives n (Fits d) _ _
        (if-Gives n Always _ _ _ (pure-Writes n _)
          (then-Gives n Always _ _ (portsc-Writes n s.info _) (pure-Writes n _)))
        (kept n s f)

  on_command_completion-Gives :
      (n : ℕ) (s : ControllerState) (trb : Trb)
      → Fits d n s
      → Gives d n (Fits d) (on_command_completion s trb)
  unfolding on_command_completion
  on_command_completion-Gives n s trb f = kept n _ (record {
    valid = search;
    info = f.info;
    command = f.command;
    dcbaa = f.dcbaa;
    ep0 = f.ep0;
    intr = f.intr;
    slot = f.slot;
  })

  handle_event-Gives :
      (n : ℕ) (s : ControllerState) (t : ℕ) (trb : Trb)
      → Fits d n s
      → Gives d n (Fits d) (handle_event s t trb)
  unfolding handle_event
  handle_event-Gives n s t trb f =
      search (if-Gives, kept, on_port_change-Gives, on_transfer-Gives, on_command_completion-Gives)

  advance_event-Fits : (n : ℕ) (s : ControllerState) → Fits d n s → Fits d n (advance_event s)
  unfolding advance_event
  advance_event-Fits n s f = record {
    valid = advance_event-IsValid s f.valid;
    info = f.info;
    command = f.command;
    dcbaa = f.dcbaa;
    ep0 = f.ep0;
    intr = f.intr;
    slot = f.slot;
  }

  read_event-Writes : (n : ℕ) (s : ControllerState) → Writes d n (read_event s)
  unfolding read_event
  read_event-Writes n s = search (write_rules, panics-Gives)

  take_event-Gives :
      (n : ℕ) (s : ControllerState) (trb : Trb) → Fits d n s → Gives d n (Fits d) (take_event s trb)
  unfolding take_event
  take_event-Gives n s trb f =
      given-Gives n (Fits d) (Fits d) _ _ (handle_event-Gives n s (trb_type_of trb) trb f)
        (λ s' n' le f'.
          let next = advance_event-Fits n' s' f' in
          then-Gives n' (Fits d) _ _ (set_erdp-Writes n' _ _ next.info) (kept n' _ next))

  poll_loop-Gives :
      (k n : ℕ) (s : ControllerState) (b : Bool)
      → Fits d n s
      → Gives d n (OutFits d) (poll_loop k s b)
  unfolding poll_loop OutFits Ends Leaves
  poll_loop-Gives zero n s b f = record { at = λ h le sound. tt }
  poll_loop-Gives (suc k) n s b f =
      bind-Gives n (OutFits d) (read_event s) _ (read_event-Writes n s)
        (λ trb. next (is_ready s trb) trb (λ s' n' f'. poll_loop-Gives k n' s' true f'))
    where
      next :
          (ready : Bool) (trb : Trb)
          → ((s' : ControllerState) (n' : ℕ)
              → Fits d n' s'
              → Gives d n' (OutFits d) (poll_loop k s' true))
          → Gives d n (OutFits d) (elim ready [
            | false ↦ pure (s, b)
            | true ↦ take_event s trb >>= λ s'. poll_loop k s' true
          ])
      next false trb rest = pure-Gives n (OutFits d) (s, b) (λ n' le. Fits-later d n n' s le f)
      next true trb rest =
          given-Gives n (Fits d) (OutFits d) (take_event s trb) _ (take_event-Gives n s trb f)
            (λ s' n' le f'. rest s' n' f')

  poll_locked-Writes : (n : ℕ) (s : ControllerState) → Fits d n s → Writes d n (poll_locked s)
  unfolding poll_locked OutFits
  poll_locked-Writes n s f = record {
    at = λ h le sound.
        (given-Gives n (OutFits d) Always (poll_loop h.patience s false) _
            (poll_loop-Gives h.patience n s false f)
            (λ out n' le' f'.
              then-Gives n' Always _ _ (put_state-Writes n' out.0 f') (pure-Writes n' out.1))).at
          h le sound;
  }

  pub poll_events-Writes : (n : ℕ) → Writes d n poll_events
  unfolding poll_events
  poll_events-Writes n = search (write_rules, poll_locked-Writes)
