-- ===== src/Xhci/Invariant/Events.antt =====
-- The invariant under the handling of events.
use mon_os.Base.{ℕ, zero, suc, ◌+◌, arith, Bool, true, false, Option, none}
use mon_os.Xhci.Machine.{Trb, ControllerState, M, pure, ◌>>=◌}
use mon_os.Xhci.Events.{
  hid_usage_to_ascii, dump, panics, decode_hid_report, on_command_completion, repost, noted,
  on_transfer, on_port_change, handle_event, advance_event, read_event, take_event, poll_loop,
  poll_locked, poll_events, take_completion, wait_for_command_completion, take_transfer,
  take_transfer_code, wait_transfer, is_ready, trb_type_of,
}
use mon_os.Xhci.Regs.{portsc, set_erdp, set_wide}
use mon_os.Xhci.Invariant.{
  IsValid, Keeps, IsSafe, Ends, run_rules, pure-IsSafe, put_state-IsSafe, some_or-IsSafe,
  bind-Keeps, if-Keeps, pure-Keeps, valid_then-Keeps, valid_then-IsSafe, locked-IsSafe,
  attempts-IsSafe, then-IsSafe, load-IsSafe, bind-IsSafe,
}
use mon_os.Xhci.Invariant.Rings.{ring_rules, advance_intr-IsValid, next_index-below}

pub panics-IsSafe : {A : Type 0} → IsSafe (panics {A = A})
unfolding Ends
panics-IsSafe = record { at = λ h known. tt }

pub hid_usage_to_ascii-IsSafe : (usage : ℕ) (shift : Bool) → IsSafe (hid_usage_to_ascii usage shift)
unfolding hid_usage_to_ascii
hid_usage_to_ascii-IsSafe usage shift = search run_rules

pub dump-IsSafe : (buf n : ℕ) → IsSafe (dump buf n)
unfolding dump
dump-IsSafe buf zero = search run_rules
dump-IsSafe buf (suc n) = bind-IsSafe _ _ (load-IsSafe 1 buf) (λ _. dump-IsSafe (buf + 1) n)

pub decode_hid_report-IsSafe : (buf len : ℕ) → IsSafe (decode_hid_report buf len)
unfolding decode_hid_report
decode_hid_report-IsSafe buf len =
    search (run_rules, panics-IsSafe, hid_usage_to_ascii-IsSafe, dump-IsSafe) depth 12

repost-Keeps : (s : ControllerState) → IsValid s → Keeps IsValid (repost s)
unfolding repost
repost-Keeps s v = search (ring_rules, bind-Keeps, if-Keeps, pure-Keeps, advance_intr-IsValid)

noted-IsValid : (s : ControllerState) (trb : Trb) → IsValid s → IsValid (noted s trb)
unfolding noted
noted-IsValid s trb v = search

on_transfer-Keeps :
    (s : ControllerState) (trb : Trb) → IsValid s → Keeps IsValid (on_transfer s trb)
unfolding on_transfer
on_transfer-Keeps s trb v = search (
  ring_rules, bind-Keeps, if-Keeps, pure-Keeps, repost-Keeps, noted-IsValid,
  decode_hid_report-IsSafe,
)

pub portsc-IsSafe : (i : _) (index : ℕ) → IsSafe (portsc i index)
unfolding portsc
portsc-IsSafe i index = search run_rules

on_port_change-Keeps :
    (s : ControllerState) (trb : Trb) → IsValid s → Keeps IsValid (on_port_change s trb)
unfolding on_port_change
on_port_change-Keeps s trb v = search (ring_rules, bind-Keeps, pure-Keeps, portsc-IsSafe)

on_command_completion-Keeps :
    (s : ControllerState) (trb : Trb) → IsValid s → Keeps IsValid (on_command_completion s trb)
unfolding on_command_completion
on_command_completion-Keeps s trb v = search pure-Keeps

handle_event-Keeps :
    (s : ControllerState) (t : ℕ) (trb : Trb) → IsValid s → Keeps IsValid (handle_event s t trb)
unfolding handle_event
handle_event-Keeps s t trb v =
    search
      (if-Keeps, pure-Keeps, on_port_change-Keeps, on_transfer-Keeps, on_command_completion-Keeps)

pub advance_event-IsValid : (s : ControllerState) → IsValid s → IsValid (advance_event s)
unfolding advance_event
advance_event-IsValid s v = record {
  command_len = v.command_len;
  command_index = v.command_index;
  event_len = v.event_len;
  event_index = ground (arith, v.event_len, next_index-below s.event_ring_len s.event_ring_dequeue);
  ep0 = v.ep0;
  intr = v.intr;
}

read_event-IsSafe : (s : ControllerState) → IsSafe (read_event s)
unfolding read_event
read_event-IsSafe s = search (run_rules, panics-IsSafe)

set_wide-IsSafe : (addr v : ℕ) → IsSafe (set_wide addr v)
unfolding set_wide
set_wide-IsSafe addr v = search run_rules

take_event-Keeps : (s : ControllerState) (trb : Trb) → IsValid s → Keeps IsValid (take_event s trb)
unfolding take_event set_erdp
take_event-Keeps s trb v =
    valid_then-Keeps IsValid IsValid _ _ (handle_event-Keeps s (trb_type_of trb) trb v) (λ s' v'.
      bind-Keeps IsValid _ _ (set_wide-IsSafe _ _)
        (λ _. pure-Keeps IsValid _ (advance_event-IsValid s' v')))

-- What the loop hands on
Handed : ControllerState × Bool → Type 0
Handed out = IsValid out.0

poll_loop-Keeps :
    (n : ℕ) (s : ControllerState) (b : Bool) → IsValid s → Keeps Handed (poll_loop n s b)
unfolding poll_loop Handed Ends
poll_loop-Keeps zero s b v = record { at = λ h known. tt }
poll_loop-Keeps (suc n) s b v =
    bind-Keeps Handed (read_event s) _ (read_event-IsSafe s)
      (λ trb. next (is_ready s trb) trb (λ s' v'. poll_loop-Keeps n s' true v'))
  where
    next :
        (ready : Bool) (trb : Trb)
        → ((s' : ControllerState) → IsValid s' → Keeps Handed (poll_loop n s' true))
        → Keeps Handed (elim ready [
          | false ↦ pure (s, b)
          | true ↦ take_event s trb >>= λ s'. poll_loop n s' true
        ])
    next false trb rest = pure-Keeps Handed (s, b) v
    next true trb rest =
        valid_then-Keeps IsValid Handed (take_event s trb) _ (take_event-Keeps s trb v) rest

-- The state that the loop hands on is the one that is kept.
poll_locked-IsSafe : (s : ControllerState) → IsValid s → IsSafe (poll_locked s)
unfolding poll_locked Handed
poll_locked-IsSafe s v = record {
  at = λ h known.
      (valid_then-IsSafe Handed (poll_loop h.patience s false) _
          (poll_loop-Keeps h.patience s false v)
          (λ out good. then-IsSafe _ _ (put_state-IsSafe out.0 good) (pure-IsSafe out.1))).at
        h known;
}

pub poll_events-IsSafe : IsSafe poll_events
unfolding poll_events
poll_events-IsSafe = search (run_rules, poll_locked-IsSafe)

pub take_completion-IsSafe : IsSafe take_completion
unfolding take_completion
take_completion-IsSafe = locked-IsSafe none _ (λ s v.
    some_or-IsSafe s.last_completion_code none _
      (λ code. then-IsSafe _ _ (put_state-IsSafe _ search) (pure-IsSafe _)))

pub wait_for_command_completion-IsSafe : (n : ℕ) → IsSafe (wait_for_command_completion n)
unfolding wait_for_command_completion
wait_for_command_completion-IsSafe n =
    search (run_rules, attempts-IsSafe, poll_events-IsSafe, take_completion-IsSafe)

pub take_transfer-IsSafe : IsSafe take_transfer
unfolding take_transfer
take_transfer-IsSafe = locked-IsSafe none _ (λ s v.
    some_or-IsSafe s.last_transfer_code none _
      (λ code. then-IsSafe _ _ (put_state-IsSafe _ search) (pure-IsSafe _)))

pub take_transfer_code-IsSafe : IsSafe take_transfer_code
unfolding take_transfer_code
take_transfer_code-IsSafe = locked-IsSafe none _ (λ s v.
    some_or-IsSafe s.last_transfer_code none _
      (λ code. then-IsSafe _ _ (put_state-IsSafe _ search) (pure-IsSafe _)))

pub wait_transfer-IsSafe : (take : M (Option ℕ)) → IsSafe take → IsSafe (wait_transfer take)
unfolding wait_transfer
wait_transfer-IsSafe take safe = search (run_rules, attempts-IsSafe, poll_events-IsSafe)
