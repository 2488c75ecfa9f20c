-- ===== src/Xhci/Invariant/Rings.antt =====
-- The invariant under the functions that fill the rings.
use mon_os.Base.{ℕ, zero, suc, ◌+◌, ◌-◌, ◌<◌, arith, Bool, inl, inr}
use native.Mathlib.Omega.{mod_fact}
use mon_os.Xhci.Machine.{Trb, ControllerState}
use mon_os.Xhci.Regs.{ring}
use mon_os.Xhci.Rings.{
  zero_from, init_link_trb, post_command, next_index, enqueue_noop_command, enqueue_command_trb,
  enqueue_command_trb_slot, ring_doorbell, ep0_enqueue_trb, ep0_cycle_bit, intr_cycle_bit,
  advance_intr, write_intr, intr_enqueue_trb,
}
use mon_os.Xhci.Invariant.{
  IsValid, RingFits, Keeps, IsSafe, run_rules, locked-IsSafe, then-IsSafe, touch-IsSafe,
  wait_for-IsSafe, attempts-IsSafe,
}

pub ring_doorbell-IsSafe : (slot target : ℕ) → IsSafe (ring_doorbell slot target)
unfolding ring_doorbell ring
ring_doorbell-IsSafe slot target = search run_rules

pub intr_cycle_bit-IsSafe : IsSafe intr_cycle_bit
unfolding intr_cycle_bit
intr_cycle_bit-IsSafe = search run_rules

pub ep0_cycle_bit-IsSafe : IsSafe ep0_cycle_bit
unfolding ep0_cycle_bit
ep0_cycle_bit-IsSafe = search run_rules

pub zero_from-IsSafe : (phys n index : ℕ) → IsSafe (zero_from phys n index)
unfolding zero_from
zero_from-IsSafe phys zero index = search run_rules
zero_from-IsSafe phys (suc n) index =
    then-IsSafe _ _ (touch-IsSafe _) (zero_from-IsSafe phys n (index + 1))

pub init_link_trb-IsSafe :
    (phys n base : ℕ) (toggle : Bool) → IsSafe (init_link_trb phys n base toggle)
unfolding init_link_trb
init_link_trb-IsSafe phys zero base toggle = search run_rules
init_link_trb-IsSafe phys (suc n) base toggle = search run_rules

-- The next index of a ring stays below its link TRB.
pub next_index-below : (usable i : ℕ) → 0 < usable → next_index usable i < usable
unfolding next_index
next_index-below zero i pos = absurd (omega arith)
next_index-below (suc usable) i pos = mod_fact (i + 1) usable

pub posted-IsValid :
    (s : ControllerState) (c : Bool)
    → IsValid s
    → IsValid (record s {
      command_ring_enqueue = next_index (s.command_ring_len - 1) s.command_ring_enqueue;
      command_ring_cycle = c;
    })
posted-IsValid s c v = record {
  command_len = v.command_len;
  command_index =
      ground
        (arith, v.command_len, next_index-below (s.command_ring_len - 1) s.command_ring_enqueue);
  event_len = v.event_len;
  event_index = v.event_index;
  ep0 = v.ep0;
  intr = v.intr;
}

pub post_command-IsSafe : (make : ℕ → Trb) → IsSafe (post_command make)
unfolding post_command
post_command-IsSafe make = search (run_rules, posted-IsValid)

pub enqueue_noop_command-IsSafe : IsSafe enqueue_noop_command
unfolding enqueue_noop_command
enqueue_noop_command-IsSafe = post_command-IsSafe _

pub enqueue_command_trb-IsSafe : (t p s : ℕ) → IsSafe (enqueue_command_trb t p s)
unfolding enqueue_command_trb
enqueue_command_trb-IsSafe t p s = post_command-IsSafe _

pub enqueue_command_trb_slot-IsSafe :
    (t p s slot : ℕ) → IsSafe (enqueue_command_trb_slot t p s slot)
unfolding enqueue_command_trb_slot
enqueue_command_trb_slot-IsSafe t p s slot = post_command-IsSafe _

RingFits-next :
    (size len i : ℕ) → 1 < size → RingFits size len i → RingFits size len (next_index (len - 1) i)
unfolding RingFits
RingFits-next size len i big (inl no_ring) = inl no_ring
RingFits-next size len i big (inr fits) =
    inr (fits.0, ground (arith, fits.0, next_index-below (len - 1) i))

pub ep0_posted-IsValid :
    (s : ControllerState) (c : Bool)
    → IsValid s
    → IsValid
        (record s { ep0_enqueue = next_index (s.ep0_ring_len - 1) s.ep0_enqueue; ep0_cycle = c })
ep0_posted-IsValid s c v = record {
  command_len = v.command_len;
  command_index = v.command_index;
  event_len = v.event_len;
  event_index = v.event_index;
  ep0 = RingFits-next 64 s.ep0_ring_len s.ep0_enqueue (omega arith) v.ep0;
  intr = v.intr;
}

pub advance_intr-IsValid : (s : ControllerState) → IsValid s → IsValid (advance_intr s)
unfolding advance_intr
advance_intr-IsValid s v = record {
  command_len = v.command_len;
  command_index = v.command_index;
  event_len = v.event_len;
  event_index = v.event_index;
  ep0 = v.ep0;
  intr = RingFits-next 128 s.intr_ring_len s.intr_enqueue (omega arith) v.intr;
}

pub ep0_enqueue_trb-IsSafe : (trb : Trb) → IsSafe (ep0_enqueue_trb trb)
unfolding ep0_enqueue_trb
ep0_enqueue_trb-IsSafe trb = search (run_rules, ep0_posted-IsValid)

pub write_intr-IsSafe : (s : ControllerState) (trb : Trb) → IsSafe (write_intr s trb)
unfolding write_intr
write_intr-IsSafe s trb = search run_rules

pub intr_enqueue_trb-IsSafe : (trb : Trb) → IsSafe (intr_enqueue_trb trb)
unfolding intr_enqueue_trb
intr_enqueue_trb-IsSafe trb = search (run_rules, advance_intr-IsValid, write_intr-IsSafe)

pub ruleset ring_rules = (
  run_rules, ring_doorbell-IsSafe, intr_cycle_bit-IsSafe, ep0_cycle_bit-IsSafe, zero_from-IsSafe,
  init_link_trb-IsSafe, enqueue_noop_command-IsSafe, enqueue_command_trb-IsSafe,
  enqueue_command_trb_slot-IsSafe, ep0_enqueue_trb-IsSafe, write_intr-IsSafe,
  intr_enqueue_trb-IsSafe,
)
