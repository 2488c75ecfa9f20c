-- ===== src/Xhci/Wrappers.antt =====
-- CommandRing and EventRingSegment of xhci.rs, the rings on slices, which the driver itself does not use.
use mon_os.Base.{
  ℕ, suc, ◌+◌, ◌%◌, Bool, true, not, Option, none, some, List, [], ◌∷◌, ◌==◌, if◌then◌else◌, length,
  set,
}
use mon_os.Xhci.Machine.{Trb}

pub record CommandRing : Type 0 where
  pub trbs : List Trb
  pub enqueue : ℕ
  pub cycle_state : Bool

unfoldable pub new : List Trb → CommandRing
new buffer = record { trbs = buffer; enqueue = 0; cycle_state = true }

-- `none` is the panic of `%` on an empty slice.
unfoldable pub enqueue_slot : Trb → CommandRing → Option CommandRing
enqueue_slot trb r = elim r.trbs [
  | [] ↦ none
  | t ∷ ts ↦
      let len = suc (length ts) in
      let next = (r.enqueue + 1) % len in
      some (record {
        trbs = set (t ∷ ts) (r.enqueue % len) trb;
        enqueue = next;
        cycle_state = if next == 0 then not r.cycle_state else r.cycle_state;
      })
]

pub record EventRingSegment : Type 0 where
  pub trbs : List Trb

unfoldable pub new_segment : List Trb → EventRingSegment
new_segment trbs = record { trbs = trbs }
