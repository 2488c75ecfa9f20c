-- ===== src/Idt/Tests.antt =====
-- Interrupts of idt.rs run on a state with counters of zero.
use mon_os.Base.{ℕ, ◌≡◌, ◌==◌, if◌then◌else◌, refl, arith, Option, false, none, some, List, [], ◌∷◌}
use mon_os.Keyboard.{fresh_ring, stored, handle_scancode, handle_code}
use mon_os.Vga
use mon_os.Idt.{
  InterruptIndex, Interrupts, handler, irq_handler, on_timer, on_keyboard, count_irq,
  notify_end_of_interrupt, debug_line, as_u8,
}
use mon_os.Idt.Table
use mon_os.Idt.Table.{Gate, missing, changed, vector_at}
use mon_os.Idt.Dispatch.{Dispatches, init-Dispatches}
use mon_os.Idt.Lines.{ChainedPics, vector_of_line, init_pics, Reaches, raised-Reaches}
use mon_os.Idt.Counters.{Arrival, serve, Counted, serve-Counted}

abbrev quiet : Interrupts
quiet = record {
  irq_count = 0;
  page_faults = 0;
  timer_ticks = 999;
  keys = record {
    ctrl_held = false;
    shift_held = false;
    ring = fresh_ring stored;
    console = Vga.new (λ a. 0);
  };
  notified = [];
  debug = [];
}

-- The tick that logs, a key that is released, and the clock
abbrev arrivals : List Arrival
arrivals =
    (InterruptIndex.timer, 0) ∷ (InterruptIndex.keyboard, 0x9e) ∷ (InterruptIndex.rtc, 0) ∷ []

abbrev left : Option Interrupts → Interrupts
left none = quiet
left (some s) = s

serve-Counted_example : Counted arrivals quiet (left (serve arrivals quiet))
unfolding serve handler irq_handler on_timer on_keyboard count_irq notify_end_of_interrupt
    debug_line as_u8 handle_scancode handle_code
serve-Counted_example =
    serve-Counted arrivals quiet (left (serve arrivals quiet))
      (record { ticks = ground arith; irqs = ground arith }) refl

-- A table as the function from vectors to entries that it is for the processor
abbrev function_table : Table.Crate
function_table = record {
  Table = ℕ → Gate;
  new = λ v. missing;
  apply = λ s x t v. if vector_at s == v then changed x (t v) else t v;
  vector = λ s. vector_at s;
  gate = λ t v. t v;
  vector_lem = λ s. refl;
  gate-new = λ v. refl;
  gate-apply = λ s x t v. refl;
}

init-Dispatches_example : Dispatches (function_table.gate (Table.init function_table))
init-Dispatches_example = init-Dispatches function_table

-- The two offsets and the two masks
abbrev mask_pics : ChainedPics
mask_pics = record {
  Pics = (ℕ × ℕ) × (ℕ × ℕ);
  new = λ offset1 offset2. ((offset1, offset2), (0xff, 0xff));
  initialize = λ p. p;
  write_masks = λ mask1 mask2 p. (p.0, (mask1, mask2));
  raised = λ p n. vector_of_line p.0.0 p.0.1 p.1.0 p.1.1 n;
  raised_lem = λ offset1 offset2 mask1 mask2 n h. refl;
}

keyboard_line : mask_pics.raised (init_pics mask_pics) 1 ≡ some 33
unfolding init_pics
keyboard_line = refl

raised-Reaches_example : Reaches (function_table.gate (Table.init function_table)) 1 33
raised-Reaches_example = raised-Reaches mask_pics function_table 1 33 (omega arith) keyboard_line
