-- ===== src/Idt/Counters.antt =====
-- A sequence of interrupts against the counters and the ends of interrupt of idt.rs.
use mon_os.Base.{
  ℕ, ◌+◌, ◌%◌, ◌^◌, ◌<◌, ◌≡◌, refl, sym, ap, subst, some-injective, ◌∙◌, arith, Option, none, some,
  List, [], ◌∷◌, ◌++◌, append_assoc, append-nil,
}
use mon_os.Idt.{
  InterruptIndex, returns, halted, shuts_down, as_u8, Interrupts, Outcome, notify_end_of_interrupt,
  count_irq, irq_handler, debug_line, on_timer, on_keyboard, handler,
}
use mon_os.Keyboard.{handle_scancode}

-- An interrupt: its index and the byte at the keyboard's port
abbrev pub Arrival : Type 0
Arrival = InterruptIndex × ℕ

-- Interrupts one after another: `none` where one of them does not come back
unfoldable pub serve : List Arrival → Interrupts → Option Interrupts
serve [] s = some s
serve ((index, scancode) ∷ rest) s = elim (handler index scancode s) [
  | returns s' ↦ serve rest s'
  | halted label s' ↦ none
  | shuts_down combo s' ↦ none
]

unfoldable pub vectors : List Arrival → List ℕ
vectors [] = []
vectors ((index, scancode) ∷ rest) = as_u8 index ∷ vectors rest

-- One more of what is counted, when it is counted
unfoldable pub tick : InterruptIndex → ℕ
tick InterruptIndex.timer = 1
tick index = 0

unfoldable pub counted : InterruptIndex → ℕ
counted InterruptIndex.keyboard = 0
counted index = 1

unfoldable pub total : (InterruptIndex → ℕ) → List Arrival → ℕ
total f [] = 0
total f ((index, scancode) ∷ rest) = f index + total f rest

-- What a handler that comes back has done
record Served (index : InterruptIndex) (s s' : Interrupts) : Type 0 where
  told : s'.notified ≡ s.notified ++ (as_u8 index ∷ [])
  ticks : s'.timer_ticks ≡ (s.timer_ticks + tick index) % 2 ^ 64
  irqs : s'.irq_count ≡ (s.irq_count + counted index) % 2 ^ 64

unfoldable ServedBy : InterruptIndex → Interrupts → Outcome → Type 0
ServedBy index s (Outcome.returns s') = Served index s s'
ServedBy index s (Outcome.halted label s') = Unit {0}
ServedBy index s (Outcome.shuts_down combo s') = Unit {0}

-- The two counters are 64-bit numbers.
pub record InRange (s : Interrupts) : Type 0 where
  pub ticks : s.timer_ticks < 2 ^ 64
  pub irqs : s.irq_count < 2 ^ 64

plain-Served :
    (index : InterruptIndex) (s : Interrupts)
    → InRange s
    → tick index ≡ 0
    → counted index ≡ 1
    → ServedBy index s (irq_handler index s)
unfolding ServedBy irq_handler notify_end_of_interrupt count_irq
plain-Served index s r no_tick one = record {
  told = refl;
  ticks = ground (arith, no_tick, r.ticks);
  irqs = rw one refl;
}

on_timer-Served : (s : Interrupts) → ServedBy InterruptIndex.timer s (on_timer s)
unfolding ServedBy on_timer notify_end_of_interrupt count_irq debug_line tick counted
on_timer-Served s = record { told = ground arith; ticks = ground arith; irqs = ground arith }

on_keyboard-Served :
    (scancode : ℕ) (s : Interrupts)
    → InRange s
    → ServedBy InterruptIndex.keyboard s (on_keyboard scancode s)
unfolding on_keyboard ServedBy notify_end_of_interrupt tick counted
on_keyboard-Served scancode s r = ended (handle_scancode scancode s.keys).0
  where
    ended :
        (combo : Option _)
        → ServedBy InterruptIndex.keyboard s (elim combo [
          | none ↦ Outcome.returns (
              notify_end_of_interrupt
                (as_u8 InterruptIndex.keyboard)
                (record s { keys = (handle_scancode scancode s.keys).1 }))
          | some combo ↦ Outcome.shuts_down combo (
              notify_end_of_interrupt
                (as_u8 InterruptIndex.keyboard)
                (record s { keys = (handle_scancode scancode s.keys).1 }))
        ])
    ended none = record {
      told = refl;
      ticks = ground (arith, r.ticks);
      irqs = ground (arith, r.irqs);
    }
    ended (some combo) = tt

handler-Served :
    (index : InterruptIndex) (scancode : ℕ) (s : Interrupts)
    → InRange s
    → ServedBy index s (handler index scancode s)
unfolding handler tick counted
handler-Served InterruptIndex.timer scancode s r = on_timer-Served s
handler-Served InterruptIndex.keyboard scancode s r = on_keyboard-Served scancode s r
handler-Served InterruptIndex.cascade scancode s r =
    plain-Served InterruptIndex.cascade s r refl refl
handler-Served InterruptIndex.serial2 scancode s r =
    plain-Served InterruptIndex.serial2 s r refl refl
handler-Served InterruptIndex.serial1 scancode s r =
    plain-Served InterruptIndex.serial1 s r refl refl
handler-Served InterruptIndex.lpt2 scancode s r = plain-Served InterruptIndex.lpt2 s r refl refl
handler-Served InterruptIndex.floppy scancode s r = plain-Served InterruptIndex.floppy s r refl refl
handler-Served InterruptIndex.lpt1 scancode s r = plain-Served InterruptIndex.lpt1 s r refl refl
handler-Served InterruptIndex.rtc scancode s r = plain-Served InterruptIndex.rtc s r refl refl
handler-Served InterruptIndex.acpi scancode s r = plain-Served InterruptIndex.acpi s r refl refl
handler-Served InterruptIndex.available1 scancode s r =
    plain-Served InterruptIndex.available1 s r refl refl
handler-Served InterruptIndex.available2 scancode s r =
    plain-Served InterruptIndex.available2 s r refl refl
handler-Served InterruptIndex.mouse scancode s r = plain-Served InterruptIndex.mouse s r refl refl
handler-Served InterruptIndex.coprocessor scancode s r =
    plain-Served InterruptIndex.coprocessor s r refl refl
handler-Served InterruptIndex.primary_ata scancode s r =
    plain-Served InterruptIndex.primary_ata s r refl refl
handler-Served InterruptIndex.secondary_ata scancode s r =
    plain-Served InterruptIndex.secondary_ata s r refl refl

-- What interrupts in turn have done
pub record Counted (arrivals : List Arrival) (s s' : Interrupts) : Type 0 where
  pub told : s'.notified ≡ s.notified ++ vectors arrivals
  pub ticks : s'.timer_ticks ≡ (s.timer_ticks + total tick arrivals) % 2 ^ 64
  pub irqs : s'.irq_count ≡ (s.irq_count + total counted arrivals) % 2 ^ 64

-- The first interrupt of a sequence, and the rest
module _ (index : InterruptIndex) {scancode : ℕ} (rest : List Arrival) (s s' : Interrupts) where
  joined :
      (s1 : Interrupts)
      → Served index s s1
      → Counted rest s1 s'
      → Counted ((index, scancode) ∷ rest) s s'
  unfolding vectors total
  joined s1 first later = record {
    told =
        later.told
        ∙ (ap (λ l. l ++ vectors rest) first.told
            ∙ append_assoc s.notified (as_u8 index ∷ []) (vectors rest));
    ticks = ground (arith, first.ticks, later.ticks);
    irqs = ground (arith, first.irqs, later.irqs);
  }

  next :
      ((s1 : Interrupts) → InRange s1 → serve rest s1 ≡ some s' → Counted rest s1 s')
      → (o : Outcome) → ServedBy index s o
      → ◌≡◌ {A = Option Interrupts}
          (elim o [
            | returns s1 ↦ serve rest s1
            | halted label s1 ↦ none
            | shuts_down combo s1 ↦ none
          ])
          (some s')
      → Counted ((index, scancode) ∷ rest) s s'
  unfolding ServedBy
  next later (Outcome.returns s1) first e = joined s1 first (
      later s1 (record { ticks = ground (arith, first.ticks); irqs = ground (arith, first.irqs) })
        e)
  next later (Outcome.halted label s1) first e = absurd (ground arith)
  next later (Outcome.shuts_down combo s1) first e = absurd (ground arith)

-- After interrupts that have all come back, from counters of 64 bits, each of them has been acknowledged
-- once with its own vector, in order; the tick counter has counted those of the timer and the interrupt
-- counter those of every line but the keyboard's, both modulo 2^64.
pub serve-Counted :
    (arrivals : List Arrival) (s s' : Interrupts)
    → InRange s
    → serve arrivals s ≡ some s'
    → Counted arrivals s s'
unfolding serve vectors total
serve-Counted [] s s' r e = subst (Counted [] s) (some-injective e) (record {
  told = sym (append-nil s.notified);
  ticks = ground (arith, r.ticks);
  irqs = ground (arith, r.irqs);
})
serve-Counted ((index, scancode) ∷ rest) s s' r e =
    next index rest s s' (λ s1 r1 e1. serve-Counted rest s1 s' r1 e1) (handler index scancode s)
      (handler-Served index scancode s r) e
