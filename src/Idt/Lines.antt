-- ===== src/Idt/Lines.antt =====
-- init of kernel/src/pic.rs: which lines can interrupt the processor, and what they reach in the table of
-- idt.rs. The pair of controllers is the pic8259 crate's: a parameter with what the code relies on of it.
use mon_os.Base.{
  ℕ, ◌+◌, ◌-◌, ◌/◌, ◌%◌, ◌^◌, ◌<◌, ◌≡◌, refl, ◌∙◌, ap, sym, arith, Bool, true, Option, none, some,
  ◌==◌, ltb, if◌then◌else◌, inl, inr, some-injective, suc, ◌||◌, Bool-cases,
}
use mon_os.Base.Tables.{table, table-lookup}
use mon_os.Idt.{InterruptIndex, as_u8, pic_1_offset, pic_2_offset}
use mon_os.Idt.Table.{Handler, Gate, init}
use mon_os.Idt.Table
use mon_os.Idt.Dispatch.{kernel_gate, Dispatches, init-Dispatches}

-- Bit `n` of a mask
abbrev pub masked : ℕ → ℕ → Bool
masked mask n = (mask / 2 ^ n) % 2 == 1

-- The vector of a line: the second controller's go through the first one's line 2.
abbrev pub vector_of_line : ℕ → ℕ → ℕ → ℕ → ℕ → Option ℕ
vector_of_line offset1 offset2 mask1 mask2 n =
    if ltb n 8
    then (if masked mask1 n then none else some (offset1 + n))
    else if masked mask1 2 || masked mask2 (n - 8)
    then none
    else some (offset2 + (n - 8))

-- The crate: `raised` is the vector that a line interrupts the processor with.
pub record ChainedPics : Type 1 where
  pub Pics : Type 0
  pub new : ℕ → ℕ → Pics
  pub initialize : Pics → Pics
  pub write_masks : ℕ → ℕ → Pics → Pics
  pub raised : Pics → ℕ → Option ℕ
  pub raised_lem :
      (offset1 offset2 mask1 mask2 n : ℕ)
      → n < 16
      → raised (write_masks mask1 mask2 (initialize (new offset1 offset2))) n
        ≡ vector_of_line offset1 offset2 mask1 mask2 n

-- init of pic.rs, of the static PICS
unfoldable pub init_pics : (p : ChainedPics) → p.Pics
init_pics p = p.write_masks 0xfc 0xff (p.initialize (p.new pic_1_offset pic_2_offset))

-- The timer and the keyboard
unfoldable pub vector_that_comes : ℕ → Option ℕ
vector_that_comes n =
    if n == 0
    then some (as_u8 InterruptIndex.timer)
    else if n == 1
    then some (as_u8 InterruptIndex.keyboard)
    else none

number : Option ℕ → ℕ
number none = 0
number (some v) = suc v

number-injective : (a b : Option ℕ) → number a ≡ number b → a ≡ b
unfolding number
number-injective none none h = refl
number-injective none (some v) h = absurd (omega (arith, h))
number-injective (some v) none h = absurd (omega (arith, h))
number-injective (some v) (some w) h = ap some (omega (arith, h))

abbrev same_vector : ℕ → Bool
same_vector n =
    number (vector_of_line pic_1_offset pic_2_offset 0xfc 0xff n) == number (vector_that_comes n)

same_table : table same_vector 16 ≡ true
unfolding table number vector_that_comes as_u8
same_table = refl

raised-init_pics :
    (p : ChainedPics) (n : ℕ) → n < 16 → p.raised (init_pics p) n ≡ vector_that_comes n
unfolding init_pics
raised-init_pics p n h =
    p.raised_lem pic_1_offset pic_2_offset 0xfc 0xff n h
    ∙ number-injective _ _ (ground (arith, table-lookup same_vector 16 n h same_table))

-- A line reaches the timer's handler or the keyboard's, and is theirs.
pub data Reaches (gate : ℕ → Gate) : ℕ → ℕ → Type 0 where
  timer :
      {n v : ℕ} → n ≡ 0 → gate v ≡ kernel_gate (Handler.irq InterruptIndex.timer) → Reaches gate n v
  keyboard :
      {n v : ℕ}
      → n ≡ 1
      → gate v ≡ kernel_gate (Handler.irq InterruptIndex.keyboard)
      → Reaches gate n v

vector_that_comes-Reaches :
    (gate : ℕ → Gate) (n v : ℕ) → Dispatches gate → vector_that_comes n ≡ some v → Reaches gate n v
unfolding vector_that_comes
vector_that_comes-Reaches gate n v d e = elim (Bool-cases (n == 0)) [
  | inl first ↦
      let is : as_u8 InterruptIndex.timer ≡ v = some-injective (rw first at e) in
      Reaches.timer (ground (arith, first)) (ap gate (sym is) ∙ d.irq InterruptIndex.timer)
  | inr later ↦ elim (Bool-cases (n == 1)) [
    | inl second ↦
        let is : as_u8 InterruptIndex.keyboard ≡ v = some-injective (rw (later, second) at e) in
        Reaches.keyboard (ground (arith, second)) (ap gate (sym is) ∙ d.irq InterruptIndex.keyboard)
    | inr neither ↦ absurd (ground (arith, e, later, neither))
  ]
]

-- After the init of both, a line of the interrupt controllers that interrupts the processor is the
-- timer's line 0 or the keyboard's line 1, and its vector reaches the timer's handler or the keyboard's.
pub raised-Reaches :
    (p : ChainedPics) (c : Table.Crate) (n v : ℕ)
    → n < 16
    → p.raised (init_pics p) n ≡ some v
    → Reaches (c.gate (init c)) n v
raised-Reaches p c n v h e =
    vector_that_comes-Reaches (c.gate (init c)) n v (init-Dispatches c)
      (sym (raised-init_pics p n h) ∙ e)
