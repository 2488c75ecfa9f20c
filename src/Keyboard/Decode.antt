-- ===== src/Keyboard/Decode.antt =====
-- The decoder: which keys a scancode delivers, what the modifiers are, when it asks for a shutdown.
use mon_os.Base.{
  ℕ, ◌%◌, ◌<◌, ◌≡◌, refl, arith, Bool, true, not, ◌&&◌, ◌||◌, Option, none, some, List, [], ◌∷◌,
  ◌==◌, ltb, if◌then◌else◌, bit_and, ==_iff, All,
}
use mon_os.Base.Tables.{table, table-lookup}
use mon_os.Keyboard.{Keyboard, key_char, type_char, handle_scancode}
use mon_os.Keyboard.Interleave.{pushes}

code_table : table (λ s. bit_and s 0x7f == s % 128) 256 ≡ true
unfolding table
code_table = refl

abbrev is_press : ℕ → Bool
is_press s = ltb s 128

abbrev same_bool : Bool → Bool → Bool
same_bool a b = if a then b else not b

press_table : table (λ s. same_bool (bit_and s 0x80 == 0) (is_press s)) 256 ≡ true
unfolding table
press_table = refl

pub code_lem : (s : ℕ) → s < 256 → bit_and s 0x7f ≡ s % 128
code_lem s h = (==_iff _ _).0 (table-lookup _ 256 s h code_table)

pub press_lem : (s : ℕ) → s < 256 → (bit_and s 0x80 == 0) ≡ ltb s 128
press_lem s h = ground (
  arith,
  table-lookup (λ (s : ℕ). same_bool (bit_and s 0x80 == 0) (is_press s)) 256 s h press_table,
)

abbrev chars_of : Option ℕ → List ℕ
chars_of none = []
chars_of (some c) = c ∷ []

-- The keys that the press of a code delivers to the shell.
unfoldable pub key_output : Bool → ℕ → List ℕ
key_output shifted code =
    if code == 0x2a || (code == 0x36 || (code == 0x1d || (code == 0x2d || code == 0x2e)))
    then []
    else if code == 0x0e
    then 8 ∷ []
    else if code == 0x0f
    then b' ' ∷ b' ' ∷ b' ' ∷ b' ' ∷ []
    else if code == 0x1c
    then b'\n' ∷ []
    else chars_of (key_char shifted code)

type_char-ring : (o : Option ℕ) (k : Keyboard) → (type_char o k).ring ≡ pushes (chars_of o) k.ring
unfolding type_char pushes
type_char-ring none k = refl
type_char-ring (some c) k = refl

-- A scancode puts the keys of its press into the buffer, in order, and a release or the prefix 0xE0
-- puts nothing.
pub handle_scancode-ring :
    (s : ℕ) (k : Keyboard)
    → s < 256
    → (handle_scancode s k).1.ring
      ≡ pushes (if ltb s 128 then key_output k.shift_held s else []) k.ring
unfolding handle_scancode key_output pushes
handle_scancode-ring s k h =
    ground (arith, code_lem s h, press_lem s h, type_char-ring (key_char k.shift_held s) k)

-- A shutdown is asked for exactly by the press of X or C while Ctrl is held.
handle_scancode-combo :
    (s : ℕ) (k : Keyboard)
    → s < 256
    → (handle_scancode s k).0 ≡ (
        if k.ctrl_held && s == 0x2d
        then some "Ctrl+X"
        else if k.ctrl_held && s == 0x2e
        then some "Ctrl+C"
        else none)
unfolding handle_scancode
handle_scancode-combo s k h = ground (arith, code_lem s h, press_lem s h)

-- Whether a modifier is held, from the history of scancodes alone: the last press or release of one
-- of its keys decides.
unfoldable pub held : Bool → (ℕ → Bool) → List ℕ → Bool
held before is_key [] = before
held before is_key (s ∷ rest) =
    held (if is_key (s % 128) && not (s == 0xe0) then ltb s 128 else before) is_key rest

abbrev pub is_ctrl : ℕ → Bool
is_ctrl code = code == 0x1d

abbrev pub is_shift : ℕ → Bool
is_shift code = code == 0x2a || code == 0x36

-- A sequence of keyboard interrupts.
unfoldable pub interrupts : List ℕ → Keyboard → Keyboard
interrupts [] k = k
interrupts (s ∷ rest) k = interrupts rest (handle_scancode s k).1

modifier_step :
    (s : ℕ) (k : Keyboard)
    → s < 256
    → let k' = (handle_scancode s k).1 in
      (k'.ctrl_held ≡ (if is_ctrl (s % 128) && not (s == 0xe0) then ltb s 128 else k.ctrl_held))
      × (k'.shift_held
          ≡ (if is_shift (s % 128) && not (s == 0xe0) then ltb s 128 else k.shift_held))
unfolding handle_scancode type_char
modifier_step s k h = ground (arith, code_lem s h, press_lem s h)

-- After any sequence of scancodes, Ctrl and Shift are held exactly if the last press or release of
-- one of their keys was a press.
pub modifiers_lem :
    (ss : List ℕ) (k : Keyboard)
    → All (λ s. s < 256) ss
    → ((interrupts ss k).ctrl_held ≡ held k.ctrl_held is_ctrl ss)
      × ((interrupts ss k).shift_held ≡ held k.shift_held is_shift ss)
unfolding interrupts held
modifiers_lem [] k h = (refl, refl)
modifiers_lem (s ∷ ss) k h =
    let step = modifier_step s k h.0 in
    rw (← step.0, ← step.1) (modifiers_lem ss (handle_scancode s k).1 h.1)
