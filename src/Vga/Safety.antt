-- ===== src/Vga/Safety.antt =====
-- The cursor stays on the screen, and nothing but the text buffer is ever written.
use mon_os.Base.{
  ℕ, ◌+◌, ◌-◌, ◌*◌, ◌≤◌, ◌<◌, ◌≡◌, refl, ◌∙◌, arith, ◌⊎◌, List, [], ◌∷◌, ◌==◌, ltb, leb, Bool-cases,
  inl, inr,
}
use mon_os.Base.Loops.{rounds, rounds_inv}
use mon_os.Vga.{
  Console, vga_buffer_address, buffer_height, buffer_width, write_entry_at, clear_row, clear,
  copy_up, copy_row_up, scroll, new_line, put_byte, write_byte, write_str_byte, write_str,
  backspace, write_bytes, encode_utf8, put_char,
}

pub record IsValid (s : Console) : Type 0 where
  pub row : s.row_position < buffer_height
  pub column : s.column_position ≤ buffer_width

-- An address that is not in the 25 x 80 cells of two bytes.
abbrev pub IsOutside : ℕ → Type 0
IsOutside a = (a < vga_buffer_address) ⊎ (vga_buffer_address + buffer_height * buffer_width * 2 ≤ a)

abbrev pub Frame : Console → Console → Type 0
Frame s t = (a : ℕ) → IsOutside a → t.memory a ≡ s.memory a

-- From a valid console `s` an operation leads to the valid console `t` and wrote inside the buffer.
pub record IsSafe (s t : Console) : Type 0 where
  pub valid : IsValid t
  pub frame : Frame s t

-- Only cells of the buffer have changed.
pub record Draws (s t : Console) : Type 0 where
  pub row : t.row_position ≡ s.row_position
  pub column : t.column_position ≡ s.column_position
  pub style : t.style ≡ s.style
  frame : Frame s t

Draws-refl : (s : Console) → Draws s s
Draws-refl s = record { row = refl; column = refl; style = refl; frame = λ a out. refl }

Draws-trans : {s t u : Console} → Draws s t → Draws t u → Draws s u
Draws-trans d e = record {
  row = e.row ∙ d.row;
  column = e.column ∙ d.column;
  style = e.style ∙ d.style;
  frame = λ a out. e.frame a out ∙ d.frame a out;
}

pub write_entry_at-Draws :
    (byte style row col : ℕ) (s : Console)
    → row < buffer_height
    → col < buffer_width
    → Draws s (write_entry_at byte style row col s)
unfolding write_entry_at
write_entry_at-Draws byte style row col s r c = record {
  row = refl;
  column = refl;
  style = refl;
  frame = λ a out. ground arith;
}

rounds-Draws :
    (n i j : ℕ) (body : ℕ → Console → Console) (s : Console)
    → i + n ≡ j
    → ((k : ℕ) (t : Console) → i ≤ k → k < j → Draws t (body k t))
    → Draws s (rounds n i body s)
rounds-Draws n i j body s e each =
    rounds_inv (λ _ t. Draws s t) body n i j s e (λ k t lo hi d. Draws-trans d (each k t lo hi))
      (Draws-refl s)

clear_row-Draws : (row : ℕ) (s : Console) → row < buffer_height → Draws s (clear_row row s)
unfolding clear_row
clear_row-Draws row s r =
    rounds-Draws buffer_width 0 buffer_width _ s (omega arith)
      λ k t lo hi. write_entry_at-Draws b' ' t.style row k t r hi

copy_row_up-Draws :
    (row : ℕ) (s : Console) → 1 ≤ row → row < buffer_height → Draws s (copy_row_up row s)
unfolding copy_row_up copy_up
copy_row_up-Draws row s one r =
    rounds-Draws buffer_width 0 buffer_width _ s (omega arith)
      λ k t lo hi. write_entry_at-Draws _ _ (row - 1) k t (omega arith) hi

pub scroll-Draws : (s : Console) → Draws s (scroll s)
unfolding scroll
scroll-Draws s =
    Draws-trans
      (rounds-Draws (buffer_height - 1) 1 buffer_height copy_row_up s (omega arith)
        λ k t lo hi. copy_row_up-Draws k t lo hi)
      (clear_row-Draws (buffer_height - 1) _ (omega arith))

pub IsSafe-trans : {s t u : Console} → IsSafe s t → IsSafe t u → IsSafe s u
IsSafe-trans p q = record { valid = q.valid; frame = λ a out. q.frame a out ∙ p.frame a out }

pub IsSafe-refl : {s : Console} → IsValid s → IsSafe s s
IsSafe-refl v = record { valid = v; frame = λ a out. refl }

pub clear-IsSafe : (s : Console) → IsSafe s (clear s)
unfolding clear
clear-IsSafe s = record {
  valid = omega arith;
  frame =
      (rounds-Draws buffer_height 0 buffer_height clear_row s (omega arith)
        λ k t lo hi. clear_row-Draws k t hi).frame;
}

Draws-IsSafe : {s t : Console} → IsValid s → Draws s t → IsSafe s t
Draws-IsSafe v d = record { valid = omega (arith, d.row, d.column); frame = d.frame }

-- Moving the cursor writes nothing.
move-IsSafe :
    (s : Console) (row col : ℕ)
    → row < buffer_height
    → col ≤ buffer_width
    → IsSafe s (record s { row_position = row; column_position = col })
move-IsSafe s row col r c = record { valid = omega arith; frame = λ a out. refl }

pub new_line-IsSafe : {s : Console} → IsValid s → IsSafe s (new_line s)
unfolding new_line
new_line-IsSafe {s} v = elim (Bool-cases (ltb s.row_position (buffer_height - 1))) [
  | inl above ↦ rw above (move-IsSafe s (s.row_position + 1) 0 (ground arith) (omega arith))
  | inr last ↦ rw last (
      let start = move-IsSafe s s.row_position 0 v.row (omega arith) in
      IsSafe-trans start
        (Draws-IsSafe start.valid (scroll-Draws (record s { column_position = 0 }))))
]

put_byte-IsSafe :
    (byte : ℕ) {s : Console}
    → IsValid s
    → s.column_position < buffer_width
    → IsSafe s (put_byte byte s)
unfolding put_byte
put_byte-IsSafe byte {s} v c =
    let d = write_entry_at-Draws byte s.style s.row_position s.column_position s v.row c in
    record { valid = omega (arith, d.row, v.row); frame = d.frame }

new_line-column : (s : Console) → (new_line s).column_position ≡ 0
unfolding new_line
new_line-column s = elim (Bool-cases (ltb s.row_position (buffer_height - 1))) [
  | inl above ↦ rw above
  | inr last ↦ rw last (scroll-Draws (record s { column_position = 0 })).column
]

pub write_byte-IsSafe : (byte : ℕ) {s : Console} → IsValid s → IsSafe s (write_byte byte s)
unfolding write_byte
write_byte-IsSafe byte {s} v = elim (Bool-cases (leb buffer_width s.column_position)) [
  | inl full ↦
      let moved = new_line-IsSafe v in
      rw full
        (IsSafe-trans moved (put_byte-IsSafe byte moved.valid (rw new_line-column (omega arith))))
  | inr room ↦ rw room (put_byte-IsSafe byte v (ground arith))
]

write_str_byte-IsSafe : (byte : ℕ) {s : Console} → IsValid s → IsSafe s (write_str_byte byte s)
unfolding write_str_byte
write_str_byte-IsSafe byte {s} v = elim (Bool-cases (byte == b'\n')) [
  | inl line ↦ rw line (new_line-IsSafe v)
  | inr other ↦ elim (Bool-cases (byte == b'\r')) [
    | inl return ↦ rw (other, return) (move-IsSafe s s.row_position 0 v.row (omega arith))
    | inr plain ↦ rw (other, plain) (write_byte-IsSafe byte v)
  ]
]

pub write_str-IsSafe : (message : List ℕ) {s : Console} → IsValid s → IsSafe s (write_str message s)
unfolding write_str
write_str-IsSafe [] v = IsSafe-refl v
write_str-IsSafe (byte ∷ rest) v =
    let one = write_str_byte-IsSafe byte v in IsSafe-trans one (write_str-IsSafe rest one.valid)

write_bytes-IsSafe : (bytes : List ℕ) {s : Console} → IsValid s → IsSafe s (write_bytes bytes s)
unfolding write_bytes
write_bytes-IsSafe [] v = IsSafe-refl v
write_bytes-IsSafe (byte ∷ rest) v =
    let one = write_byte-IsSafe byte v in IsSafe-trans one (write_bytes-IsSafe rest one.valid)

pub put_char-IsSafe : (c : ℕ) {s : Console} → IsValid s → IsSafe s (put_char c s)
unfolding put_char
put_char-IsSafe c {s} v = elim (Bool-cases (c == b'\n')) [
  | inl line ↦ rw line (new_line-IsSafe v)
  | inr other ↦ rw other (write_bytes-IsSafe (encode_utf8 c) v)
]

erase-IsSafe :
    (s : Console) (row col : ℕ)
    → row < buffer_height
    → col < buffer_width
    → IsSafe s (
        write_entry_at b' ' s.style row col
          (record s { row_position = row; column_position = col }))
erase-IsSafe s row col r c =
    let moved = move-IsSafe s row col r (omega arith) in
    IsSafe-trans moved (Draws-IsSafe moved.valid (write_entry_at-Draws b' ' s.style row col _ r c))

pub backspace-IsSafe : {s : Console} → IsValid s → IsSafe s (backspace s)
unfolding backspace
backspace-IsSafe {s} v = elim (Bool-cases (ltb 0 s.column_position)) [
  | inl inside ↦ rw inside (erase-IsSafe s s.row_position _ v.row (ground (arith, v.column)))
  | inr start ↦ elim (Bool-cases (ltb 0 s.row_position)) [
    | inl below ↦ rw (start, below) (erase-IsSafe s _ _ (ground (arith, v.row)) (omega arith))
    | inr top ↦ rw (start, top) (IsSafe-refl v)
  ]
]
