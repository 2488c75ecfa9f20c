-- ===== src/Vga/Scroll.antt =====
-- What a line feed does to the cells of the screen.
use mon_os.Base.{
  ℕ, ◌+◌, ◌-◌, ◌*◌, ◌^◌, ◌≤◌, ◌<◌, ◌≡◌, refl, arith, ◌&&◌, ◌==◌, ltb, if◌then◌else◌, bit_or, u8,
  u16, ◌<<<◌, ◌>>>◌, Bool-cases, inl, inr,
}
use mon_os.Base.Bits.{bit_or_fields}
use mon_os.Base.Loops.{rounds, rounds_inv}
use mon_os.Vga.Safety.{scroll-Draws}
use mon_os.Vga.{
  Console, buffer_ptr, buffer_height, buffer_width, write_entry_at, clear_row, copy_up, copy_row_up,
  scroll, new_line,
}

-- What stands at a row and a column.
abbrev pub cell : Console → ℕ → ℕ → ℕ
cell s row col = s.memory (buffer_ptr row col)

-- A cell with the style in its high byte.
abbrev pub entry : ℕ → ℕ → ℕ
entry style byte = bit_or (u16 (style <<< 8)) byte

pub cell-write_entry_at :
    (byte style row col : ℕ) (s : Console) (r c : ℕ)
    → col < buffer_width
    → c < buffer_width
    → cell (write_entry_at byte style row col s) r c
      ≡ (if row == r && col == c then entry style byte else cell s r c)
unfolding write_entry_at
cell-write_entry_at byte style row col s r c inside inside' = ground arith

-- Splitting an entry into its bytes and joining them gives its 16 bits back.
rejoin : (e : ℕ) → entry (u8 (e >>> 8)) (u8 e) ≡ u16 e
rejoin e = rw shifted (ground (arith, bit_or_fields 8 (u8 (e >>> 8)) (u8 e)))
  where
    shifted : u16 (u8 (e >>> 8) <<< 8) ≡ u8 (e >>> 8) * 2 ^ 8
    shifted = omega arith

abbrev RowMoved : Console → ℕ → ℕ → Console → Type 0
RowMoved s row k t =
    (r c : ℕ)
    → c < buffer_width
    → cell t r c ≡ (if r + 1 == row && ltb c k then u16 (cell s row c) else cell s r c)

copy_row_up-RowMoved :
    (s : Console) (row : ℕ) → 1 ≤ row → RowMoved s row buffer_width (copy_row_up row s)
unfolding copy_row_up copy_up
copy_row_up-RowMoved s row one =
    rounds_inv (RowMoved s row) (copy_up row) buffer_width 0 buffer_width s (omega arith)
      (λ k t lo hi h r c inside. ground (
        arith,
        cell-write_entry_at (u8 (cell t row k)) (u8 (cell t row k >>> 8)) (row - 1) k t r c hi
            inside,
        rejoin (cell t row k),
        h r c inside,
        h row k hi,
      ))
      (λ r c inside. ground arith)

abbrev Moved : Console → ℕ → Console → Type 0
Moved s k t =
    (r c : ℕ)
    → c < buffer_width
    → cell t r c ≡ (if ltb (r + 1) k then u16 (cell s (r + 1) c) else cell s r c)

rows-Moved : (s : Console) → Moved s buffer_height (rounds (buffer_height - 1) 1 copy_row_up s)
rows-Moved s =
    rounds_inv (Moved s) copy_row_up (buffer_height - 1) 1 buffer_height s (omega arith)
      (λ k t lo hi h r c inside.
        let e : k ≡ k - 1 + 1 = omega arith in
        ground (arith, copy_row_up-RowMoved t k lo r c inside, h r c inside, h k c inside, e))
      (λ r c inside. ground arith)

abbrev RowBlank : Console → ℕ → ℕ → Console → Type 0
RowBlank s row k t =
    (t.style ≡ s.style)
    × ((r c : ℕ)
        → c < buffer_width
        → cell t r c ≡ (if r == row && ltb c k then entry s.style b' ' else cell s r c))

clear_row-RowBlank : (s : Console) (row : ℕ) → RowBlank s row buffer_width (clear_row row s)
unfolding clear_row
clear_row-RowBlank s row =
    rounds_inv (RowBlank s row) _ buffer_width 0 buffer_width s (omega arith)
      (λ k t lo hi h. (
        unfold write_entry_at in h.0,
        λ r c inside.
            ground
              (arith, cell-write_entry_at b' ' t.style row k t r c hi inside, h.0, h.1 r c inside),
      ))
      (refl, λ r c inside. ground arith)

rows-style : (s : Console) → (rounds (buffer_height - 1) 1 copy_row_up s).style ≡ s.style
unfolding copy_row_up copy_up write_entry_at
rows-style s =
    rounds_inv (λ _ t. t.style ≡ s.style) copy_row_up (buffer_height - 1) 1 buffer_height s
      (omega arith)
      (λ k t lo hi h.
        rounds_inv (λ _ u. u.style ≡ s.style) (copy_up k) buffer_width 0 buffer_width t
          (omega arith) (λ _ u _ _ g. g) h)
      refl

-- Scrolling moves each row up by one, as far as 16 bits go, and blanks the last row in the
-- current style.
pub scroll_lem :
    (s : Console) (r c : ℕ)
    → r < buffer_height
    → c < buffer_width
    → cell (scroll s) r c ≡ (if r == 24 then entry s.style b' ' else u16 (cell s (r + 1) c))
unfolding scroll
scroll_lem s r c row col = ground (
  arith,
  (clear_row-RowBlank (rounds (buffer_height - 1) 1 copy_row_up s) 24).1 r c col,
  rows-style s,
  rows-Moved s r c col,
)

-- A line feed above the last row moves the cursor to the start of the next row and leaves every cell
-- alone. In the last row the cursor goes to the start of that row, every row moves up by one (the top
-- one is lost) and the last row becomes blank in the current style.
pub new_line_lem :
    (s : Console)
    → s.row_position < buffer_height
    → ((new_line s).column_position ≡ 0)
      × ((new_line s).row_position
          ≡ (if ltb s.row_position 24 then s.row_position + 1 else s.row_position))
      × ((r c : ℕ)
          → r < buffer_height
          → c < buffer_width
          → cell (new_line s) r c ≡ (
              if ltb s.row_position 24
              then cell s r c
              else if r == 24
              then entry s.style b' '
              else u16 (cell s (r + 1) c)))
unfolding new_line
new_line_lem s row = elim (Bool-cases (ltb s.row_position 24)) [
  | inl above ↦ rw above (refl, refl, λ r c _ _. refl)
  | inr last ↦
      let drawn = scroll-Draws (record s { column_position = 0 }) in
      rw last (drawn.column, drawn.row, scroll_lem (record s { column_position = 0 }))
]
