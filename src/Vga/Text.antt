-- ===== src/Vga/Text.antt =====
-- What text and the backspace key do to the screen.
use mon_os.Base.{
  ℕ, zero, suc, ◌+◌, ◌-◌, ◌≤◌, ◌<◌, ◌≡◌, refl, ap, arith, false, ◌&&◌, ◌==◌, ltb, leb,
  if◌then◌else◌, List, [], ◌∷◌, length, get_or, All,
}
use mon_os.Vga.{
  Console, buffer_width, put_byte, write_entry_at, write_byte, write_str_byte, write_str,
  write_bytes, encode_utf8, put_char, backspace,
}
use mon_os.Vga.Scroll.{cell, entry, cell-write_entry_at}

-- A byte that `write_str` does not treat as a line feed or a carriage return.
abbrev pub IsPlain : ℕ → Type 0
IsPlain b = ((b == b'\n') ≡ false) × ((b == b'\r') ≡ false)

-- The bytes `text` were written at `s` and the cursor left behind them, on the same row.
pub record Written (text : List ℕ) (s t : Console) : Type 0 where
  pub row : t.row_position ≡ s.row_position
  pub column : t.column_position ≡ s.column_position + length text
  pub style : t.style ≡ s.style
  pub cells :
      (r c : ℕ)
      → c < buffer_width
      → cell t r c ≡ (
          if r == s.row_position
            && (leb s.column_position c && ltb c (s.column_position + length text))
          then entry s.style (get_or text (c - s.column_position) 0)
          else cell s r c)

write_byte_room :
    (b : ℕ) (s : Console) → s.column_position < buffer_width → write_byte b s ≡ put_byte b s
unfolding write_byte
write_byte_room b s h = ground arith

write_str_byte_plain :
    (b : ℕ) (s : Console)
    → IsPlain b
    → s.column_position < buffer_width
    → write_str_byte b s ≡ put_byte b s
unfolding write_str_byte
write_str_byte_plain b s plain h = rw (plain.0, plain.1) (write_byte_room b s h)

get_or-cons :
    (b : ℕ) (text : List ℕ) (n : ℕ) → 0 < n → get_or (b ∷ text) n 0 ≡ get_or text (n - 1) 0
get_or-cons b text zero h = absurd (omega arith)
get_or-cons b text (suc n) h = ap (λ k. get_or text k 0) (omega arith)

-- One byte in front of what is written next.
Written-cons :
    (b : ℕ) (text : List ℕ) (s t : Console)
    → s.column_position < buffer_width
    → Written text (put_byte b s) t
    → Written (b ∷ text) s t
unfolding put_byte write_entry_at
Written-cons b text s t room w = record {
  row = w.row;
  column = omega (arith, w.column);
  style = w.style;
  cells = λ r c h. ground (
    arith,
    w.cells r c h,
    cell-write_entry_at b s.style s.row_position s.column_position s r c room h,
    get_or-cons b text (c - s.column_position),
    ap (λ n. get_or text n 0) (next c),
  );
}
  where
    next : (c : ℕ) → c - s.column_position - 1 ≡ c - (s.column_position + 1)
    next c = omega arith

-- Text without control characters that fits the rest of the row is written where the cursor stands,
-- in order and in the current style; the cursor moves behind it, and no other cell changes.
write_str-Written :
    (text : List ℕ) (s : Console)
    → All IsPlain text
    → s.column_position + length text ≤ buffer_width
    → Written text s (write_str text s)
unfolding write_str
write_str-Written [] s plain room = record {
  row = refl;
  column = omega arith;
  style = refl;
  cells = λ r c h. ground arith;
}
write_str-Written (b ∷ text) s plain room = rw (write_str_byte_plain b s plain.0 (omega arith)) (
    Written-cons b text s _ (omega arith) (
      write_str-Written text (put_byte b s) plain.1
        (unfold put_byte write_entry_at in omega arith)))

-- The backspace key undoes a printable key: after `put_char` of an ASCII character that is no line feed,
-- in a row that is not full, the cursor is back where it was, the cell is blank, and every other cell is
-- as it was.
pub backspace-put_char :
    (ch : ℕ) (s : Console)
    → ch < 128
    → (ch == b'\n') ≡ false
    → s.column_position < buffer_width
    → let t = backspace (put_char ch s) in
      (t.row_position ≡ s.row_position)
      × (t.column_position ≡ s.column_position)
      × ((r c : ℕ)
          → c < buffer_width
          → cell t r c ≡ (
              if r == s.row_position && c == s.column_position
              then entry s.style b' '
              else cell s r c))
backspace-put_char ch s ascii plain room =
    rw (typed, undone)
      (
        unfold write_entry_at in refl,
        unfold write_entry_at in refl,
        λ r c h. ground (
          arith,
          cell-write_entry_at b' ' s.style s.row_position s.column_position drawn r c room h,
          cell-write_entry_at ch s.style s.row_position s.column_position s r c room h,
        ),
      )
  where
    drawn : Console
    drawn = write_entry_at ch s.style s.row_position s.column_position s

    typed : put_char ch s ≡ put_byte ch s
    typed = unfold put_char encode_utf8 write_bytes in ground (arith, write_byte_room ch s room)

    undone :
        backspace (put_byte ch s)
        ≡ write_entry_at b' ' s.style s.row_position s.column_position drawn
    undone = unfold backspace put_byte write_entry_at in ground arith
