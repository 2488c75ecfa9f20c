-- ===== src/Vga/Tests.antt =====
-- The console on concrete inputs.
use mon_os.Base.{ℕ, ◌+◌, ◌<◌, ◌≡◌, refl, arith, List, [], ◌∷◌, ◌==◌, ◌&&◌, u16, if◌then◌else◌}
use mon_os.Vga.{
  backspace, put_char, Console, new, write_str, write_str_byte, write_byte, put_byte,
  write_entry_at, new_line, buffer_width, buffer_height,
}
use mon_os.Vga.Calls.{Call, run_calls, run_calls-IsSafe}
use mon_os.Vga.Safety.{IsSafe}
use mon_os.Vga.Text.{backspace-put_char}
use mon_os.Vga.Scroll.{cell, entry, new_line_lem}

abbrev zeroed : Console
zeroed = new (λ _. 0)

abbrev last_row : Console
last_row = record zeroed { row_position = 24; memory = λ a. if a == 0xb80a0 then 0x0f41 else 0 }

abbrev hello : List ℕ
hello = b'H' ∷ b'i' ∷ []

hello_run : cell (write_str hello zeroed) 0 1 ≡ 0x0f69
unfolding write_str write_str_byte write_byte put_byte write_entry_at
hello_run = refl

run_calls-IsSafe_example :
    IsSafe last_row (run_calls (Call.write_line hello ∷ Call.backspace ∷ Call.init ∷ []) last_row)
run_calls-IsSafe_example =
    run_calls-IsSafe (Call.write_line hello ∷ Call.backspace ∷ Call.init ∷ []) {s = last_row}
      (omega arith)

new_line_lem_example :
    ((new_line last_row).column_position ≡ 0)
    × ((new_line last_row).row_position ≡ 24)
    × ((r c : ℕ)
        → r < buffer_height
        → c < buffer_width
        → cell (new_line last_row) r c
          ≡ (if r == 24 then entry 0x0f b' ' else u16 (cell last_row (r + 1) c)))
new_line_lem_example = new_line_lem last_row (omega arith)

-- The letter in row 1 is in row 0 after the screen has scrolled.
scrolled : cell (new_line last_row) 0 0 ≡ 0x0f41
scrolled = new_line_lem_example.2 0 0 (omega arith) (omega arith)

backspace-put_char_example :
    let t = backspace (put_char b'a' zeroed) in
    (t.row_position ≡ 0)
    × (t.column_position ≡ 0)
    × ((r c : ℕ)
        → c < buffer_width
        → cell t r c ≡ (if r == 0 && c == 0 then entry 0x0f b' ' else cell zeroed r c))
backspace-put_char_example = backspace-put_char b'a' zeroed (omega arith) refl (omega arith)
