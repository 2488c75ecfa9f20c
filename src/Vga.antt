-- ===== src/Vga.antt =====
-- kernel/src/vga.rs: the text console. The state is the `Console` and the memory that it writes; the
-- functions on `CONSOLE` are those of the console, since one caller holds its lock at a time.
pub mod Safety
pub mod Calls
pub mod Scroll
pub mod Text
mod Tests
use mon_os.Base.{
  ℕ, zero, suc, ◌+◌, ◌-◌, ◌*◌, ◌/◌, ◌%◌, ◌^◌, List, [], ◌∷◌, ◌==◌, ltb, leb, if◌then◌else◌, bit_or,
  u8, u16, ◌<<<◌, ◌>>>◌,
}
use mon_os.Base.Loops.{update, rounds}

abbrev pub vga_buffer_address : ℕ
vga_buffer_address = 0xb8000

abbrev pub buffer_height : ℕ
buffer_height = 25

abbrev pub buffer_width : ℕ
buffer_width = 80

abbrev pub default_style : ℕ
default_style = 0x0f

-- `memory` is what stands in the 16-bit cell at each address.
pub record Console : Type 0 where
  pub column_position : ℕ
  pub row_position : ℕ
  pub style : ℕ
  pub memory : ℕ → ℕ

-- `Console::new()`, over the memory that the machine starts with
abbrev pub new : (ℕ → ℕ) → Console
new mem = record { column_position = 0; row_position = 0; style = default_style; memory = mem }

abbrev pub buffer_ptr : ℕ → ℕ → ℕ
buffer_ptr row col = vga_buffer_address + (row * buffer_width + col) * 2

unfoldable pub write_entry_at : ℕ → ℕ → ℕ → ℕ → Console → Console
write_entry_at byte style row col s = record s {
  memory = update s.memory (buffer_ptr row col) (bit_or (u16 (style <<< 8)) byte);
}

abbrev pub read_entry_at : Console → ℕ → ℕ → ℕ
read_entry_at s row col = s.memory (buffer_ptr row col)

-- The inner and the outer loop of `clear`
unfoldable pub clear_row : ℕ → Console → Console
clear_row row = rounds buffer_width 0 (λ col s. write_entry_at b' ' s.style row col s)

unfoldable pub clear : Console → Console
clear s = record (rounds buffer_height 0 clear_row s) { column_position = 0; row_position = 0 }

-- One round of the inner loop that scrolls, the inner loop, and the outer loop
unfoldable pub copy_up : ℕ → ℕ → Console → Console
copy_up row col s =
    let entry = read_entry_at s row col in
    write_entry_at (u8 entry) (u8 (entry >>> 8)) (row - 1) col s

unfoldable pub copy_row_up : ℕ → Console → Console
copy_row_up row = rounds buffer_width 0 (copy_up row)

unfoldable pub scroll : Console → Console
unfolding clear_row
scroll s = clear_row (buffer_height - 1) (rounds (buffer_height - 1) 1 copy_row_up s)

unfoldable pub new_line : Console → Console
new_line s =
    if ltb s.row_position (buffer_height - 1)
    then record s { column_position = 0; row_position = s.row_position + 1 }
    else scroll (record s { column_position = 0 })

unfoldable pub put_byte : ℕ → Console → Console
put_byte byte s =
    let s' = write_entry_at byte s.style s.row_position s.column_position s in
    record s' { column_position = s.column_position + 1 }

unfoldable pub write_byte : ℕ → Console → Console
unfolding put_byte
write_byte byte s =
    if leb buffer_width s.column_position then put_byte byte (new_line s) else put_byte byte s

-- `Console::write_str` on the bytes of the message
unfoldable pub write_str_byte : ℕ → Console → Console
write_str_byte byte s =
    if byte == b'\n'
    then new_line s
    else if byte == b'\r'
    then record s { column_position = 0 }
    else write_byte byte s

unfoldable pub write_str : List ℕ → Console → Console
write_str [] s = s
write_str (byte ∷ rest) s = write_str rest (write_str_byte byte s)

unfoldable pub backspace : Console → Console
backspace s =
    if ltb 0 s.column_position
    then write_entry_at b' ' s.style s.row_position (s.column_position - 1)
        (record s { column_position = s.column_position - 1 })
    else if ltb 0 s.row_position
    then write_entry_at b' ' s.style (s.row_position - 1) (buffer_width - 1)
        (record s { row_position = s.row_position - 1; column_position = buffer_width - 1 })
    else s

-- `char::encode_utf8`
unfoldable pub encode_utf8 : ℕ → List ℕ
encode_utf8 c =
    if ltb c 0x80
    then c ∷ []
    else if ltb c 0x800
    then (0xc0 + c / 64) ∷ (0x80 + c % 64) ∷ []
    else if ltb c 0x1_0000
    then (0xe0 + c / 4096) ∷ (0x80 + c / 64 % 64) ∷ (0x80 + c % 64) ∷ []
    else (0xf0 + c / 262144) ∷ (0x80 + c / 4096 % 64) ∷ (0x80 + c / 64 % 64) ∷ (0x80 + c % 64) ∷ []

unfoldable pub write_bytes : List ℕ → Console → Console
write_bytes [] s = s
write_bytes (byte ∷ rest) s = write_bytes rest (write_byte byte s)

-- `write_char`, which `put_char` calls
unfoldable pub put_char : ℕ → Console → Console
put_char c s = if c == b'\n' then new_line s else write_bytes (encode_utf8 c) s

unfoldable pub write_line : List ℕ → Console → Console
write_line message s = new_line (write_str message s)

unfoldable pub set_style : ℕ → Console → Console
set_style style s = record s { style = style }

-- `panic` on the bytes that `writeln!` formats
unfoldable pub panic : List ℕ → Console → Console
panic message s = record (write_str message (record s { style = 0x4f })) { style = s.style }
