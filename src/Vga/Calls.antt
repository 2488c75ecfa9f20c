-- ===== src/Vga/Calls.antt =====
-- Sequences of calls of the functions of vga.rs.
use mon_os.Base.{ℕ, List, [], ◌∷◌, refl, arith}
use mon_os.Vga
use mon_os.Vga.{Console}
use mon_os.Vga.Safety.{
  IsValid, IsSafe, IsSafe-refl, IsSafe-trans, clear-IsSafe, new_line-IsSafe, write_str-IsSafe,
  put_char-IsSafe, backspace-IsSafe,
}

-- A call of one of the public functions of vga.rs; `fmt` on the text that its arguments format to
pub data Call : Type 0 where
  init backspace : Call
  write_str write_line fmt panic : List ℕ → Call
  put_char set_style : ℕ → Call

pub run_call : Call → Console → Console
run_call init s = Vga.clear s
run_call backspace s = Vga.backspace s
run_call (write_str m) s = Vga.write_str m s
run_call (write_line m) s = Vga.write_line m s
run_call (fmt m) s = Vga.write_str m s
run_call (panic m) s = Vga.panic m s
run_call (put_char c) s = Vga.put_char c s
run_call (set_style y) s = Vga.set_style y s

pub run_calls : List Call → Console → Console
run_calls [] s = s
run_calls (c ∷ cs) s = run_calls cs (run_call c s)

run_call-IsSafe : (c : Call) {s : Console} → IsValid s → IsSafe s (run_call c s)
unfolding run_call Vga.write_line Vga.panic Vga.set_style
run_call-IsSafe init {s} v = clear-IsSafe s
run_call-IsSafe backspace v = backspace-IsSafe v
run_call-IsSafe (write_str m) v = write_str-IsSafe m v
run_call-IsSafe (fmt m) v = write_str-IsSafe m v
run_call-IsSafe (write_line m) v =
    let text = write_str-IsSafe m v in IsSafe-trans text (new_line-IsSafe text.valid)
run_call-IsSafe (panic m) {s} v =
    let text = write_str-IsSafe m {s = record s { style = 0x4f }} (omega (arith, v.row)) in
    record { valid = omega (arith, text.valid.row, text.valid.column); frame = text.frame }
run_call-IsSafe (put_char c) v = put_char-IsSafe c v
run_call-IsSafe (set_style y) v = record { valid = omega (arith, v.row); frame = λ a out. refl }

-- Whatever functions of vga.rs are called from a valid console, and with whatever arguments, the
-- cursor ends in rows 0 to 24 and columns 0 to 80, and no address outside the 4000 bytes of the text
-- buffer has changed.
pub run_calls-IsSafe : (cs : List Call) {s : Console} → IsValid s → IsSafe s (run_calls cs s)
unfolding run_calls
run_calls-IsSafe [] v = IsSafe-refl v
run_calls-IsSafe (c ∷ cs) v =
    let one = run_call-IsSafe c v in IsSafe-trans one (run_calls-IsSafe cs one.valid)
