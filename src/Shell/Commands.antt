-- ===== src/Shell/Commands.antt =====
-- execute_line of shell.rs: what each command sends to the serial port and the screen, and which calls it
-- makes, in order.
use mon_os.Base.Text.{ascii}
use mon_os.Base.Memory.{Memory, bytes_from}
use mon_os.Base.{
  ℕ, zero, suc, ◌+◌, min, Bool, ◌&&◌, Option, none, some, List, [], ◌∷◌, ◌++◌, map, if◌then◌else◌,
  ltb, leb, length, take, drop, saturating_add,
}
use mon_os.Decimal.{print_u64, parse_u64}
use mon_os.Pmm.{Pmm, free_kib}
use mon_os.Ramfs.{Entry, bytes_eq, for_each, find}
use mon_os.Shell.Text.{split1, hex, is_utf8}

-- What the commands do, one call after another: serial::write_str or write_fmt, vga::write_str,
-- vga::write_line, vga::put_char, log_usb_controllers, exit_qemu, sleep_ms up to a tick, `hlt`.
pub data Effect : Type 0 where
  serial screen screen_line : List ℕ → Effect
  put : ℕ → Effect
  scan_usb : Effect
  exit_qemu : ℕ → Effect
  sleep_until : ℕ → Effect
  hlt : Effect

-- What the commands read of the rest of the kernel
pub record Sys : Type 0 where
  pub memory : Memory
  pub initrd_base : ℕ
  pub initrd_len : ℕ
  pub pmm : Pmm
  pub timer_ticks : ℕ
  pub ai_model_addr : ℕ
  pub ai_model_len : ℕ
  pub system_ready : Bool
  pub quantum_us : ℕ

unfoldable pub write_str : List ℕ → List Effect
write_str s = Effect.serial s ∷ Effect.screen s ∷ []

unfoldable pub writeln : List ℕ → List Effect
writeln s = write_str s ++ write_str (13 ∷ 10 ∷ [])

-- `some` of the text that the number prints, or a panic
unfoldable pub with_digits : ℕ → (List ℕ → Option (List Effect)) → Option (List Effect)
with_digits n k = elim (print_u64 n) [ none ↦ none | some ds ↦ k ds ]

unfoldable pub print_num : ℕ → Option (List Effect)
print_num n = with_digits n (λ ds. some (map Effect.put ds))

unfoldable pub writeln_num : List ℕ → ℕ → Option (List Effect)
writeln_num prefix n = with_digits n (λ ds. some (
    Effect.serial (prefix ++ (ds ++ (13 ∷ 10 ∷ [])))
    ∷ Effect.screen prefix
    ∷ (map Effect.put ds ++ (Effect.put b'\n' ∷ []))))

-- One after the other, where both run
unfoldable pub both : Option (List Effect) → Option (List Effect) → Option (List Effect)
both none b = none
both (some a) none = none
both (some a) (some b) = some (a ++ b)

unfoldable pub prompt : List Effect
prompt = write_str (ascii "$ ")

unfoldable pub list_entry : Entry → Option (List Effect)
list_entry e =
    if is_utf8 e.name
    then with_digits e.size (λ ds. some (
        Effect.serial (e.name ++ ((32 ∷ []) ++ (ds ++ (13 ∷ 10 ∷ []))))
        ∷ Effect.screen e.name
        ∷ Effect.put 32
        ∷ (map Effect.put ds ++ (Effect.put b'\n' ∷ []))))
    else some []

unfoldable pub list_entries : List Entry → Option (List Effect)
list_entries [] = some []
list_entries (e ∷ es) = both (list_entry e) (list_entries es)

unfoldable pub ls : Sys → Option (List Effect)
ls sys = elim (for_each sys.memory sys.initrd_base sys.initrd_len) [
  | none ↦ none
  | some es ↦ list_entries es
]

-- The file of a name, or "not found"
unfoldable pub with_file : Sys → List ℕ → (ℕ → ℕ → List Effect) → Option (List Effect)
with_file sys path k = elim (find sys.memory sys.initrd_base sys.initrd_len path) [
  | none ↦ none
  | some none ↦ some (writeln (ascii "not found"))
  | some (some (ptr, size)) ↦ some (k ptr size)
]

unfoldable pub cat : Sys → List ℕ → Option (List Effect)
cat sys [] = some (writeln (ascii "usage: cat <path>"))
cat sys (c ∷ cs) = with_file sys (c ∷ cs) (λ ptr size.
    let bytes = bytes_from sys.memory ptr (min size 1024) in
    if is_utf8 bytes then write_str bytes else writeln (ascii "(binary)"))

-- A row of hex_dump: `n` columns of the hexadecimal part, and the characters
unfoldable pub hex_columns : ℕ → List ℕ → List Effect
hex_columns zero bytes = []
hex_columns (suc n) [] = Effect.serial (ascii "   ") ∷ hex_columns n []
hex_columns (suc n) (b ∷ bs) = Effect.serial (hex 2 b ++ (32 ∷ [])) ∷ hex_columns n bs

unfoldable pub shown : ℕ → Effect
shown ch = Effect.serial ((if leb 32 ch && ltb ch 127 then ch else b'.') ∷ [])

unfoldable pub hex_row : ℕ → List ℕ → List Effect
hex_row off bytes =
    (Effect.serial (hex 8 off ++ ascii "  ") ∷ hex_columns 16 bytes)
    ++ ((Effect.serial (ascii " |") ∷ map shown (take 16 bytes))
        ++ (Effect.serial (ascii "|" ++ (13 ∷ 10 ∷ [])) ∷ []))

-- The `while` loop, from the bytes at `off`; a row for each byte is more than enough.
unfoldable pub hex_rows : ℕ → ℕ → List ℕ → List Effect
hex_rows zero off bytes = []
hex_rows (suc n) off [] = []
hex_rows (suc n) off (b ∷ bs) = hex_row off (b ∷ bs) ++ hex_rows n (off + 16) (drop 16 (b ∷ bs))

unfoldable pub hex_dump : List ℕ → List Effect
hex_dump bytes = hex_rows (length bytes) 0 bytes

-- The length that is asked for; what does not parse is passed over.
unfoldable pub dump_len : List ℕ → ℕ
dump_len [] = 256
dump_len (c ∷ cs) = elim (parse_u64 (c ∷ cs)) [ none ↦ 256 | some v ↦ v ]

unfoldable pub hexdump : Sys → List ℕ → Option (List Effect)
hexdump sys [] = some (writeln (ascii "usage: hexdump <path> [len]"))
hexdump sys (c ∷ cs) =
    let parts = split1 (c ∷ cs) in
    with_file sys parts.0
      (λ ptr size. hex_dump (bytes_from sys.memory ptr (min size (dump_len parts.1))))

unfoldable pub ai : Sys → Option (List Effect)
ai sys =
    let ready = if sys.system_ready then ascii "system_ready=1" else ascii "system_ready=0" in
    both (writeln_num (ascii "ai_model_addr=") sys.ai_model_addr) (
      both (writeln_num (ascii "ai_model_len=") sys.ai_model_len) (
        both (some (Effect.serial (ready ++ (13 ∷ 10 ∷ [])) ∷ Effect.screen_line ready ∷ []))
          (writeln_num (ascii "quantum_us=") sys.quantum_us)))

unfoldable pub sleep : Sys → List ℕ → List Effect
sleep sys [] = writeln (ascii "usage: sleep <ms>")
sleep sys (c ∷ cs) = elim (parse_u64 (c ∷ cs)) [
  | none ↦ []
  | some ms ↦ Effect.sleep_until (saturating_add sys.timer_ticks ms) ∷ []
]

unfoldable pub help : List Effect
help = writeln (
    ascii
      "Commands: help, ls, cat <path>, hexdump <path> [len], mem, uptime, ai, pci, reboot, sleep <ms>, yield")

unfoldable pub run_command : Sys → List ℕ → List ℕ → Option (List Effect)
run_command sys cmd arg =
    if bytes_eq cmd []
    then some []
    else if bytes_eq cmd (ascii "help")
    then some help
    else if bytes_eq cmd (ascii "ls")
    then ls sys
    else if bytes_eq cmd (ascii "cat")
    then cat sys arg
    else if bytes_eq cmd (ascii "hexdump")
    then hexdump sys arg
    else if bytes_eq cmd (ascii "mem")
    then writeln_num (ascii "free_kib=") (free_kib sys.pmm)
    else if bytes_eq cmd (ascii "uptime")
    then writeln_num (ascii "ticks=") sys.timer_ticks
    else if bytes_eq cmd (ascii "ai")
    then ai sys
    else if bytes_eq cmd (ascii "pci")
    then some (Effect.scan_usb ∷ [])
    else if bytes_eq cmd (ascii "reboot")
    then some (Effect.exit_qemu 0 ∷ [])
    else if bytes_eq cmd (ascii "sleep")
    then some (sleep sys arg)
    else if bytes_eq cmd (ascii "yield")
    then some (Effect.hlt ∷ [])
    else some (writeln (ascii "unknown command"))

unfoldable pub execute_line : Sys → List ℕ → Option (List Effect)
execute_line sys line = let parts = split1 line in run_command sys parts.0 parts.1

-- What step does with a line feed, apart from the reset of the line
unfoldable pub answer : Sys → List ℕ → Option (List Effect)
answer sys line = both (execute_line sys line) (some prompt)
