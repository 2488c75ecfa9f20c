-- ===== src/Idt/Syscall.antt =====
-- kernel/src/syscall.rs: what the entry of a system call and init send to the serial port.
use mon_os.Base.Text.{ascii}
use mon_os.Base.{ℕ, List, [], ◌∷◌, ◌++◌}
use mon_os.Shell.Text.{hex}

-- syscall_entry, with the stack pointer in `{:#018x}`
unfoldable pub syscall_entry : ℕ → List ℕ
syscall_entry stack_pointer =
    ascii "[syscall] entry"
    ++ (13 ∷ 10 ∷ [])
    ++ (ascii "  user_stack: 0x" ++ (hex 16 stack_pointer ++ (13 ∷ 10 ∷ [])))

unfoldable pub init : List ℕ
init = ascii "syscall: ready" ++ (13 ∷ 10 ∷ [])
