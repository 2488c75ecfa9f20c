-- ===== src/Shell/Reach.antt =====
-- What the keyboard lets a user ask of the shell: handle_scancode of keyboard.rs, run by interrupts, with
-- the loop of step of shell.rs, of which it feeds the characters.
use mon_os.Base.Text.{ascii}
use mon_os.Base.{
  ℕ, ◌≡◌, refl, arith, true, false, ◌&&◌, Option, none, some, List, [], ◌∷◌, reverse, ◌==◌, ltb,
  leb, if◌then◌else◌, length, All, All-append, Bool-cases, inl, inr, subst,
}
use mon_os.Keyboard.{Keyboard, fresh_ring, stored, handle_scancode, poll_char}
use mon_os.Keyboard.Deaf.{
  Input, IsScancode, IsTypable, IsClean, Arrives, scan-IsClean, poll-IsClean, fresh_ring-IsClean,
}
use mon_os.Ramfs.{bytes_eq}
use mon_os.Pmm.{free_kib}
use mathlib.Core.List.{reverse-append}
use mon_os.Shell.{Line, text, clear_line, on_char, executed}
use mon_os.Shell.Text.{is_white, trim_start, trim, cut, split1}
use mon_os.Shell.Commands.{
  Sys, Effect, run_command, execute_line, writeln, help, ls, ai, sleep, writeln_num,
}
use mon_os.Shell.Editor.{IsValid, without_last, key, on_char-IsValid, text-edit}

-- The texts that the shell executes in a history of interrupts with a scancode and of rounds of the loop of
-- step, in order
unfoldable pub session : List Input → Keyboard → Line → List (List ℕ)
session [] k s = []
session (Input.scan c ∷ rest) k s = session rest (handle_scancode c k).1 s
session (Input.poll ∷ rest) k s =
    let (got, r) = poll_char k.ring in
    elim got [
      | none ↦ session rest (record k { ring = r }) s
      | some c ↦ executed (on_char c s).1 (session rest (record k { ring = r }) (on_char c s).0)
    ]

abbrev AllArrive : List ℕ → Type 0
AllArrive = All Arrives

without_last-AllArrive : (cs : List ℕ) → AllArrive cs → AllArrive (without_last cs)
unfolding without_last
without_last-AllArrive [] all = tt
without_last-AllArrive (c ∷ []) all = tt
without_last-AllArrive (c ∷ d ∷ rest) all = (all.0, without_last-AllArrive (d ∷ rest) all.1)

key-AllArrive : (c : ℕ) (cs : List ℕ) → Arrives c → AllArrive cs → AllArrive (key c cs)
unfolding key
key-AllArrive c cs h all = elim (Bool-cases (c == 8)) [
  | inl back ↦ rw back (without_last-AllArrive cs all)
  | inr other ↦ elim (Bool-cases (leb 32 c && ltb c 127)) [
    | inr ignored ↦ rw (other, ignored) all
    | inl printable ↦ elim (Bool-cases (ltb (length cs) 256)) [
      | inl room ↦ rw (other, printable, room) (All-append Arrives cs (c ∷ []) all (h, tt))
      | inr full ↦ rw (other, printable, full) all
    ]
  ]
]

trim_start-AllArrive : (cs : List ℕ) → AllArrive cs → AllArrive (trim_start cs)
unfolding trim_start
trim_start-AllArrive [] all = tt
trim_start-AllArrive (c ∷ cs) all = elim (Bool-cases (is_white c)) [
  | inl white ↦ rw white (trim_start-AllArrive cs all.1)
  | inr black ↦ rw black all
]

All-reverse : (cs : List ℕ) → AllArrive cs → AllArrive (reverse cs)
All-reverse [] all = tt
All-reverse (c ∷ cs) all =
    rw (reverse-append (c ∷ []) cs)
      (All-append Arrives (reverse cs) (c ∷ []) (All-reverse cs all.1) (all.0, tt))

trim-AllArrive : (cs : List ℕ) → AllArrive cs → AllArrive (trim cs)
unfolding trim
trim-AllArrive cs all =
    All-reverse _ (trim_start-AllArrive _ (All-reverse _ (trim_start-AllArrive cs all)))

FrontArrives : Option (List ℕ × List ℕ) → Type 0
FrontArrives none = Unit {0}
FrontArrives (some (front, back)) = AllArrive front

cut-FrontArrives : (cs : List ℕ) → AllArrive cs → FrontArrives (cut cs)
unfolding cut FrontArrives
cut-FrontArrives [] all = tt
cut-FrontArrives (c ∷ cs) all = elim (Bool-cases (c == 32)) [
  | inl space ↦ rw space tt
  | inr other ↦ rw other (extended (cut cs) (cut-FrontArrives cs all.1))
]
  where
    extended :
        (o : Option (List ℕ × List ℕ))
        → FrontArrives o
        → FrontArrives (elim o [ none ↦ none | some (front, back) ↦ some (c ∷ front, back) ])
    extended none h = tt
    extended (some (front, back)) h = (all.0, h)

split1-AllArrive : (cs : List ℕ) → AllArrive cs → AllArrive (split1 cs).0
unfolding split1 FrontArrives
split1-AllArrive cs all = first (cut (trim cs)) (cut-FrontArrives _ (trim-AllArrive cs all))
  where
    first :
        (o : Option (List ℕ × List ℕ))
        → FrontArrives o
        → AllArrive (
            let parts : List ℕ × List ℕ = elim o [
              | none ↦ (trim cs, [])
              | some (front, back) ↦ (front, trim back)
            ] in
            parts.0)
    first none h = trim-AllArrive cs all
    first (some (front, back)) h = h

eq_of_bytes_eq : (a b : List ℕ) → bytes_eq a b ≡ true → a ≡ b
unfolding bytes_eq
eq_of_bytes_eq [] [] h = refl
eq_of_bytes_eq [] (d ∷ ds) h = cc
eq_of_bytes_eq (c ∷ cs) [] h = cc
eq_of_bytes_eq (c ∷ cs) (d ∷ ds) h = ground (arith, eq_of_bytes_eq cs ds)

-- A name that cannot be typed is not the name of a command that was.
untypable : (cmd name : List ℕ) → AllArrive cmd → (AllArrive name → ⊥) → bytes_eq cmd name ≡ false
untypable cmd name typed untyped = elim (Bool-cases (bytes_eq cmd name)) [
  | inl same ↦ absurd (untyped (subst AllArrive (eq_of_bytes_eq cmd name same) typed))
  | inr other ↦ other
]

-- The shell without cat, hexdump and pci
unfoldable pub without_files_and_pci : Sys → List ℕ → List ℕ → Option (List Effect)
without_files_and_pci sys cmd arg =
    if bytes_eq cmd []
    then some []
    else if bytes_eq cmd (ascii "help")
    then some help
    else if bytes_eq cmd (ascii "ls")
    then ls sys
    else if bytes_eq cmd (ascii "mem")
    then writeln_num (ascii "free_kib=") (free_kib sys.pmm)
    else if bytes_eq cmd (ascii "uptime")
    then writeln_num (ascii "ticks=") sys.timer_ticks
    else if bytes_eq cmd (ascii "ai")
    then ai sys
    else if bytes_eq cmd (ascii "reboot")
    then some (Effect.exit_qemu 0 ∷ [])
    else if bytes_eq cmd (ascii "sleep")
    then some (sleep sys arg)
    else if bytes_eq cmd (ascii "yield")
    then some (Effect.hlt ∷ [])
    else some (writeln (ascii "unknown command"))

unfoldable pub Same : Sys → List ℕ → Type 0
Same sys line = execute_line sys line ≡ without_files_and_pci sys (split1 line).0 (split1 line).1

run_command_typed :
    (sys : Sys) (cmd arg : List ℕ)
    → AllArrive cmd
    → run_command sys cmd arg ≡ without_files_and_pci sys cmd arg
unfolding run_command without_files_and_pci
run_command_typed sys cmd arg typed =
    rw
      (
        untypable cmd (ascii "cat") typed (λ h. cc),
        untypable cmd (ascii "hexdump") typed (λ h. cc),
        untypable cmd (ascii "pci") typed (λ h. cc),
      )
      refl

AllArrive-Same : (sys : Sys) (line : List ℕ) → AllArrive line → Same sys line
unfolding Same execute_line
AllArrive-Same sys line typed =
    run_command_typed sys (split1 line).0 (split1 line).1 (split1-AllArrive line typed)

-- The line after a character that arrives, and the text that it has ended
on_char-AllArrive :
    (c : ℕ) (s : Line)
    → IsValid s
    → Arrives c
    → AllArrive (text s)
    → AllArrive (text (on_char c s).0)
unfolding on_char clear_line text
on_char-AllArrive c s v h all = elim (Bool-cases (c == b'\n')) [
  | inl line_feed ↦ rw line_feed tt
  | inr other ↦ rw (other, text-edit c s v) (key-AllArrive c (text s) h all)
]

executed-Same :
    (sys : Sys) (c : ℕ) (s : Line) (texts : List (List ℕ))
    → AllArrive (text s)
    → All (Same sys) texts
    → All (Same sys) (executed (on_char c s).1 texts)
unfolding on_char executed
executed-Same sys c s texts all later = elim (Bool-cases (c == b'\n')) [
  | inl line_feed ↦ rw line_feed (AllArrive-Same sys (text s) all, later)
  | inr other ↦ rw other later
]

session-Same_from :
    (sys : Sys) (is : List Input) (k : Keyboard) (s : Line)
    → All IsScancode is
    → IsClean k.ring
    → IsValid s
    → AllArrive (text s)
    → All (Same sys) (session is k s)
unfolding session
session-Same_from sys [] k s h c v all = tt
session-Same_from sys (Input.scan b ∷ rest) k s h c v all =
    session-Same_from sys rest (handle_scancode b k).1 s h.1 (scan-IsClean b k h.0 c) v all
session-Same_from sys (Input.poll ∷ rest) k s h c v all =
    let polled = poll-IsClean k.ring c in
    let k' : Keyboard = record k { ring = (poll_char k.ring).1 } in
    go (poll_char k.ring).0 polled.typable (session-Same_from sys rest k' s h.1 polled.clean v all)
      (λ b typed.
        session-Same_from sys rest k' (on_char b s).0 h.1 polled.clean (on_char-IsValid b s v)
          (on_char-AllArrive b s v typed all))
  where
    k' : Keyboard
    k' = record k { ring = (poll_char k.ring).1 }

    go :
        (got : Option ℕ)
        → IsTypable got
        → All (Same sys) (session rest k' s)
        → ((b : ℕ) → Arrives b → All (Same sys) (session rest k' (on_char b s).0))
        → All (Same sys) (elim got [
          | none ↦ session rest k' s
          | some b ↦ executed (on_char b s).1 (session rest k' (on_char b s).0)
        ])
    go none typed waits takes = waits
    go (some b) typed waits takes = executed-Same sys b s _ all (takes b typed)

-- In a build that keeps KBUF as an array, from an empty key buffer and an empty line of 256 bytes,
-- whatever keys are pressed and released, with whatever modifiers and between whatever rounds of the
-- shell's loop, each line that the shell executes does what it would do in a shell without the commands
-- cat, hexdump and pci: nobody can give these commands.
pub session-Same :
    (sys : Sys) (is : List Input) (k : Keyboard) (s : Line)
    → k.ring ≡ fresh_ring stored
    → IsValid s
    → s.len ≡ 0
    → All IsScancode is
    → All (Same sys) (session is k s)
unfolding text
session-Same sys is k s fresh v empty h =
    session-Same_from sys is k s h (rw fresh fresh_ring-IsClean) v (rw empty tt)
