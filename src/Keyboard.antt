-- ===== src/Keyboard.antt =====
-- kernel/src/keyboard.rs: the key buffer between the interrupt handler and the shell, the scancode
-- maps, and the decoder. The atomics, the buffer and the echo on the console are the state.
pub mod Maps
pub mod Queue
pub mod Refine
pub mod Interleave
pub mod Decode
pub mod Deaf
mod Tests
use Prim.Native.String.{String}
use Maps.{map_normal, map_shift}
use mon_os.Base.{
  ℕ, ◌+◌, ◌%◌, Bool, true, false, not, ◌&&◌, ◌||◌, Option, none, some, List, [], ◌∷◌, ◌==◌,
  if◌then◌else◌, bit_and, get_elem?, get_or, set, replicate,
}
use mon_os.Vga
use mon_os.Vga.{Console}

abbrev pub kbuf_cap : ℕ
kbuf_cap = 256

-- `KBUF`, `KHEAD` and `KTAIL`. KBUF is a `static` that is not `mut`, and the stores to it go through a cast
-- pointer, which the language leaves undefined: a build may give back what was stored, or take each load
-- for the zero that KBUF begins with. So `kbuf` holds what was stored, and `seen` is what a load at an index
-- gives in the build at hand, a parameter that no call changes.
pub record KeyRing : Type 0 where
  pub seen : List ℕ → ℕ → ℕ
  pub kbuf : List ℕ
  pub khead : ℕ
  pub ktail : ℕ

unfoldable pub kbuf_push : ℕ → KeyRing → KeyRing
kbuf_push b r =
    let next = (r.khead + 1) % kbuf_cap in
    if next == r.ktail then r else record r { kbuf = set r.kbuf r.khead b; khead = next }

unfoldable pub poll_char : KeyRing → Option ℕ × KeyRing
poll_char r =
    if r.ktail == r.khead
    then (none, r)
    else (some (r.seen r.kbuf r.ktail), record r { ktail = (r.ktail + 1) % kbuf_cap })

-- All of the module's statics, and the console that `vga::` writes to.
pub record Keyboard : Type 0 where
  pub ctrl_held : Bool
  pub shift_held : Bool
  pub ring : KeyRing
  pub console : Console

-- A build that keeps KBUF as an ordinary array
abbrev pub stored : List ℕ → ℕ → ℕ
stored kbuf i = get_or kbuf i 0

-- A build that folds each load of KBUF
abbrev pub folded : List ℕ → ℕ → ℕ
folded kbuf i = 0

abbrev pub fresh_ring : (List ℕ → ℕ → ℕ) → KeyRing
fresh_ring seen = record { seen = seen; kbuf = replicate kbuf_cap 0; khead = 0; ktail = 0 }

abbrev pub push : ℕ → Keyboard → Keyboard
push b k = record k { ring = kbuf_push b k.ring }

abbrev pub draw : (Console → Console) → Keyboard → Keyboard
draw f k = record k { console = f k.console }

-- `MAP.get(code).and_then(|c| *c)`
unfoldable pub key_char : Bool → ℕ → Option ℕ
key_char shifted code = elim (get_elem? (if shifted then map_shift else map_normal) code) [
  | none ↦ none
  | some c ↦ c
]

-- The echo and the push of a character key
unfoldable pub type_char : Option ℕ → Keyboard → Keyboard
type_char none k = k
type_char (some c) k = push c (draw (Vga.put_char c) k)

abbrev four_spaces : List ℕ
four_spaces = b' ' ∷ b' ' ∷ b' ' ∷ b' ' ∷ []

-- The `match` of `handle_scancode` on the code without its release bit
unfoldable pub handle_code : ℕ → Bool → Keyboard → Option String × Keyboard
handle_code code is_release k =
    if code == 0x2a || code == 0x36
    then (none, record k { shift_held = not is_release })
    else if code == 0x1d
    then (none, record k { ctrl_held = not is_release })
    else if code == 0x2d
    then (if not is_release && k.ctrl_held then some "Ctrl+X" else none, k)
    else if code == 0x2e
    then (if not is_release && k.ctrl_held then some "Ctrl+C" else none, k)
    else if code == 0x0e
    then (none, if is_release then k else push 8 (draw Vga.backspace k))
    else if code == 0x0f
    then (
      none,
      if is_release
          then k
          else push b' ' (push b' ' (push b' ' (push b' ' (draw (Vga.write_str four_spaces) k)))),
    )
    else if code == 0x1c
    then (none, if is_release then k else push b'\n' (draw (Vga.put_char b'\n') k))
    else (none, if is_release then k else type_char (key_char k.shift_held code) k)

-- `handle_scancode`; the combination that it returns makes the interrupt handler shut down.
unfoldable pub handle_scancode : ℕ → Keyboard → Option String × Keyboard
unfolding handle_code
handle_scancode scancode k =
    if scancode == 0xe0
    then (none, k)
    else handle_code (bit_and scancode 0x7f) (not (bit_and scancode 0x80 == 0)) k
