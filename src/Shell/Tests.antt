-- ===== src/Shell/Tests.antt =====
-- The properties and some commands of shell.rs at concrete input.
use mon_os.Base.{◌≡◌, refl, arith, true, false, List, [], ◌∷◌, replicate, All}
use mon_os.Base.Text.{ascii}
use mon_os.Vga.{new}
use mon_os.Keyboard.{
  Keyboard, KeyRing, kbuf_push, fresh_ring, stored, handle_scancode, handle_code, key_char,
  poll_char,
}
use mon_os.Keyboard.Maps.{map_normal, map_shift}
use mon_os.Keyboard.Deaf.{Input}
use mon_os.Keyboard.Refine
use mon_os.Shell.{Line, text, clear_line, edit, on_char, executed}
use mon_os.Shell.Commands.{Sys}
use mon_os.Shell.Reach.{Same, session, session-Same}
use mon_os.Shell.Text.{split1, trim, trim_start, is_white, cut, is_utf8, utf8_from, lead}
use mon_os.Shell.Editor.{IsValid, Ran, step-keys, keys, key, without_last}

abbrev empty_line : Line
empty_line = record { line = replicate 256 0; len = 0 }

empty_line-IsValid : IsValid empty_line
empty_line-IsValid = record { room = refl; inside = ground arith }

-- "lz", a backspace, "s", a line feed and "p" are in the buffer.
abbrev typed : KeyRing
typed =
    kbuf_push 112 (
      kbuf_push 10
        (kbuf_push 115 (kbuf_push 8 (kbuf_push 122 (kbuf_push 108 (fresh_ring stored))))))

fresh_ring-IsValid : Refine.IsValid (fresh_ring stored)
fresh_ring-IsValid = record { storage = refl; head_in = ground arith; tail_in = ground arith }

typed-IsValid : Refine.IsValid typed
typed-IsValid = Refine.kbuf_push-IsValid 112 (
    Refine.kbuf_push-IsValid 10 (
      Refine.kbuf_push-IsValid 115 (
        Refine.kbuf_push-IsValid 8
          (Refine.kbuf_push-IsValid 122 (Refine.kbuf_push-IsValid 108 fresh_ring-IsValid)))))

step-keys_example : Ran 10 typed empty_line
unfolding kbuf_push
step-keys_example =
    step-keys 10 typed empty_line (record { loads = λ kbuf i. refl }) typed-IsValid
      empty_line-IsValid (ground arith)

edited : keys (108 ∷ 122 ∷ 8 ∷ 115 ∷ 10 ∷ 112 ∷ []) [] ≡ (ascii "p", ascii "ls" ∷ [])
unfolding keys key without_last
edited = refl

split_path : split1 (ascii "  cat  a/b ") ≡ (ascii "cat", ascii "a/b")
unfolding split1 trim trim_start is_white cut
split_path = refl

utf8_refused : is_utf8 (0x61 ∷ 0xc3 ∷ 0x28 ∷ []) ≡ false
unfolding is_utf8 utf8_from lead
utf8_refused = refl

-- The keys l, s and Enter, with a round of the loop between them
abbrev ls_typed : List Input
ls_typed =
    Input.scan 0x26 ∷ Input.poll ∷ Input.scan 0x1f ∷ Input.scan 0x1c ∷ Input.poll ∷ Input.poll ∷ []

abbrev keyboard : Keyboard
keyboard = record {
  ctrl_held = false;
  shift_held = false;
  ring = fresh_ring stored;
  console = new (λ _. 0);
}

abbrev sys : Sys
sys = record {
  memory = λ _. 0;
  initrd_base = 0;
  initrd_len = 0;
  pmm = record { next_free = 0; limit = 0 };
  timer_ticks = 0;
  ai_model_addr = 0;
  ai_model_len = 0;
  system_ready = true;
  quantum_us = 1000;
}

session-Same_example : All (Same sys) (session ls_typed keyboard empty_line)
session-Same_example =
    session-Same sys ls_typed keyboard empty_line refl empty_line-IsValid refl (omega arith)

session_ls : session ls_typed keyboard empty_line ≡ ascii "ls" ∷ []
unfolding session handle_scancode handle_code key_char map_normal map_shift kbuf_push poll_char
    on_char edit executed text clear_line mon_os.Keyboard.type_char
session_ls = refl
