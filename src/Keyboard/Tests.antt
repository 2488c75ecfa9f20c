-- ===== src/Keyboard/Tests.antt =====
-- The keyboard on concrete inputs; the first tests are those of keyboard.rs.
use mon_os.Base.{◌≡◌, refl, arith, false, none, some, List, [], ◌∷◌, map, All}
use mathlib.Core.Option
use mon_os.Vga.{new}
use mon_os.Keyboard.{
  Keyboard, fresh_ring, stored, folded, handle_scancode, handle_code, kbuf_push, poll_char,
}
use mon_os.Keyboard.Queue
use mon_os.Keyboard.Refine.{IsValid, contents, kbuf_push_refines, poll_char_refines}
use mon_os.Keyboard.Interleave.{Event, pushes, poll_interrupted, step, run, queue_run, run_refines}
use mon_os.Keyboard.Decode.{held, is_ctrl, is_shift, interrupts, modifiers_lem}
use mon_os.Keyboard.Deaf
use mon_os.Keyboard.Deaf.{IsTypable, run-IsTypable}

abbrev fresh : Keyboard
fresh = record {
  ctrl_held = false;
  shift_held = false;
  ring = fresh_ring stored;
  console = new (λ _. 0);
}

ctrl_x_triggers_shutdown : (handle_scancode 0x2d (handle_scancode 0x1d fresh).1).0 ≡ some "Ctrl+X"
unfolding handle_scancode handle_code
ctrl_x_triggers_shutdown = refl

release_clears_ctrl_state :
    (handle_scancode 0x2d (handle_scancode 0x9d (handle_scancode 0x1d fresh).1).1).0 ≡ none
unfolding handle_scancode handle_code
release_clears_ctrl_state = refl

abbrev script : List Event
script = Event.keys (b'l' ∷ b's' ∷ []) ∷ Event.poll (b'!' ∷ []) ∷ Event.poll [] ∷ Event.poll [] ∷ []

run-script : run script (fresh_ring stored) ≡ some b'l' ∷ some b's' ∷ some b'!' ∷ []
unfolding run step poll_interrupted pushes kbuf_push
run-script = refl

fresh_ring-IsValid : IsValid (fresh_ring stored)
fresh_ring-IsValid = omega arith

kbuf_push_refines_example :
    contents (kbuf_push b'q' (fresh_ring stored)) ≡ Queue.push b'q' (contents (fresh_ring stored))
kbuf_push_refines_example = kbuf_push_refines b'q' (fresh_ring stored) fresh_ring-IsValid

poll_char_refines_example :
    let (out, r') = poll_char (kbuf_push b'q' (fresh_ring stored)) in
    (out, contents r') ≡ Queue.pop (contents (kbuf_push b'q' (fresh_ring stored)))
unfolding kbuf_push
poll_char_refines_example =
    poll_char_refines (kbuf_push b'q' (fresh_ring stored)) (record { loads = λ kbuf i. refl })
      (omega arith)

-- Where the loads are folded the same keys are read as NUL.
run-folded : run script (fresh_ring folded) ≡ some 0 ∷ some 0 ∷ some 0 ∷ []
unfolding run step poll_interrupted pushes kbuf_push
run-folded = refl

run_refines_example :
    run script (fresh_ring stored) ≡ map (Option.map (λ b. b)) (queue_run script [])
run_refines_example =
    run_refines (λ b. b) script (fresh_ring stored) (record { loads = λ kbuf i. refl })
      fresh_ring-IsValid

modifiers_lem_example :
    ((interrupts (0x1d ∷ 0x2a ∷ 0x9d ∷ []) fresh).ctrl_held
      ≡ held false is_ctrl (0x1d ∷ 0x2a ∷ 0x9d ∷ []))
    × ((interrupts (0x1d ∷ 0x2a ∷ 0x9d ∷ []) fresh).shift_held
        ≡ held false is_shift (0x1d ∷ 0x2a ∷ 0x9d ∷ []))
modifiers_lem_example = modifiers_lem (0x1d ∷ 0x2a ∷ 0x9d ∷ []) fresh (omega arith)

abbrev typed : List Deaf.Input
typed = Deaf.scan 0x2d ∷ Deaf.scan 0x10 ∷ Deaf.poll ∷ Deaf.poll ∷ []

run-IsTypable_example : All IsTypable (Deaf.run typed fresh)
run-IsTypable_example = run-IsTypable typed fresh refl (omega arith)
