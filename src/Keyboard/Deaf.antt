-- ===== src/Keyboard/Deaf.antt =====
-- Which characters can reach the shell at all. The scancodes of X and C are taken for the shutdown
-- combinations before the maps are asked, so these letters cannot be typed.
use mon_os.Base.{
  ℕ, ◌<◌, ◌≡◌, refl, arith, Bool, true, false, ◌&&◌, ◌||◌, not, Option, none, some, List, [], ◌∷◌,
  ◌==◌, ltb, leb, ltb→lt, if◌then◌else◌, All, All-append, length, Bool-cases, inl, inr, subst, sym,
}
use mon_os.Base.Tables.{table, table-lookup}
use mon_os.Keyboard.{Keyboard, KeyRing, fresh_ring, stored, key_char, handle_scancode, poll_char}
use mon_os.Keyboard.Maps.{map_normal, map_shift}
use mon_os.Keyboard.Queue
use mon_os.Keyboard.Refine.{
  IsValid, IsArray, contents, poll_char-IsValid, poll_char-Sees, poll_char_refines,
}
use mon_os.Keyboard.Interleave.{pushes-IsValid, pushes-Sees, contents-pushes, push_all}
use mon_os.Keyboard.Decode.{key_output, handle_scancode-ring}

-- A printable ASCII character, a backspace or a line feed, but not one of x, c, X and C.
abbrev pub can_arrive : ℕ → Bool
can_arrive b =
    (leb 32 b && ltb b 127 || (b == 8 || b == b'\n'))
    && not (b == b'x' || (b == b'c' || (b == b'X' || b == b'C')))

abbrev pub Arrives : ℕ → Type 0
Arrives b = can_arrive b ≡ true

all_arrive : List ℕ → Bool
all_arrive [] = true
all_arrive (b ∷ bs) = can_arrive b && all_arrive bs

all_arrive_sound : (bs : List ℕ) → all_arrive bs ≡ true → All Arrives bs
unfolding all_arrive
all_arrive_sound [] h = tt
all_arrive_sound (b ∷ bs) h = (ground arith, all_arrive_sound bs (ground arith))

output_table : (shifted : Bool) → table (λ s. all_arrive (key_output shifted s)) 128 ≡ true
unfolding table all_arrive key_output key_char map_normal map_shift
output_table true = refl
output_table false = refl

pub key_output-Arrives : (shifted : Bool) (s : ℕ) → s < 128 → All Arrives (key_output shifted s)
key_output-Arrives shifted s h =
    all_arrive_sound _
      (table-lookup (λ s. all_arrive (key_output shifted s)) 128 s h (output_table shifted))

push-All : (b : ℕ) (q : List ℕ) → Arrives b → All Arrives q → All Arrives (Queue.push b q)
unfolding Queue.push
push-All b q h all = elim (Bool-cases (ltb (length q) Queue.capacity)) [
  | inl room ↦ rw room (All-append Arrives q (b ∷ []) all (h, tt))
  | inr full ↦ rw full all
]

push_all-All : (bs q : List ℕ) → All Arrives bs → All Arrives q → All Arrives (push_all bs q)
unfolding push_all
push_all-All [] q hs all = all
push_all-All (b ∷ bs) q hs all = push_all-All bs (Queue.push b q) hs.1 (push-All b q hs.0 all)

-- What happens to the keyboard: an interrupt with a scancode, or a poll by the shell.
pub data Input : Type 0 where
  scan : ℕ → Input
  poll : Input

-- What the polls of a history return.
unfoldable pub run : List Input → Keyboard → List (Option ℕ)
run [] k = []
run (scan s ∷ rest) k = run rest (handle_scancode s k).1
run (poll ∷ rest) k = let (out, r) = poll_char k.ring in out ∷ run rest (record k { ring = r })

abbrev pub IsScancode : Input → Type 0
IsScancode (scan s) = s < 256
IsScancode poll = Unit

abbrev pub IsTypable : Option ℕ → Type 0
IsTypable none = Unit
IsTypable (some b) = Arrives b

-- The buffer is sound, in a build that keeps it as an array, and holds only characters that can arrive.
pub record IsClean (r : KeyRing) : Type 0 where
  pub array : IsArray r
  pub valid : IsValid r
  pub waiting : All Arrives (contents r)

pub scan-IsClean :
    (s : ℕ) (k : Keyboard) → s < 256 → IsClean k.ring → IsClean (handle_scancode s k).1.ring
scan-IsClean s k h c = rw (handle_scancode-ring s k h) (record {
  array = pushes-Sees (λ b. b) keys c.array;
  valid = pushes-IsValid keys c.valid;
  waiting =
      rw (contents-pushes keys k.ring c.valid)
        (push_all-All keys (contents k.ring) arrive c.waiting);
})
  where
    keys : List ℕ
    keys = if ltb s 128 then key_output k.shift_held s else []

    arrive : All Arrives keys
    arrive = elim (Bool-cases (ltb s 128)) [
      | inl press ↦ rw press (key_output-Arrives k.shift_held s (ltb→lt s 128 press))
      | inr release ↦ rw release tt
    ]

pop-All : (q : List ℕ) → All Arrives q → IsTypable (Queue.pop q).0 × All Arrives (Queue.pop q).1
unfolding Queue.pop
pop-All [] all = (tt, tt)
pop-All (b ∷ q) all = all

-- A poll of a clean ring
pub record Polled (r : KeyRing) : Type 0 where
  pub typable : IsTypable (poll_char r).0
  pub clean : IsClean (poll_char r).1

pub poll-IsClean : (r : KeyRing) → IsClean r → Polled r
poll-IsClean r c =
    let polled : IsTypable (poll_char r).0 × All Arrives (contents (poll_char r).1) =
      subst (λ (t : Option ℕ × List ℕ). IsTypable t.0 × All Arrives t.1)
        (sym (poll_char_refines r c.array c.valid)) (pop-All (contents r) c.waiting) in
    record {
      typable = polled.0;
      clean = record {
        array = poll_char-Sees (λ b. b) c.array;
        valid = poll_char-IsValid c.valid;
        waiting = polled.1;
      };
    }

pub fresh_ring-IsClean : IsClean (fresh_ring stored)
fresh_ring-IsClean = record {
  array = record { loads = λ kbuf i. refl };
  valid = omega arith;
  waiting = tt;
}

run-IsTypable_from :
    (is : List Input) (k : Keyboard) → All IsScancode is → IsClean k.ring → All IsTypable (run is k)
unfolding run
run-IsTypable_from [] k h c = tt
run-IsTypable_from (scan s ∷ rest) k h c =
    run-IsTypable_from rest (handle_scancode s k).1 h.1 (scan-IsClean s k h.0 c)
run-IsTypable_from (poll ∷ rest) k h c =
    let polled = poll-IsClean k.ring c in
    (
      polled.typable,
      run-IsTypable_from rest (record k { ring = (poll_char k.ring).1 }) h.1 polled.clean,
    )

-- In a build that keeps KBUF as an array, whatever keys are pressed and released after the start, with
-- whatever modifiers, every character that the shell polls is printable ASCII, a backspace or a line
-- feed, and is never an x, c, X or C.
pub run-IsTypable :
    (is : List Input) (k : Keyboard)
    → k.ring ≡ fresh_ring stored
    → All IsScancode is
    → All IsTypable (run is k)
run-IsTypable is k e h = run-IsTypable_from is k h (rw e fresh_ring-IsClean)
