-- ===== src/Shell.antt =====
-- kernel/src/shell.rs: the line that is typed, the split of it, and the loop that takes the characters of
-- the keyboard's buffer.
pub mod Text
pub mod Commands
pub mod Editor
pub mod Reach
pub mod Sleep
mod Tests
use mon_os.Base.{
  ℕ, zero, suc, ◌+◌, ◌-◌, ◌≤◌, Bool, true, false, not, ◌&&◌, ◌||◌, Option, none, some, List, [],
  ◌∷◌, ◌++◌, ◌==◌, if◌then◌else◌, ltb, leb, length, take, set,
}
use mon_os.Keyboard.{KeyRing, poll_char}

-- LINE and LEN
pub record Line : Type 0 where
  pub line : List ℕ
  pub len : ℕ

-- `&LINE[..LEN]`
unfoldable pub text : Line → List ℕ
text s = take s.len s.line

unfoldable pub clear_line : Line → Line
clear_line s = record s { len = 0 }

-- The arms of step that edit the line
unfoldable pub edit : ℕ → Line → Line
edit c s =
    if c == 8
    then (if ltb 0 s.len then record s { len = s.len - 1 } else s)
    else if leb 32 c && ltb c 127
    then (if ltb s.len (length s.line)
        then record { line = set s.line s.len c; len = s.len + 1 }
        else s)
    else s

-- A character: the line after it, and the text that it has executed
unfoldable pub on_char : ℕ → Line → Line × Option (List ℕ)
on_char c s = if c == b'\n' then (clear_line s, some (text s)) else (edit c s, none)

unfoldable pub executed : Option (List ℕ) → List (List ℕ) → List (List ℕ)
executed none texts = texts
executed (some t) texts = t ∷ texts

-- step: `while let Some(c) = keyboard::poll_char()`; the bound is that of the model (`none` beyond it).
unfoldable pub step : ℕ → KeyRing → Line → Option (KeyRing × (Line × List (List ℕ)))
step zero r s = none
step (suc n) r s = elim (poll_char r).0 [
  | none ↦ some ((poll_char r).1, (s, []))
  | some c ↦
      let now = on_char c s in
      elim (step n (poll_char r).1 now.0) [
        | none ↦ none
        | some (last, (s', texts)) ↦ some (last, (s', executed now.1 texts))
      ]
]
