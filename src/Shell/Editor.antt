-- ===== src/Shell/Editor.antt =====
-- The line of shell.rs against the text that a user sees.
use mon_os.Base.{
  ℕ, zero, suc, ◌+◌, ◌-◌, ◌≤◌, ◌<◌, ◌≡◌, refl, sym, ap, ◌∙◌, arith, true, false, ◌&&◌, none, some,
  List, [], ◌∷◌, ◌++◌, ◌==◌, if◌then◌else◌, ltb, leb, length, take, set, length-set, length-take,
  Bool-cases, inl, inr,
}
use mon_os.Keyboard.{KeyRing, poll_char}
use mon_os.Keyboard.Refine
use mon_os.Keyboard.Queue
use mon_os.Shell.{step, Line, text, clear_line, edit, on_char, executed}

pub record IsValid (s : Line) : Type 0 where
  pub room : length s.line ≡ 256
  pub inside : s.len ≤ 256

unfoldable pub without_last : List ℕ → List ℕ
without_last [] = []
without_last (c ∷ []) = []
without_last (c ∷ d ∷ rest) = c ∷ without_last (d ∷ rest)

-- What a key does to a text of at most 256 characters
unfoldable pub key : ℕ → List ℕ → List ℕ
key c shown =
    if c == 8
    then without_last shown
    else if leb 32 c && ltb c 127
    then (if ltb (length shown) 256 then shown ++ (c ∷ []) else shown)
    else shown

-- Keys in turn, from the text shown: the text shown after them, and the texts that line feeds have ended
unfoldable pub keys : List ℕ → List ℕ → List ℕ × List (List ℕ)
keys [] shown = (shown, [])
keys (c ∷ cs) shown =
    if c == b'\n'
    then (let rest = keys cs [] in (rest.0, shown ∷ rest.1))
    else keys cs (key c shown)

take-set :
    (xs : List ℕ) (n v : ℕ) → n < length xs → take (n + 1) (set xs n v) ≡ take n xs ++ (v ∷ [])
take-set [] n v h = absurd (omega (arith, h))
take-set (x ∷ xs) zero v h = refl
take-set (x ∷ xs) (suc n) v h =
    let e : suc n + 1 ≡ suc (n + 1) = omega arith in
    ap (λ k. take k (x ∷ set xs n v)) e ∙ ap (λ l. x ∷ l) (take-set xs n v (omega (arith, h)))

without_last-take :
    (xs : List ℕ) (n : ℕ) → suc n ≤ length xs → without_last (take (suc n) xs) ≡ take n xs
unfolding without_last
without_last-take [] n h = absurd (omega (arith, h))
without_last-take (x ∷ xs) zero h = refl
without_last-take (x ∷ []) (suc n) h = absurd (omega (arith, h))
without_last-take (x ∷ y ∷ xs) (suc n) h =
    ap (λ l. x ∷ l) (without_last-take (y ∷ xs) n (omega (arith, h)))

-- A backspace takes the last character off, where there is one.
text-backspace :
    (s : Line)
    → IsValid s
    → text (if ltb 0 s.len then record s { len = s.len - 1 } else s) ≡ without_last (text s)
unfolding text without_last
text-backspace s v = go s.line s.len v.room v.inside
  where
    go :
        (line : List ℕ) (n : ℕ)
        → length line ≡ 256
        → n ≤ 256
        → text (
            if ltb 0 n
            then record { line = line; len = n - 1 }
            else record { line = line; len = n })
          ≡ without_last (take n line)
    go line zero room h = refl
    go line (suc n) room h =
        let pos : ltb 0 (suc n) ≡ true = ground arith in
        let e : suc n - 1 ≡ n = omega arith in
        rw (pos, e) (sym (without_last-take line n (omega (arith, room, h))))

length-text : (s : Line) → IsValid s → length (text s) ≡ s.len
unfolding text
length-text s v = ground (arith, length-take s.len s.line, v.room, v.inside)

edit-IsValid : (c : ℕ) (s : Line) → IsValid s → IsValid (edit c s)
unfolding edit
edit-IsValid c s v = record {
  room = ground (arith, v.room, length-set s.line s.len c);
  inside = ground (arith, v.room, v.inside);
}

-- The line shows what the keys say.
pub text-edit : (c : ℕ) (s : Line) → IsValid s → text (edit c s) ≡ key c (text s)
unfolding text edit key
text-edit c s v = elim (Bool-cases (c == 8)) [
  | inl back ↦ rw back (text-backspace s v)
  | inr other ↦ elim (Bool-cases (leb 32 c && ltb c 127)) [
    | inr ignored ↦ rw (other, ignored) refl
    | inl printable ↦ elim (Bool-cases (ltb s.len 256)) [
      | inl space ↦
          let short : ltb (length (take s.len s.line)) 256 ≡ true =
            ground (arith, space, length-text s v) in
          let fits : ltb s.len (length s.line) ≡ true = ground (arith, space, v.room) in
          rw (other, printable, short, fits) (take-set s.line s.len c (ground (arith, fits)))
      | inr full ↦
          let long : ltb (length (take s.len s.line)) 256 ≡ false =
            ground (arith, full, length-text s v) in
          let stuck : ltb s.len (length s.line) ≡ false = ground (arith, full, v.room) in
          rw (other, printable, long, stuck) refl
    ]
  ]
]

pub on_char-IsValid : (c : ℕ) (s : Line) → IsValid s → IsValid (on_char c s).0
unfolding on_char clear_line
on_char-IsValid c s v = elim (Bool-cases (c == b'\n')) [
  | inl line_feed ↦ rw line_feed (record { room = v.room; inside = omega arith })
  | inr other ↦ rw other (edit-IsValid c s v)
]

-- What step leaves of a buffer and a line: it executes the texts that the keys end, in order, takes all
-- keys, and leaves the text that they leave.
pub record Ran (n : ℕ) (r : KeyRing) (s : Line) : Type 0 where
  pub ring : KeyRing
  pub line : Line
  pub runs : step n r s ≡ some (ring, (line, (keys (Refine.contents r) (text s)).1))
  pub drained : Refine.contents ring ≡ []
  pub shows : text line ≡ (keys (Refine.contents r) (text s)).0
  pub valid : IsValid line

-- One character against one key
keys-on_char :
    (c : ℕ) (q : List ℕ) (s : Line)
    → IsValid s
    → keys (c ∷ q) (text s) ≡ (
      (keys q (text (on_char c s).0)).0,
      executed (on_char c s).1 (keys q (text (on_char c s).0)).1,
    )
unfolding keys on_char clear_line executed text
keys-on_char c q s v = elim (Bool-cases (c == b'\n')) [
  | inl line_feed ↦ rw line_feed refl
  | inr other ↦ rw (other, text-edit c s v) refl
]

-- A key taken, and the rest of the call
taken :
    (n : ℕ) (r : KeyRing) (s : Line) (sv : IsValid s) (c : ℕ) (q : List ℕ)
    → Refine.contents r ≡ c ∷ q
    → (poll_char r).0 ≡ some c
    → Refine.contents (poll_char r).1 ≡ q
    → Ran n (poll_char r).1 (on_char c s).0
    → Ran (suc n) r s
unfolding step keys
taken n r s sv c q e out left ran =
    let now = on_char c s in
    let split : keys (Refine.contents r) (text s) ≡ (
      (keys (Refine.contents (poll_char r).1) (text now.0)).0,
      executed now.1 (keys (Refine.contents (poll_char r).1) (text now.0)).1,
    ) =
      ap (λ k. keys k (text s)) e
      ∙ (keys-on_char c q s sv
          ∙ ap (λ k. ((keys k (text now.0)).0, executed now.1 (keys k (text now.0)).1))
              (sym left)) in
    record {
      ring = ran.ring;
      line = ran.line;
      runs = rw (step, out, ran.runs) (ap (λ p. some (ran.ring, (ran.line, p.1))) (sym split));
      drained = ran.drained;
      shows = ran.shows ∙ ap (λ p. p.0) (sym split);
      valid = ran.valid;
    }

-- In a build that keeps KBUF as an array, from a ring and a line of 256 bytes with their indices inside:
-- with a round more than there are keys in the buffer, step of the shell takes every key, executes each
-- line that a line feed ends as the keys before it have edited it, backspaces and the limit of 256
-- characters included, in order, and leaves the line that the keys behind the last line feed have begun.
pub step-keys :
    (n : ℕ) (r : KeyRing) (s : Line)
    → Refine.IsArray r
    → Refine.IsValid r
    → IsValid s
    → length (Refine.contents r) < n
    → Ran n r s
unfolding step keys Queue.pop
step-keys zero r s array rv sv h = absurd (omega (arith, h))
step-keys (suc n) r s array rv sv h = go (Refine.contents r) refl (λ c q left.
    step-keys n (poll_char r).1 (on_char c s).0 (Refine.poll_char-Sees (λ b. b) array)
      (Refine.poll_char-IsValid rv) (on_char-IsValid c s sv) left)
  where
    go :
        (q : List ℕ)
        → Refine.contents r ≡ q
        → ((c : ℕ) (q' : List ℕ)
            → length (Refine.contents (poll_char r).1) < n
            → Ran n (poll_char r).1 (on_char c s).0)
        → Ran (suc n) r s
    go [] e rest =
        let polled = Refine.poll_char_refines r array rv in
        let out : (poll_char r).0 ≡ none = ap (λ p. p.0) polled ∙ ap (λ q. (Queue.pop q).0) e in
        let left : Refine.contents (poll_char r).1 ≡ [] =
          ap (λ p. p.1) polled ∙ ap (λ q. (Queue.pop q).1) e in
        record {
          ring = (poll_char r).1;
          line = s;
          runs = rw (step, out, e) refl;
          drained = left;
          shows = rw e refl;
          valid = sv;
        }
    go (c ∷ q) e rest =
        let polled = Refine.poll_char_refines r array rv in
        let out : (poll_char r).0 ≡ some c = ap (λ p. p.0) polled ∙ ap (λ q. (Queue.pop q).0) e in
        let left : Refine.contents (poll_char r).1 ≡ q =
          ap (λ p. p.1) polled ∙ ap (λ q. (Queue.pop q).1) e in
        let smaller : length (Refine.contents (poll_char r).1) < n = ground (arith, h, e, left) in
        taken n r s sv c q e out left (rest c q smaller)
