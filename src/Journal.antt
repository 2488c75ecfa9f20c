-- ===== src/Journal.antt =====
-- kernel/src/journal.rs: the lines that the action gate sends to the debug port 0xE9, and
-- the struct Action of kernel/src/ai_action.rs they name. A line is kept as data, and `bytes` is what
-- goes over the port.
use mon_os.Base.{ℕ, Option, none, some, List, [], ◌∷◌, ◌++◌}
use mon_os.Decimal.{print_u64}

-- `_r` pads and is never read.
pub record Action : Type 0 where
  pub kind : ℕ
  pub flags : ℕ
  pub param1 : ℕ
  pub param2 : ℕ
  pub param3 : ℕ

pub data Line : Type 0 where
  intent : (seq kind : ℕ) → Line
  commit : (seq kind : ℕ) → Line
  fail : (seq code : ℕ) → Line
  reject : (seq kind : ℕ) → Line

unfoldable pub journal_intent : ℕ → Action → Line
journal_intent seq a = Line.intent seq a.kind

unfoldable pub journal_commit : ℕ → Action → Line
journal_commit seq a = Line.commit seq a.kind

unfoldable pub journal_fail : ℕ → Action → ℕ → Line
journal_fail seq a code = Line.fail seq code

unfoldable pub journal_reject : ℕ → Action → Line
journal_reject seq a = Line.reject seq a.kind

-- `seq=` and ` … =` around the two numbers, and the line feed
unfoldable framed : List ℕ → Option (List ℕ) → Option (List ℕ) → Option (List ℕ)
framed label none value = none
framed label (some seq) none = none
framed label (some seq) (some value) =
    some ((b's' ∷ b'e' ∷ b'q' ∷ b'=' ∷ []) ++ (seq ++ (b' ' ∷ label ++ (value ++ (10 ∷ [])))))

abbrev intent_label : List ℕ
intent_label =
    b'I' ∷ b'N' ∷ b'T' ∷ b'E' ∷ b'N' ∷ b'T' ∷ b' ' ∷ b'k' ∷ b'i' ∷ b'n' ∷ b'd' ∷ b'=' ∷ []

abbrev commit_label : List ℕ
commit_label =
    b'A' ∷ b'P' ∷ b'P' ∷ b'L' ∷ b'Y' ∷ b'_' ∷ b'O' ∷ b'K' ∷ b' ' ∷ b'k' ∷ b'i' ∷ b'n' ∷ b'd' ∷ b'='
    ∷ []

abbrev fail_label : List ℕ
fail_label =
    b'A' ∷ b'P' ∷ b'P' ∷ b'L' ∷ b'Y' ∷ b'_' ∷ b'F' ∷ b'A' ∷ b'I' ∷ b'L' ∷ b' ' ∷ b'c' ∷ b'o' ∷ b'd'
    ∷ b'e' ∷ b'=' ∷ []

abbrev reject_label : List ℕ
reject_label =
    b'R' ∷ b'E' ∷ b'J' ∷ b'E' ∷ b'C' ∷ b'T' ∷ b' ' ∷ b'k' ∷ b'i' ∷ b'n' ∷ b'd' ∷ b'=' ∷ []

unfoldable bytes : Line → Option (List ℕ)
bytes (Line.intent seq kind) = framed intent_label (print_u64 seq) (print_u64 kind)
bytes (Line.commit seq kind) = framed commit_label (print_u64 seq) (print_u64 kind)
bytes (Line.fail seq code) = framed fail_label (print_u64 seq) (print_u64 code)
bytes (Line.reject seq kind) = framed reject_label (print_u64 seq) (print_u64 kind)
