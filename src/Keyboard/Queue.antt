-- ===== src/Keyboard/Queue.antt =====
-- What the key buffer promises: a queue that holds at most 255 keys and drops what does not fit.
use mon_os.Base.{ℕ, Option, none, some, List, [], ◌∷◌, ◌++◌, ltb, length, if◌then◌else◌}

abbrev pub Queue : Type 0
Queue = List ℕ

abbrev pub capacity : ℕ
capacity = 255

unfoldable pub push : ℕ → Queue → Queue
push b q = if ltb (length q) capacity then q ++ (b ∷ []) else q

unfoldable pub pop : Queue → Option ℕ × Queue
pop [] = (none, [])
pop (b ∷ q) = (some b, q)
