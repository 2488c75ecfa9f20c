-- ===== src/Task.antt =====
-- kernel/src/task.rs: the cooperative run queue. A task is a function pointer, here its address; the
-- two locks are taken one call at a time, and a task runs after both are released.
pub mod Fair
pub mod Tests
use mon_os.Base.{
  ℕ, zero, suc, ◌+◌, ◌%◌, Bool, true, false, Option, none, some, List, [], ◌∷◌, length, get_or,
  replicate, is_some, if◌then◌else◌,
}

-- TASKS and NEXT_INDEX
record Tasks : Type 0 where
  slots : List (Option ℕ)
  next_index : ℕ

abbrev empty : Tasks
empty = record { slots = replicate 8 none; next_index = 0 }

-- The loop of `register` over the slots
unfoldable place : ℕ → List (Option ℕ) → Bool × List (Option ℕ)
place task [] = (false, [])
place task (none ∷ rest) = (true, some task ∷ rest)
place task (some f ∷ rest) = let later = place task rest in (later.0, some f ∷ later.1)

unfoldable register : ℕ → Tasks → Bool × Tasks
register task t = let placed = place task t.slots in (placed.0, record t { slots = placed.1 })

-- One round found a task to call, or the loop goes on.
unfoldable pick : Option ℕ → ℕ → Option ℕ × ℕ → Option ℕ × ℕ
pick none next rest = rest
pick (some f) next rest = (some f, next)

-- The `for` loop of `run_once`: the task to call and the index it leaves
unfoldable run_loop : ℕ → List (Option ℕ) → ℕ → Option ℕ × ℕ
run_loop zero slots idx = (none, idx)
run_loop (suc n) slots idx =
    let next = (idx + 1) % length slots in
    pick (get_or slots (idx % length slots) none) next (run_loop n slots next)

unfoldable run_once : Tasks → Option ℕ × Tasks
run_once t =
    let found = run_loop (length t.slots) t.slots t.next_index in
    (found.0, record t { next_index = found.1 })

-- `filter(is_some).count()`
unfoldable occupied : List (Option ℕ) → ℕ
occupied [] = 0
occupied (slot ∷ rest) = (if is_some slot then 1 else 0) + occupied rest

unfoldable runqueue_len : Tasks → ℕ
runqueue_len t = occupied t.slots
