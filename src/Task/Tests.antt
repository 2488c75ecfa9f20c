-- ===== src/Task/Tests.antt =====
-- The run queue of task.rs with three tasks.
use mon_os.Base.{ℕ, ◌<◌, ◌≡◌, refl, arith, none, some, List, [], ◌∷◌, get_elem?}
use mon_os.Task.{Tasks, empty, place, register, run_loop, pick, run_once}
use mon_os.Task.Fair.{runs, register_all, runs_fair}

abbrev three : Tasks
three = record {
  slots = some 0x100 ∷ some 0x200 ∷ some 0x300 ∷ none ∷ none ∷ none ∷ none ∷ none ∷ [];
  next_index = 1;
}

register-three : register_all (0x100 ∷ 0x200 ∷ 0x300 ∷ []) empty ≡ record three { next_index = 0 }
unfolding register_all register place
register-three = refl

runs-three :
    runs ([] ∷ [] ∷ (0x400 ∷ []) ∷ [] ∷ []) three
    ≡ some 0x200 ∷ some 0x300 ∷ some 0x400 ∷ some 0x100 ∷ []
unfolding runs register_all register place run_once run_loop pick
runs-three = refl

abbrev eight_rounds : List (List ℕ)
eight_rounds = [] ∷ [] ∷ (0x400 ∷ []) ∷ [] ∷ [] ∷ [] ∷ [] ∷ [] ∷ []

runs_fair_example : (k : ℕ) × (k < 8) × (get_elem? (runs eight_rounds three) k ≡ some (some 0x100))
runs_fair_example =
    runs_fair 0x100 0 eight_rounds three refl (omega arith) refl (omega arith) (omega arith)
