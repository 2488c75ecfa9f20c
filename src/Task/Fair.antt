-- ===== src/Task/Fair.antt =====
-- The run queue of task.rs: room for eight tasks, and no task waits for more than eight rounds.
use mon_os.Base.{
  ℕ, zero, suc, ◌+◌, ◌-◌, ◌%◌, ◌≤◌, ◌<◌, ◌≡◌, refl, sym, ap, ◌∙◌, subst, arith, Option, none, some,
  List, [], ◌∷◌, length, get_or, get_elem?, if◌then◌else◌, ltb, ◌⊎◌, inl, inr, ◌≢◌, ℕ_discrete,
}
use mon_os.Task.{Tasks, place, register, pick, run_loop, run_once, occupied, runqueue_len}

place-length : (task : ℕ) (slots : List (Option ℕ)) → length (place task slots).1 ≡ length slots
unfolding place
place-length task [] = refl
place-length task (none ∷ rest) = refl
place-length task (some f ∷ rest) = ap suc (place-length task rest)

place-keeps :
    (task f j : ℕ) (slots : List (Option ℕ))
    → get_or slots j none ≡ some f
    → get_or (place task slots).1 j none ≡ some f
unfolding place
place-keeps task f j [] h = h
place-keeps task f zero (none ∷ rest) h = ground arith
place-keeps task f (suc j) (none ∷ rest) h = h
place-keeps task f zero (some g ∷ rest) h = h
place-keeps task f (suc j) (some g ∷ rest) h = place-keeps task f j rest h

occupied-le : (slots : List (Option ℕ)) → occupied slots ≤ length slots
unfolding occupied
occupied-le [] = omega arith
occupied-le (none ∷ rest) = omega (arith, occupied-le rest)
occupied-le (some f ∷ rest) = omega (arith, occupied-le rest)

place-occupied :
    (task : ℕ) (slots : List (Option ℕ))
    → let placed = place task slots in
      (placed.0 ≡ ltb (occupied slots) (length slots))
      × (occupied placed.1 ≡ occupied slots + (if placed.0 then 1 else 0))
unfolding place occupied
place-occupied task [] = (refl, refl)
place-occupied task (none ∷ rest) = (ground (arith, occupied-le rest), omega arith)
place-occupied task (some f ∷ rest) =
    let later = place-occupied task rest in (later.0 ∙ ground arith, omega (arith, later.1))

-- A call of register takes a free slot and returns true exactly if fewer tasks than slots are
-- registered; every task that was registered keeps its slot.
register_lem :
    (task : ℕ) (t : Tasks)
    → let out = register task t in
      (out.0 ≡ ltb (runqueue_len t) (length t.slots))
      × (runqueue_len out.1 ≡ runqueue_len t + (if out.0 then 1 else 0))
      × ((f j : ℕ) → get_or t.slots j none ≡ some f → get_or out.1.slots j none ≡ some f)
unfolding register runqueue_len
register_lem task t =
    let placed = place-occupied task t.slots in
    (placed.0, placed.1, λ f j. place-keeps task f j t.slots)

-- The rounds from index `i` to slot `j`
abbrev distance : ℕ → ℕ → ℕ
distance i j = (j + 8 - i) % 8

-- A call runs the task of slot `j`, or runs another one and comes closer to `j`.
unfoldable Closer : ℕ → ℕ → ℕ → Option ℕ × ℕ → Type 0
Closer f i j found = (found.1 < 8) × ((found.0 ≡ some f) ⊎ (distance found.1 j < distance i j))

step_closer : (i j : ℕ) → i < 8 → j < 8 → i ≢ j → distance ((i + 1) % 8) j < distance i j
step_closer i j hi hj differ = omega arith

next_closer :
    (i j k : ℕ)
    → i < 8
    → j < 8
    → i ≢ j
    → distance k j < distance ((i + 1) % 8) j
    → distance k j < distance i j
next_closer i j k hi hj differ h = omega (arith, h, step_closer i j hi hj differ)

pick-Closer :
    (f i j n : ℕ) (slots : List (Option ℕ)) (slot : Option ℕ)
    → get_or slots j none ≡ some f
    → i < 8
    → j < 8
    → get_or slots i none ≡ slot
    → (i ≢ j → Closer f ((i + 1) % 8) j (run_loop n slots ((i + 1) % 8)))
    → Closer f i j (pick slot ((i + 1) % 8) (run_loop n slots ((i + 1) % 8)))
unfolding Closer pick
pick-Closer f i j n slots none held hi hj e go =
    let differ : i ≢ j =
      λ same. ground (arith, held, subst (λ k. get_or slots k none ≡ none) same e) in
    let rest = go differ in
    (rest.0, elim rest.1 [ inl h ↦ inl h | inr h ↦ inr (next_closer i j _ hi hj differ h) ])
pick-Closer f i j n slots (some g) held hi hj e go = elim (ℕ_discrete i j) [
  | yes same ↦
      (omega arith, inl (sym e ∙ subst (λ k. get_or slots k none ≡ some f) (sym same) held))
  | no differ ↦ (omega arith, inr (step_closer i j hi hj differ))
]

run_loop-Closer :
    (f j : ℕ) (slots : List (Option ℕ))
    → length slots ≡ 8
    → get_or slots j none ≡ some f
    → j < 8
    → (n i : ℕ) → i < 8
    → distance i j < n
    → Closer f i j (run_loop n slots i)
unfolding run_loop
run_loop-Closer f j slots len held hj zero i hi near = absurd (omega arith)
run_loop-Closer f j slots len held hj (suc n) i hi near = rw len (
    pick-Closer f i j n slots _ held hi hj (ap (λ k. get_or slots k none) (omega arith)) (λ differ.
      run_loop-Closer f j slots len held hj n ((i + 1) % 8) (omega arith)
        (omega (arith, step_closer i j hi hj differ))))

-- A run of the kernel's loop: before each call of run_once some tasks may be registered.
unfoldable pub register_all : List ℕ → Tasks → Tasks
register_all [] t = t
register_all (task ∷ more) t = register_all more (register task t).1

unfoldable pub runs : List (List ℕ) → Tasks → List (Option ℕ)
runs [] t = []
runs (new ∷ later) t = let out = run_once (register_all new t) in out.0 ∷ runs later out.1

record Waiting (f j : ℕ) (t : Tasks) : Type 0 where
  eight : length t.slots ≡ 8
  held : get_or t.slots j none ≡ some f
  in_range : t.next_index < 8

register_all-Waiting :
    (f j : ℕ) (new : List ℕ) (t : Tasks)
    → Waiting f j t
    → Waiting f j (register_all new t) × ((register_all new t).next_index ≡ t.next_index)
unfolding register_all register
register_all-Waiting f j [] t w = (w, refl)
register_all-Waiting f j (task ∷ more) t w =
    register_all-Waiting f j more (register task t).1 (record {
      eight = place-length task t.slots ∙ w.eight;
      held = place-keeps task f j t.slots w.held;
      in_range = w.in_range;
    })

run_once-Closer :
    (f j : ℕ) (t : Tasks)
    → j < 8
    → Waiting f j t
    → Closer f t.next_index j ((run_once t).0, (run_once t).1.next_index)
unfolding run_once
run_once-Closer f j t hj w =
    run_loop-Closer f j t.slots w.eight w.held hj (length t.slots) t.next_index w.in_range
      (omega (arith, w.eight))

run_once-Waiting : (f j : ℕ) (t : Tasks) → j < 8 → Waiting f j t → Waiting f j (run_once t).1
unfolding run_once Closer
run_once-Waiting f j t hj w = record {
  eight = w.eight;
  held = w.held;
  in_range = (run_once-Closer f j t hj w).0;
}

waits_within :
    (f j : ℕ) (rounds : List (List ℕ)) (t : Tasks)
    → j < 8
    → Waiting f j t
    → distance t.next_index j < length rounds
    → (k : ℕ) × (k ≤ distance t.next_index j) × (get_elem? (runs rounds t) k ≡ some (some f))
unfolding runs Closer
waits_within f j [] t hj w near = absurd (omega arith)
waits_within f j (new ∷ later) t hj w near =
    let kept = register_all-Waiting f j new t w in
    let t' = register_all new t in
    let out = run_once t' in
    elim (run_once-Closer f j t' hj kept.0).1 [
      | inl now ↦ (0, omega arith, ap some now)
      | inr closer ↦
          let rest =
            waits_within f j later out.1 hj (run_once-Waiting f j t' hj kept.0)
              (omega (arith, kept.1, closer)) in
          (suc rest.0, omega (arith, rest.1, closer, kept.1), rest.2)
    ]

-- A task that is registered in a slot runs within the next eight calls of run_once, whatever is
-- registered in between.
pub runs_fair :
    (f j : ℕ) (rounds : List (List ℕ)) (t : Tasks)
    → length t.slots ≡ 8
    → t.next_index < 8
    → get_or t.slots j none ≡ some f
    → j < 8
    → 8 ≤ length rounds
    → (k : ℕ) × (k < 8) × (get_elem? (runs rounds t) k ≡ some (some f))
runs_fair f j rounds t len low held hj long =
    let found =
      waits_within f j rounds t hj (record { eight = len; held = held; in_range = low })
        (omega arith) in
    (found.0, omega (arith, found.1), found.2)
