-- ===== src/Apply/SelfTest.antt =====
-- The self test of apply_action.rs: when its bounded wait sees the timer, and what this means for the
-- transaction.
use mon_os.Base.{
  ℕ, zero, suc, ◌+◌, ◌-◌, ◌≤◌, ◌<◌, ◌≡◌, refl, subst, arith, true, false, leb, Bool-cases, inl, inr,
}
use mon_os.Journal.{Action}
use mon_os.Apply.{
  ApplyResult, ApplyError, Counters, System, spin, after_spin, spin_rounds, self_test_ok,
  apply_action_atomic,
}
use mon_os.Apply.Atomic.{Applied, Legal, new_quantum, apply_action_atomic-Applied}

unfoldable pub Rising : (ℕ → ℕ) → Type 0
Rising f = (i j : ℕ) → i ≤ j → f i ≤ f j

seen_later :
    (ticks : ℕ → ℕ) (first t : ℕ)
    → Rising ticks
    → leb 1 (ticks t - first) ≡ true
    → first < ticks (t + 1)
unfolding Rising
seen_later ticks first t rising e = ground (arith, rising t (t + 1) (omega arith))

-- If the last read of the wait would see an advance, the wait ends at an instant that sees it.
spin_sees :
    (ticks : ℕ → ℕ) (first n t : ℕ)
    → Rising ticks
    → first < ticks (t + n)
    → first < ticks (spin ticks first n t)
unfolding spin Rising
spin_sees ticks first zero t rising late = subst (λ k. first < ticks k) (omega arith) late
spin_sees ticks first (suc n) t rising late = elim (Bool-cases (leb 1 (ticks t - first))) [
  | inl e ↦ rw e (seen_later ticks first t rising e)
  | inr e ↦
      rw e
        (spin_sees ticks first n (t + 1) rising (subst (λ k. first < ticks k) (omega arith) late))
]

self_test_passes :
    (c : Counters) (s : System)
    → Rising c.ticks
    → c.ticks s.now < c.ticks (s.now + 2 + spin_rounds)
    → ((i j : ℕ) → c.faults i ≡ c.faults j)
    → (self_test_ok c s).0 ≡ true
unfolding self_test_ok after_spin
self_test_passes c s rising late calm =
    let sees = spin_sees c.ticks (c.ticks s.now) spin_rounds (s.now + 2) rising late in
    let same = calm (spin c.ticks (c.ticks s.now) spin_rounds (s.now + 2) + 1) (s.now + 1) in
    ground (arith, sees, same)

self_test_fails :
    (c : Counters) (s : System) → ((i j : ℕ) → c.ticks i ≡ c.ticks j) → (self_test_ok c s).0 ≡ false
unfolding self_test_ok after_spin
self_test_fails c s still =
    let same = still (spin c.ticks (c.ticks s.now) spin_rounds (s.now + 2)) s.now in
    ground (arith, same)

Applied-commits :
    (c : Counters) (seq : ℕ) (a : Action) (s : System) (res : ApplyResult) (s' : System)
    → s.system_ready ≡ true
    → Legal a
    → (self_test_ok c s).0 ≡ true
    → Applied c seq a s res s'
    → (res ≡ ApplyResult.ok) × (s'.quantum_us ≡ new_quantum a s.quantum_us)
Applied-commits c seq a s _ _ ready legal passed (Applied.rejected s' (inl early) same) =
    ground arith
Applied-commits c seq a s _ _ ready legal passed (Applied.rejected s' (inr bad) same) =
    absurd (bad legal)
Applied-commits c seq a s _ _ ready legal passed (Applied.committed s' _ _ _ same) =
    (refl, same.quantum_is)
Applied-commits c seq a s _ _ ready legal passed (Applied.rolled_back s' _ _ failed same) =
    ground arith

Applied-stopped :
    (c : Counters) (seq : ℕ) (a : Action) (s : System) (res : ApplyResult) (s' : System)
    → s.system_ready ≡ true
    → Legal a
    → (self_test_ok c s).0 ≡ false
    → Applied c seq a s res s'
    → (res ≡ ApplyResult.err ApplyError.self_test_failed) × (s'.quantum_us ≡ s.quantum_us)
Applied-stopped c seq a s _ _ ready legal failed (Applied.rejected s' (inl early) same) =
    ground arith
Applied-stopped c seq a s _ _ ready legal failed (Applied.rejected s' (inr bad) same) =
    absurd (bad legal)
Applied-stopped c seq a s _ _ ready legal failed (Applied.committed s' _ _ passed same) =
    ground arith
Applied-stopped c seq a s _ _ ready legal failed (Applied.rolled_back s' _ _ _ same) =
    (refl, same.quantum_is)

-- An action is committed, and changes the quantum as asked, when the system is ready, the action is
-- legal, the timer never runs backwards and ticks before the 50,000 reads of the wait are over, and no
-- page fault is counted meanwhile.
pub apply_action_atomic-commits :
    (c : Counters) (seq : ℕ) (a : Action) (s : System)
    → s.system_ready ≡ true
    → Legal a
    → Rising c.ticks
    → c.ticks s.now < c.ticks (s.now + 2 + spin_rounds)
    → ((i j : ℕ) → c.faults i ≡ c.faults j)
    → let end = apply_action_atomic c seq a s in
      (end.0 ≡ ApplyResult.ok) × (end.1.quantum_us ≡ new_quantum a s.quantum_us)
apply_action_atomic-commits c seq a s ready legal rising late calm =
    Applied-commits c seq a s _ _ ready legal (self_test_passes c s rising late calm)
      (apply_action_atomic-Applied c seq a s)

-- A timer that stands still for the whole wait, as with interrupts masked, rolls every legal action
-- back: the call returns SelfTestFailed, and the quantum is what it was.
apply_action_atomic-stopped :
    (c : Counters) (seq : ℕ) (a : Action) (s : System)
    → s.system_ready ≡ true
    → Legal a
    → ((i j : ℕ) → c.ticks i ≡ c.ticks j)
    → let end = apply_action_atomic c seq a s in
      (end.0 ≡ ApplyResult.err ApplyError.self_test_failed) × (end.1.quantum_us ≡ s.quantum_us)
apply_action_atomic-stopped c seq a s ready legal still =
    Applied-stopped c seq a s _ _ ready legal (self_test_fails c s still)
      (apply_action_atomic-Applied c seq a s)
