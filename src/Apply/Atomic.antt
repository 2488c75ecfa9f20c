-- ===== src/Apply/Atomic.antt =====
-- The transaction of apply_action.rs: what each call of apply_action_atomic may do to the quantum, the
-- journal and the other statics.
use mon_os.Base.{
  ℕ, ◌≤◌, ◌<◌, ◌≡◌, refl, arith, Bool, true, false, not, ◌&&◌, ◌||◌, List, [], ◌∷◌, ◌++◌,
  append_assoc, ◌==◌, if◌then◌else◌, u32, u64, Bool-cases, inl, inr, ◌⊎◌,
}
use mon_os.Journal.{Action, Line, journal_intent, journal_commit, journal_fail, journal_reject}
use mon_os.Apply.{
  ApplyError, ApplyResult, System, Counters, set_quantum_kind, trim_cache_kind, is_allowed,
  validate_params, self_test_ok, perform, conclude, check_performed, apply_action_atomic,
  write_quantum, log, at_instant, code_of,
}

-- What the code accepts, in the words of the two interfaces.
pub data Legal (a : Action) : Type 0 where
  quantum : a.kind ≡ set_quantum_kind → 100 ≤ u32 a.param1 → u32 a.param1 ≤ 50000 → Legal a
  trim : a.kind ≡ trim_cache_kind → 0 < u64 a.param1 → u64 a.param1 ≤ 16777216 → Legal a

-- The quantum after an accepted action
unfoldable pub new_quantum : Action → ℕ → ℕ
new_quantum a before = if a.kind == set_quantum_kind then u32 a.param1 else before

-- Everything but the instant
pub record SameBut (quantum : ℕ) (lines : List Line) (s s' : System) : Type 0 where
  pub quantum_is : s'.quantum_us ≡ quantum
  pub journal_is : s'.journal ≡ s.journal ++ lines
  pub seq_is : s'.seq ≡ s.seq
  pub ready_is : s'.system_ready ≡ s.system_ready

-- The three ways a call may end.
pub data Applied (c : Counters) (seq : ℕ) (a : Action) (s : System)
    : ApplyResult → System → Type 0 where
  rejected :
      (s' : System)
      → ((s.system_ready ≡ false) ⊎ (Legal a → ⊥))
      → SameBut s.quantum_us (Line.reject seq a.kind ∷ []) s s'
      → Applied c seq a s (ApplyResult.err ApplyError.not_allowed) s'
  committed :
      (s' : System)
      → s.system_ready ≡ true
      → Legal a
      → (self_test_ok c s).0 ≡ true
      → SameBut
          (new_quantum a s.quantum_us)
          (Line.intent seq a.kind ∷ Line.commit seq a.kind ∷ [])
          s
          s'
      → Applied c seq a s ApplyResult.ok s'
  rolled_back :
      (s' : System)
      → s.system_ready ≡ true
      → Legal a
      → (self_test_ok c s).0 ≡ false
      → SameBut s.quantum_us (Line.intent seq a.kind ∷ Line.fail seq 5 ∷ []) s s'
      → Applied c seq a s (ApplyResult.err ApplyError.self_test_failed) s'

gate-Legal : (a : Action) → (is_allowed a.kind && validate_params a) ≡ true → Legal a
unfolding is_allowed validate_params
gate-Legal a h = elim (Bool-cases (a.kind == set_quantum_kind)) [
  | inl e ↦ Legal.quantum (ground arith) (ground arith) (ground arith)
  | inr e ↦ Legal.trim (ground arith) (ground arith) (ground arith)
]

Legal-gate : (a : Action) → Legal a → (is_allowed a.kind && validate_params a) ≡ true
unfolding is_allowed validate_params
Legal-gate a (Legal.quantum k low high) = ground arith
Legal-gate a (Legal.trim k low high) = ground arith

Legal-not_gate : (a : Action) → (is_allowed a.kind && validate_params a) ≡ false → Legal a → ⊥
Legal-not_gate a h legal = ground (arith, Legal-gate a legal)

-- The journal entry and the effect; the self test cannot see them.
perform-Legal :
    (a : Action) (s : System)
    → Legal a
    → perform a s ≡ (true, write_quantum (new_quantum a s.quantum_us) s)
unfolding perform write_quantum new_quantum
perform-Legal a s (Legal.quantum k low high) = rw k refl
perform-Legal a s (Legal.trim k low high) = rw k refl

-- The end of a call whose action was run, by the result of the self test.
concluded :
    (c : Counters) (seq : ℕ) (a : Action) (s : System) (t : Bool)
    → s.system_ready ≡ true
    → Legal a
    → (self_test_ok c s).0 ≡ t
    → let end = conclude seq a s.quantum_us (
      t,
      (self_test_ok c
          (write_quantum (new_quantum a s.quantum_us) (log (journal_intent seq a) s))).1,
    ) in
      Applied c seq a s end.0 end.1
unfolding conclude self_test_ok at_instant write_quantum log journal_intent journal_commit
    journal_fail code_of
concluded c seq a s true ready legal passed = Applied.committed _ ready legal passed (record {
  quantum_is = refl;
  journal_is = append_assoc s.journal (_ ∷ []) (_ ∷ []);
  seq_is = refl;
  ready_is = refl;
})
concluded c seq a s false ready legal failed = Applied.rolled_back _ ready legal failed (record {
  quantum_is = refl;
  journal_is = append_assoc s.journal (_ ∷ []) (_ ∷ []);
  seq_is = refl;
  ready_is = refl;
})

rejected_same :
    (seq : ℕ) (a : Action) (s : System)
    → SameBut s.quantum_us (Line.reject seq a.kind ∷ []) s (log (journal_reject seq a) s)
unfolding log journal_reject
rejected_same seq a s = record {
  quantum_is = refl;
  journal_is = refl;
  seq_is = refl;
  ready_is = refl;
}

gate_open :
    (a : Action)
    → (is_allowed a.kind && validate_params a) ≡ true
    → (not (is_allowed a.kind) || not (validate_params a)) ≡ false
gate_open a h = ground arith

gate_shut :
    (a : Action)
    → (is_allowed a.kind && validate_params a) ≡ false
    → (not (is_allowed a.kind) || not (validate_params a)) ≡ true
gate_shut a h = ground arith

performed :
    (c : Counters) (seq : ℕ) (a : Action) (s : System)
    → s.system_ready ≡ true
    → Legal a
    → let end = check_performed c seq a s.quantum_us (perform a (log (journal_intent seq a) s)) in
      Applied c seq a s end.0 end.1
unfolding check_performed log self_test_ok write_quantum
performed c seq a s ready legal =
    rw (perform-Legal a (log (journal_intent seq a) s) legal)
      (concluded c seq a s (self_test_ok c s).0 ready legal refl)

-- Whatever the state, the action and the counters, a call of apply_action_atomic ends in one of three
-- ways. An action that comes too early or is not legal is rejected: one line, and no other change. A
-- legal action whose self test passes is committed: the new quantum, and the two lines of intent and
-- commit. A legal action whose self test fails is rolled back: the old quantum, and the two lines of
-- intent and failure 5. The sequence number and the ready flag never change.
pub apply_action_atomic-Applied :
    (c : Counters) (seq : ℕ) (a : Action) (s : System)
    → let end = apply_action_atomic c seq a s in Applied c seq a s end.0 end.1
unfolding apply_action_atomic
apply_action_atomic-Applied c seq a s = elim (Bool-cases s.system_ready) [
  | inl ready ↦ elim (Bool-cases (is_allowed a.kind && validate_params a)) [
    | inl legal ↦ simp (ready, gate_open a legal) (performed c seq a s ready (gate-Legal a legal))
    | inr shut ↦
        simp (ready, gate_shut a shut)
          (Applied.rejected _ (inr (Legal-not_gate a shut)) (rejected_same seq a s))
  ]
  | inr early ↦ simp early (Applied.rejected _ (inl early) (rejected_same seq a s))
]
