-- ===== src/Apply/Session.antt =====
-- Sequences of calls of ai_propose_action (apply_action.rs): what its answers say about the state, and
-- the bounds of the quantum.
use mon_os.Base.{
  ℕ, ◌+◌, ◌%◌, ◌^◌, ◌≤◌, ◌≡◌, refl, sym, ap, ◌∙◌, arith, Option, none, some, List, [], ◌∷◌, ◌++◌,
  append-nil, append_assoc, ◌==◌, if◌then◌else◌, All, ◌⊎◌, inl, inr, Bool-cases,
}
use mon_os.Journal.{Action, Line}
use mon_os.Apply.{
  ApplyResult, Counters, System, ActionOutcome, ai_propose_action, next_seq, result_code, code_of,
}
use mon_os.Apply.Atomic.{Applied, Legal, new_quantum, apply_action_atomic-Applied}

-- The lines of one call, and its quantum, by its answer.
unfoldable pub entry : ℕ → Action → ℕ → List Line
entry seq a r =
    if r == 1
    then Line.reject seq a.kind ∷ []
    else Line.intent seq a.kind
      ∷ (if r == 0 then Line.commit seq a.kind ∷ [] else Line.fail seq r ∷ [])

unfoldable pub answered_quantum : Action → ℕ → ℕ → ℕ
answered_quantum a r before = if r == 0 then new_quantum a before else before

record Answered (a : Action) (s : System) (r : ℕ) (s' : System) : Type 0 where
  code : (r ≡ 0) ⊎ ((r ≡ 1) ⊎ (r ≡ 5))
  legal : r ≡ 0 → Legal a
  quantum_is : s'.quantum_us ≡ answered_quantum a r s.quantum_us
  journal_is : s'.journal ≡ s.journal ++ entry s.seq a r
  seq_is : s'.seq ≡ (s.seq + 1) % 2 ^ 64

Applied-Answered :
    (c : Counters) (a : Action) (s s' : System) (res : ApplyResult)
    → Applied c s.seq a (next_seq s) res s'
    → Answered a s (result_code res) s'
unfolding next_seq result_code code_of entry answered_quantum
Applied-Answered c a s _ _ (Applied.rejected s' _ same) = record {
  code = inr (inl refl);
  legal = ground arith;
  quantum_is = same.quantum_is;
  journal_is = same.journal_is;
  seq_is = same.seq_is;
}
Applied-Answered c a s _ _ (Applied.committed s' _ legal _ same) = record {
  code = inl refl;
  legal = λ _. legal;
  quantum_is = same.quantum_is;
  journal_is = same.journal_is;
  seq_is = same.seq_is;
}
Applied-Answered c a s _ _ (Applied.rolled_back s' _ _ _ same) = record {
  code = inr (inr refl);
  legal = ground arith;
  quantum_is = same.quantum_is;
  journal_is = same.journal_is;
  seq_is = same.seq_is;
}

abbrev blank : ActionOutcome
blank = record { result = 0; selftest_code = 0; snapshot_id = 0 }

unfoldable pub result_of : Option ActionOutcome → ℕ
result_of none = 255
result_of (some o) = o.result

-- The answers to a sequence of proposals, and the state after it.
unfoldable pub propose_all : Counters → List Action → System → List ℕ × System
propose_all c [] s = ([], s)
propose_all c (a ∷ todo) s =
    let here = ai_propose_action c (some a) (some blank) s in
    let rest = propose_all c todo here.1 in (result_of here.0 ∷ rest.0, rest.1)

-- The journal and the quantum that the answers alone tell.
unfoldable pub trail : ℕ → List Action → List ℕ → List Line
trail seq [] rs = []
trail seq (a ∷ todo) [] = []
trail seq (a ∷ todo) (r ∷ rs) = entry seq a r ++ trail ((seq + 1) % 2 ^ 64) todo rs

unfoldable pub replay : List Action → List ℕ → ℕ → ℕ
replay [] rs q = q
replay (a ∷ todo) [] q = q
replay (a ∷ todo) (r ∷ rs) q = replay todo rs (answered_quantum a r q)

propose_one :
    (c : Counters) (a : Action) (s : System)
    → let here = ai_propose_action c (some a) (some blank) s in
      Answered a s (result_of here.0) here.1
unfolding ai_propose_action result_of
propose_one c a s = Applied-Answered c a s _ _ (apply_action_atomic-Applied c s.seq a (next_seq s))

-- After any sequence of proposals, the journal has grown by the lines that the answers tell, with
-- consecutive sequence numbers, the quantum is that of the last accepted change of it, and each answer
-- is 0, 1 or 5.
pub propose_all-trail :
    (c : Counters) (todo : List Action) (s : System)
    → let out = propose_all c todo s in
      (out.1.journal ≡ s.journal ++ trail s.seq todo out.0)
      × (out.1.quantum_us ≡ replay todo out.0 s.quantum_us)
      × All (λ r. (r ≡ 0) ⊎ ((r ≡ 1) ⊎ (r ≡ 5))) out.0
unfolding propose_all trail replay
propose_all-trail c [] s = (sym (append-nil s.journal), refl, tt)
propose_all-trail c (a ∷ todo) s =
    let here = ai_propose_action c (some a) (some blank) s in
    let one = propose_one c a s in
    let rest = propose_all-trail c todo here.1 in
    let told = (propose_all c todo here.1).0 in
    (
      rest.0
          ∙ ap (λ j. j ++ trail here.1.seq todo told) one.journal_is
          ∙ ap (λ q. (s.journal ++ entry s.seq a (result_of here.0)) ++ trail q todo told)
              one.seq_is
          ∙ append_assoc s.journal (entry s.seq a (result_of here.0))
              (trail ((s.seq + 1) % 2 ^ 64) todo told),
      rest.1 ∙ ap (λ q. replay todo told q) one.quantum_is,
      (one.code, rest.2),
    )

Legal-bounds :
    (a : Action) (q : ℕ)
    → Legal a
    → 100 ≤ q
    → q ≤ 50000
    → (100 ≤ new_quantum a q) × (new_quantum a q ≤ 50000)
unfolding new_quantum
Legal-bounds a q (Legal.quantum k low high) lo hi = rw k (low, high)
Legal-bounds a q (Legal.trim k low high) lo hi = rw k (lo, hi)

Answered-bounds :
    (a : Action) (s s' : System) (r : ℕ)
    → Answered a s r s'
    → 100 ≤ s.quantum_us
    → s.quantum_us ≤ 50000
    → (100 ≤ s'.quantum_us) × (s'.quantum_us ≤ 50000)
unfolding answered_quantum
Answered-bounds a s s' r one lo hi = elim (Bool-cases (r == 0)) [
  | inl e ↦
      let fine = Legal-bounds a s.quantum_us (one.legal (ground arith)) lo hi in
      rw (one.quantum_is, e) fine
  | inr e ↦ rw (one.quantum_is, e) (lo, hi)
]

-- Whatever is proposed, the quantum stays between 100 and 50,000 microseconds.
pub propose_all-bounds :
    (c : Counters) (todo : List Action) (s : System)
    → 100 ≤ s.quantum_us
    → s.quantum_us ≤ 50000
    → let q = (propose_all c todo s).1.quantum_us in (100 ≤ q) × (q ≤ 50000)
unfolding propose_all answered_quantum
propose_all-bounds c [] s lo hi = (lo, hi)
propose_all-bounds c (a ∷ todo) s lo hi =
    let here = ai_propose_action c (some a) (some blank) s in
    let kept = Answered-bounds a s here.1 (result_of here.0) (propose_one c a s) lo hi in
    propose_all-bounds c todo here.1 kept.0 kept.1
