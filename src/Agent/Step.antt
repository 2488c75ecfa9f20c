-- ===== src/Agent/Step.antt =====
-- The step function of ai_agent.rs around its inference, with the gate of apply_action.rs behind it.
use mon_os.Base.{
  ℕ, ◌≡◌, refl, arith, Bool, true, false, not, Option, none, some, ◌==◌, if◌then◌else◌, bit_and,
  ◌⊎◌, inl, inr,
}
use mon_os.Base.Memory.{Memory}
use mon_os.Model.{ModelHeader, header_size, valid, read_unaligned}
use mon_os.Journal.{Action}
use mon_os.Apply.{
  ApplyResult, Counters, System, ActionOutcome, ai_propose_action, next_seq, result_code, code_of,
}
use mon_os.Apply.Atomic.{Applied, Legal, apply_action_atomic-Applied}
use mon_os.Agent.{Config, Counts, infer_and_propose, gather_telemetry}
use mon_os.Agent.Proposal.{infer_and_propose-Legal}

-- `scratch` is written before it is read in each layer, and so is not kept.
pub record AgentState : Type 0 where
  pub hdr : ModelHeader
  pub model_ptr : ℕ
  pub counts : Counts

-- What the step reads of the other modules
pub record Readings : Type 0 where
  pub ticks : ℕ
  pub pf : ℕ
  pub free_kib : ℕ
  pub runqueue_len : ℕ
  pub model_len : ℕ

unfoldable pub checked : Option ModelHeader → Option ModelHeader
checked none = none
checked (some h) = if valid h then some h else none

unfoldable pub load_model : Memory → ℕ → Option ModelHeader
load_model mem addr = checked (read_unaligned mem addr header_size)

unfoldable pub fresh : ℕ → Readings → Option ModelHeader → Option AgentState
fresh addr r none = none
fresh addr r (some h) =
    some (record {
      hdr = h;
      model_ptr = addr;
      counts = record { prev_ticks = r.ticks; prev_pf = r.pf };
    })

unfoldable pub ensure_init : Memory → ℕ → Readings → Option AgentState → Option AgentState
ensure_init mem addr r (some st) = some st
ensure_init mem addr r none = fresh addr r (load_model mem addr)

abbrev pub needs_manual_confirm : ℕ
needs_manual_confirm = 4

abbrev pub no_outcome : ActionOutcome
no_outcome = record { result = 0; selftest_code = 0; snapshot_id = 0 }

-- The answer of the gate, if the step gets that far, and the two states after it.
pub record Stepped : Type 0 where
  pub state : Option AgentState
  pub answer : Option ActionOutcome
  pub system : System

unfoldable pub submit : Counters → AgentState → Action → System → Stepped
submit c st a sys =
    let out = ai_propose_action c (some a) (some no_outcome) sys in
    if not (bit_and a.flags needs_manual_confirm == 0)
    then record { state = some st; answer = none; system = sys }
    else record { state = some st; answer = out.0; system = out.1 }

unfoldable pub step_with :
    Config → Memory → Readings → Counters → Bool → Option AgentState → System → Stepped
step_with k mem r c running none sys = record { state = none; answer = none; system = sys }
step_with k mem r c false (some st) sys = record { state = some st; answer = none; system = sys }
step_with k mem r c true (some st) sys =
    let read = gather_telemetry r.ticks r.pf r.free_kib r.runqueue_len st.counts in
    submit c (record st { counts = read.1 })
      (infer_and_propose k mem st.model_ptr st.hdr read.0 r.model_len) sys

-- `addr` is AI_MODEL_ADDR and `running` is AI_RUNNING.
unfoldable pub step :
    Config → Memory → ℕ → Readings → Counters → Bool → Option AgentState → System → Stepped
step k mem addr r c running st sys = step_with k mem r c running (ensure_init mem addr r st) sys

-- Not turned down: committed, or rolled back after the self test.
pub data Taken : Option ActionOutcome → Type 0 where
  committed : (o : ActionOutcome) → o.result ≡ 0 → Taken (some o)
  rolled_back : (o : ActionOutcome) → o.result ≡ 5 → Taken (some o)

Applied-result :
    (c : Counters) (seq : ℕ) (a : Action) (s : System) (res : ApplyResult) (s' : System)
    → s.system_ready ≡ true
    → Legal a
    → Applied c seq a s res s'
    → (result_code res ≡ 0) ⊎ (result_code res ≡ 5)
unfolding result_code code_of
Applied-result c seq a s _ _ ready legal (Applied.rejected s' (inl early) same) = ground arith
Applied-result c seq a s _ _ ready legal (Applied.rejected s' (inr bad) same) = absurd (bad legal)
Applied-result c seq a s _ _ ready legal (Applied.committed s' _ _ _ same) = inl refl
Applied-result c seq a s _ _ ready legal (Applied.rolled_back s' _ _ _ same) = inr refl

next_seq-ready : (sys : System) → sys.system_ready ≡ true → (next_seq sys).system_ready ≡ true
unfolding next_seq
next_seq-ready sys ready = ready

submit-Taken :
    (c : Counters) (st : AgentState) (a : Action) (sys : System)
    → sys.system_ready ≡ true
    → Legal a
    → bit_and a.flags 4 ≡ 0
    → Taken (submit c st a sys).answer
unfolding submit ai_propose_action
submit-Taken c st a sys ready legal flags =
    let done = apply_action_atomic-Applied c sys.seq a (next_seq sys) in
    simp flags
      (elim (Applied-result c sys.seq a (next_seq sys) _ _ (next_seq-ready sys ready) legal done) [
        | inl zero_e ↦ Taken.committed _ zero_e
        | inr five_e ↦ Taken.rolled_back _ five_e
      ])

-- Once the system is ready and the agent has its model and runs, no step is turned down by the gate:
-- each ends with an action that is committed, or rolled back after the self test.
pub step-Taken :
    (k : Config) (mem : Memory) (addr : ℕ) (r : Readings) (c : Counters) (st : AgentState)
    (sys : System)
    → sys.system_ready ≡ true
    → Taken (step k mem addr r c true (some st) sys).answer
unfolding step step_with ensure_init
step-Taken k mem addr r c st sys ready =
    let read = gather_telemetry r.ticks r.pf r.free_kib r.runqueue_len st.counts in
    let sound = infer_and_propose-Legal k mem st.model_ptr st.hdr read.0 r.model_len in
    submit-Taken c (record st { counts = read.1 }) _ sys ready sound.0 sound.1
