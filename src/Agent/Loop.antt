-- ===== src/Agent/Loop.antt =====
-- ai_agent_main of ai_agent.rs, the agent with a loop of its own, against the steps that the run queue makes.
use mon_os.Base.{
  ℕ, ◌≡◌, refl, Bool, true, false, not, Option, none, some, List, [], ◌∷◌, ◌==◌, if◌then◌else◌,
  bit_and, Bool-cases, inl, inr,
}
use mon_os.Base.Memory.{Memory}
use mon_os.Model.{ModelHeader}
use mon_os.Apply.{Counters, System, ActionOutcome, ai_propose_action}
use mon_os.Agent.{Config, Counts, infer_and_propose, gather_telemetry}
use mon_os.Agent.Step.{
  AgentState, Readings, load_model, needs_manual_confirm, no_outcome, step, submit, step_with,
  ensure_init, fresh,
}

-- What a round of the loop reads: AI_RUNNING, and the other modules
pub record Round : Type 0 where
  pub running : Bool
  pub reads : Readings
  pub counters : Counters

-- Where the agent stands after some rounds: what the gate has answered in each, its counters, and the
-- system. `idle` is idle_hlt, from which it never returns.
pub data Agent : Type 0 where
  idle : List (Option ActionOutcome) → System → Agent
  looping : List (Option ActionOutcome) → Counts → System → Agent

unfoldable pub answered : Option ActionOutcome → Agent → Agent
answered o (Agent.idle os sys) = Agent.idle (o ∷ os) sys
answered o (Agent.looping os c sys) = Agent.looping (o ∷ os) c sys

-- The loop's body up to the `hlt`, from the counters: the answer of the gate, if it is asked, and the system
unfoldable pub propose_once :
    Config → Memory → ℕ → ModelHeader → Round → Counts → System → Option ActionOutcome × System
propose_once k mem model h r counts sys =
    let read =
      gather_telemetry r.reads.ticks r.reads.pf r.reads.free_kib r.reads.runqueue_len counts in
    let action = infer_and_propose k mem model h read.0 r.reads.model_len in
    if not (bit_and action.flags needs_manual_confirm == 0)
    then (none, sys)
    else ai_propose_action r.counters (some action) (some no_outcome) sys

unfoldable pub counts_after : Round → Counts → Counts
counts_after r counts =
    (gather_telemetry r.reads.ticks r.reads.pf r.reads.free_kib r.reads.runqueue_len counts).1

-- The `while` loop, over the rounds that have passed
unfoldable pub main_loop : Config → Memory → ℕ → ModelHeader → List Round → Counts → System → Agent
main_loop k mem model h [] counts sys = Agent.looping [] counts sys
main_loop k mem model h (r ∷ rs) counts sys =
    let out = propose_once k mem model h r counts sys in
    let rest = answered out.0 (main_loop k mem model h rs (counts_after r counts) out.1) in
    if r.running then rest else Agent.idle [] sys

unfoldable pub start_main :
    Config → Memory → ℕ → Readings → List Round → System → Option ModelHeader → Agent
start_main k mem model start rs sys none = Agent.idle [] sys
start_main k mem model start rs sys (some h) =
    main_loop k mem model h rs (record { prev_ticks = start.ticks; prev_pf = start.pf }) sys

-- `start` is what is read before the loop.
unfoldable pub ai_agent_main : Config → Memory → ℕ → Readings → List Round → System → Agent
ai_agent_main k mem model start rs sys = start_main k mem model start rs sys (load_model mem model)

-- The rounds before the one that finds AI_RUNNING false, and whether there is one
unfoldable pub until_stopped : List Round → List Round × Bool
until_stopped [] = ([], false)
until_stopped (r ∷ rs) =
    let rest = until_stopped rs in if r.running then (r ∷ rest.0, rest.1) else ([], true)

-- Steps in turn, as the run queue makes them: the answers, and the two states after them
pub record Steps : Type 0 where
  pub answers : List (Option ActionOutcome)
  pub state : Option AgentState
  pub system : System

unfoldable pub steps : Config → Memory → ℕ → List Round → Option AgentState → System → Steps
steps k mem addr [] st sys = record { answers = []; state = st; system = sys }
steps k mem addr (r ∷ rs) st sys =
    let done = step k mem addr r.reads r.counters r.running st sys in
    let rest = steps k mem addr rs done.state done.system in
    record { answers = done.answer ∷ rest.answers; state = rest.state; system = rest.system }

unfoldable pub counts_of : Option AgentState → Counts
counts_of none = record { prev_ticks = 0; prev_pf = 0 }
counts_of (some st) = st.counts

-- What is left of the steps where the agent has a loop of its own that ends with them, or goes on
unfoldable pub seen_as_agent : Bool → Steps → Agent
seen_as_agent true s = Agent.idle s.answers s.system
seen_as_agent false s = Agent.looping s.answers (counts_of s.state) s.system

answered-seen_as_agent :
    (stopped : Bool) (o : Option ActionOutcome) (s : Steps)
    → answered o (seen_as_agent stopped s)
      ≡ seen_as_agent stopped
          (record { answers = o ∷ s.answers; state = s.state; system = s.system })
unfolding answered seen_as_agent
answered-seen_as_agent true o s = refl
answered-seen_as_agent false o s = refl

abbrev agent : ModelHeader → ℕ → Counts → AgentState
agent h model counts = record { hdr = h; model_ptr = model; counts = counts }

-- A step of an agent that runs is a round of the loop.
step-propose_once :
    (k : Config) (mem : Memory) (model : ℕ) (h : ModelHeader) (r : Round) (counts : Counts)
    (sys : System)
    → step k mem model r.reads r.counters true (some (agent h model counts)) sys ≡ record {
      state = some (agent h model (counts_after r counts));
      answer = (propose_once k mem model h r counts sys).0;
      system = (propose_once k mem model h r counts sys).1;
    }
unfolding step step_with ensure_init submit propose_once counts_after
step-propose_once k mem model h r counts sys =
    let read =
      gather_telemetry r.reads.ticks r.reads.pf r.reads.free_kib r.reads.runqueue_len counts in
    let action = infer_and_propose k mem model h read.0 r.reads.model_len in
    elim (Bool-cases (bit_and action.flags needs_manual_confirm == 0)) [
      | inl asks ↦ rw asks refl
      | inr waits ↦ rw waits refl
    ]

main_loop-steps :
    (k : Config) (mem : Memory) (model : ℕ) (h : ModelHeader) (rs : List Round) (counts : Counts)
    (sys : System)
    → main_loop k mem model h rs counts sys
      ≡ seen_as_agent
          (until_stopped rs).1
          (steps k mem model (until_stopped rs).0 (some (agent h model counts)) sys)
unfolding main_loop until_stopped steps
main_loop-steps k mem model h [] counts sys = unfold seen_as_agent counts_of in refl
main_loop-steps k mem model h (r ∷ rs) counts sys = elim (Bool-cases r.running) [
  | inr stops ↦ rw stops (unfold seen_as_agent in refl)
  | inl runs ↦
      let out = propose_once k mem model h r counts sys in
      let later = main_loop-steps k mem model h rs (counts_after r counts) out.1 in
      simp (runs, step-propose_once k mem model h r counts sys, later)
        (answered-seen_as_agent (until_stopped rs).1 out.0 (
          steps k mem model (until_stopped rs).0 (some (agent h model (counts_after r counts)))
            out.1))
]

-- For an address with a valid model: ai_agent_main answers, in the rounds before one finds AI_RUNNING false,
-- exactly what the steps of the run queue answer, and leaves the system as they leave it; its counters are
-- theirs while it loops, and after the first round that finds AI_RUNNING false it is idle for ever.
pub ai_agent_main-steps :
    (k : Config) (mem : Memory) (model : ℕ) (h : ModelHeader) (start : Readings) (rs : List Round)
    (sys : System)
    → load_model mem model ≡ some h
    → ai_agent_main k mem model start rs sys
      ≡ seen_as_agent
          (until_stopped rs).1
          (steps k mem model (until_stopped rs).0 (ensure_init mem model start none) sys)
unfolding ai_agent_main start_main ensure_init fresh
ai_agent_main-steps k mem model h start rs sys loads =
    rw loads (main_loop-steps k mem model h rs _ sys)
