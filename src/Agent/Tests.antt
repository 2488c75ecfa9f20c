-- ===== src/Agent/Tests.antt =====
-- Proposals of ai_agent.rs with and without a model's weights.
use mon_os.Base.{
  ◌∷◌, ◌-◌, ◌/◌, ◌^◌, ◌≡◌, refl, true, false, none, some, List, ◌==◌, if◌then◌else◌, bit_and, [],
}
use mon_os.Base.Memory.{Memory}
use mon_os.Base.Loops.{rounds}
use mon_os.Model.{ModelHeader, read_unaligned, valid}
use mon_os.Apply.Atomic.{Legal}
use mon_os.Agent.{
  matmul_int8, row, cell, sign_extend, Telemetry, default_config, infer_and_propose, propose,
  clamp_quantum, add_i32, sub_i32, mul_i32, half_i32, less, negative, fallback, saturating_add_i32,
}
use mon_os.Apply.{Counters, System}
use mon_os.Agent.Step.{
  AgentState, Readings, Taken, step, step-Taken, load_model, checked, ensure_init,
}
use mon_os.Agent.Loop.{
  Round, ai_agent_main, seen_as_agent, until_stopped, steps, ai_agent_main-steps,
}
use mon_os.Agent.Proposal.{infer_and_propose-Legal}

-- One layer of two inputs and two outputs, with the weights 2, 255 (-1), 1, 1 and the biases 640 and 0.
abbrev weights : Memory
weights a =
    if a == 0x2010
    then 2
    else if a == 0x2011
    then 255
    else if a == 0x2012
    then 1
    else if a == 0x2013
    then 1
    else if a == 0x2014
    then 0x80
    else if a == 0x2015
    then 2
    else 0

abbrev tiny : ModelHeader
tiny = record { magic = 0x444d4941; n_layers = 1; hidden = 2; vocab = 0; dtype = 0 }

abbrev calm : Telemetry
calm = record { runq = 3; irq_rate = 100; free_kb = 65536; pf_rate = 0 }

fallback-calm : fallback calm ≡ 45
unfolding fallback add_i32 sub_i32 half_i32 less negative
fallback-calm = refl

saturating_add_i32-both : saturating_add_i32 (2 ^ 31 - 1) 1 ≡ 2 ^ 31 - 1
unfolding saturating_add_i32 negative add_i32
saturating_add_i32-both = refl

propose-calm : (propose default_config calm 45).param1 ≡ 1900
unfolding propose clamp_quantum add_i32 mul_i32 less
propose-calm = refl

infer_and_propose-Legal_example :
    let a = infer_and_propose default_config weights 0x2000 tiny calm 28 in
    Legal a × (bit_and a.flags 4 ≡ 0)
infer_and_propose-Legal_example = infer_and_propose-Legal default_config weights 0x2000 tiny calm 28

abbrev timer : Counters
timer = record { ticks = λ i. i / 10; faults = λ i. 0 }

abbrev ready : System
ready = record { quantum_us = 1000; seq = 0; system_ready = true; journal = []; now = 5 }

abbrev agent : AgentState
agent = record { hdr = tiny; model_ptr = 0x2000; counts = record { prev_ticks = 10; prev_pf = 0 } }

abbrev readings : Readings
readings = record { ticks = 110; pf = 0; free_kib = 65536; runqueue_len = 3; model_len = 28 }

step-Taken_example :
    Taken (step default_config weights 0x2000 readings timer true (some agent) ready).answer
step-Taken_example = step-Taken default_config weights 0x2000 readings timer agent ready refl

-- The rows 1 2 and 3 255 (-1), and the columns 1 3 and 2 255.
abbrev square : Memory
square a = if a == 0 then 1 else if a == 1 then 2 else if a == 2 then 3 else 255

matmul_int8-square : matmul_int8 square 0 0 2 2 2 0 ≡ 7 ∷ 0 ∷ 0 ∷ 7 ∷ []
unfolding matmul_int8 row cell add_i32 mul_i32 sign_extend rounds
matmul_int8-square = refl

-- The weights with the header of `tiny` before them
abbrev image : Memory
image a =
    if a == 0x2000
    then 0x41
    else if a == 0x2001
    then 0x49
    else if a == 0x2002
    then 0x4d
    else if a == 0x2003
    then 0x44
    else if a == 0x2004
    then 1
    else if a == 0x2006
    then 2
    else weights a

load_model_run : load_model image 0x2000 ≡ some tiny
unfolding load_model checked read_unaligned valid mon_os.Model.header_at
load_model_run = refl

-- Two rounds, and one that finds AI_RUNNING false
abbrev three_rounds : List Round
three_rounds =
    record { running = true; reads = readings; counters = timer }
    ∷ record { running = true; reads = readings; counters = timer }
    ∷ record { running = false; reads = readings; counters = timer }
    ∷ []

ai_agent_main-steps_example :
    ai_agent_main default_config image 0x2000 readings three_rounds ready
    ≡ seen_as_agent (until_stopped three_rounds).1 (
        steps default_config image 0x2000
          (until_stopped three_rounds).0
          (ensure_init image 0x2000 readings none)
          ready)
ai_agent_main-steps_example =
    ai_agent_main-steps default_config image 0x2000 tiny readings three_rounds ready load_model_run
