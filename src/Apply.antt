-- ===== src/Apply.antt =====
-- kernel/src/apply_action.rs: the gate through which the agent changes the scheduling quantum, with
-- its journal, its self test and its rollback. Interrupts move the two counters of idt.rs while the
-- code runs, so they are functions of the instant, and each read of a counter takes one instant.
pub mod Atomic
pub mod Session
pub mod SelfTest
pub mod Tests
use mon_os.Base.{
  ℕ, zero, suc, ◌+◌, ◌-◌, ◌*◌, ◌%◌, ◌^◌, Bool, true, false, not, ◌&&◌, ◌||◌, Option, none, some,
  List, [], ◌∷◌, ◌++◌, ◌==◌, ltb, leb, if◌then◌else◌, u32, u64,
}
use mon_os.Journal.{Action, Line, journal_intent, journal_commit, journal_fail, journal_reject}

pub data ApplyError : Type 0 where
  not_allowed : ApplyError
  invalid_params : ApplyError
  execute_failed : ApplyError
  self_test_failed : ApplyError

-- ApplyResult<()>
pub data ApplyResult : Type 0 where
  ok : ApplyResult
  err : (e : ApplyError) → ApplyResult

-- `e as u32`
unfoldable pub code_of : ApplyError → ℕ
code_of ApplyError.not_allowed = 1
code_of ApplyError.invalid_params = 3
code_of ApplyError.execute_failed = 4
code_of ApplyError.self_test_failed = 5

-- idt::timer_ticks and idt::page_faults at each instant
pub record Counters : Type 0 where
  pub ticks : ℕ → ℕ
  pub faults : ℕ → ℕ

-- The statics, the lines sent so far, and the instant.
pub record System : Type 0 where
  pub quantum_us : ℕ
  pub seq : ℕ
  pub system_ready : Bool
  pub journal : List Line
  pub now : ℕ

abbrev start : System
start = record { quantum_us = 1000; seq = 0; system_ready = false; journal = []; now = 0 }

abbrev pub set_quantum_kind : ℕ
set_quantum_kind = 1

abbrev pub trim_cache_kind : ℕ
trim_cache_kind = 4

unfoldable is_allowed : ℕ → Bool
is_allowed kind = (kind == set_quantum_kind) || (kind == trim_cache_kind)

unfoldable validate_params : Action → Bool
validate_params a =
    if a.kind == set_quantum_kind
    then leb 100 (u32 a.param1) && leb (u32 a.param1) 50000
    else if a.kind == trim_cache_kind
    then ltb 0 (u64 a.param1) && leb (u64 a.param1) (16 * 1024 * 1024)
    else false

unfoldable log : Line → System → System
log line s = record s { journal = s.journal ++ (line ∷ []) }

-- The effect; its result is the constant true.
unfoldable write_quantum : ℕ → System → System
write_quantum us s = record s { quantum_us = us }

unfoldable at_instant : ℕ → System → System
at_instant t s = record s { now = t }

abbrev spin_rounds : ℕ
spin_rounds = 50000

-- The busy wait: at most the given number of reads, until the ticks moved on; the instant after it.
unfoldable spin : (ℕ → ℕ) → ℕ → ℕ → ℕ → ℕ
spin ticks first zero t = t
spin ticks first (suc n) t =
    let rest = spin ticks first n (t + 1) in if leb 1 (ticks t - first) then t + 1 else rest

-- The instant after the busy wait of a self test that starts at `t`
unfoldable after_spin : ℕ → Counters → ℕ → ℕ
after_spin n c t = spin c.ticks (c.ticks t) n (t + 2)

unfoldable self_test_ok : Counters → System → Bool × System
self_test_ok c s =
    let start_ticks = c.ticks s.now in
    let start_pf = c.faults (s.now + 1) in
    let t = after_spin spin_rounds c s.now in
    let dt = c.ticks t - start_ticks in
    let dp = c.faults (t + 1) - start_pf in (leb 1 dt && (dp == 0), at_instant (t + 2) s)

-- The `match a.kind` that runs the action. trim_cache is a stub that returns true.
unfoldable perform : Action → System → Bool × System
perform a s =
    if a.kind == set_quantum_kind
    then (true, write_quantum (u32 a.param1) s)
    else if a.kind == trim_cache_kind
    then (true, s)
    else (false, s)

-- From the self test on
unfoldable conclude : ℕ → Action → ℕ → Bool × System → ApplyResult × System
conclude seq a before (true, s) = (ApplyResult.ok, log (journal_commit seq a) s)
conclude seq a before (false, s) = (
  ApplyResult.err ApplyError.self_test_failed,
  log (journal_fail seq a (code_of ApplyError.self_test_failed)) (write_quantum before s),
)

unfoldable check_performed : Counters → ℕ → Action → ℕ → Bool × System → ApplyResult × System
check_performed c seq a before (true, s) = conclude seq a before (self_test_ok c s)
check_performed c seq a before (false, s) = (
  ApplyResult.err ApplyError.execute_failed,
  log (journal_fail seq a (code_of ApplyError.execute_failed)) s,
)

pub apply_action_atomic : Counters → ℕ → Action → System → ApplyResult × System
apply_action_atomic c seq a s =
    if not s.system_ready
    then (ApplyResult.err ApplyError.not_allowed, log (journal_reject seq a) s)
    else if not (is_allowed a.kind) || not (validate_params a)
    then (ApplyResult.err ApplyError.not_allowed, log (journal_reject seq a) s)
    else check_performed c seq a s.quantum_us (perform a (log (journal_intent seq a) s))

pub record ActionOutcome : Type 0 where
  pub result : ℕ
  pub selftest_code : ℕ
  pub snapshot_id : ℕ

unfoldable pub result_code : ApplyResult → ℕ
result_code ApplyResult.ok = 0
result_code (ApplyResult.err e) = code_of e

-- SEQ = SEQ.wrapping_add(1)
unfoldable pub next_seq : System → System
next_seq s = record s { seq = (s.seq + 1) % 2 ^ 64 }

-- The two pointers are optional values; the return value is `none` for -1 and the outcome, as it is
-- left in memory, for 0.
unfoldable pub ai_propose_action :
    Counters → Option Action → Option ActionOutcome → System → Option ActionOutcome × System
ai_propose_action c none outcome s = (none, s)
ai_propose_action c (some a) none s = (none, s)
ai_propose_action c (some a) (some outcome) s =
    let done = apply_action_atomic c s.seq a (next_seq s) in
    (
      some (record {
        result = result_code done.0;
        selftest_code = outcome.selftest_code;
        snapshot_id = outcome.snapshot_id;
      }),
      done.1,
    )

unfoldable set_system_ready : System → System
set_system_ready s = record s { system_ready = true }

unfoldable get_quantum_us : System → ℕ
get_quantum_us s = s.quantum_us
