-- ===== src/Agent.antt =====
-- kernel/src/ai_agent.rs: the agent that turns counters into a proposal for the gate. An `i32` is its
-- 32-bit pattern, so that `+` and `*` wrap as in a release build; an `i8` is its byte. The build's
-- features choose the constants, here a record.
pub mod Proposal
pub mod Step
pub mod Loop
pub mod Tests
use mon_os.Base.{
  ℕ, zero, suc, ◌+◌, ◌-◌, ◌*◌, ◌/◌, ◌%◌, ◌^◌, min, Bool, true, false, not, ◌&&◌, ◌||◌, Option, none,
  some, List, [], ◌∷◌, ◌++◌, ◌==◌, ltb, leb, if◌then◌else◌, u32, add64, ◌>>>◌, set, get_or, drop,
  replicate,
}
use mon_os.Base.Memory.{Memory, byte_at, read_le}
use mon_os.Base.Loops.{rounds}
use mon_os.Journal.{Action}
use mon_os.Model.{ModelHeader, payload_offset, compute, layer_ptr_int8, layer_dims, bias_ptr_i32}

record Config : Type 0 where
  requant_shift : ℕ
  quantum_base_us : ℕ
  quantum_scale : ℕ
  mem_low_kb : ℕ
  pf_rate_thresh : ℕ

abbrev default_config : Config
default_config = record {
  requant_shift = 6;
  quantum_base_us = 1000;
  quantum_scale = 20;
  mem_low_kb = 8 * 1024;
  pf_rate_thresh = 0;
}

abbrev trim_bytes : ℕ
trim_bytes = 1024 * 1024

abbrev requires_snapshot : ℕ
requires_snapshot = 1

-- `irq_errors` is the constant 0.
record Telemetry : Type 0 where
  runq : ℕ
  irq_rate : ℕ
  free_kb : ℕ
  pf_rate : ℕ

-- `x as i32` of an i8; the sign test; `a < b`; `a + b`, `a - b` and `a * b` on i32
unfoldable sign_extend : ℕ → ℕ
sign_extend b = if ltb (b % 2 ^ 8) 128 then b % 2 ^ 8 else b % 2 ^ 8 + (2 ^ 32 - 2 ^ 8)

unfoldable negative : ℕ → Bool
negative v = leb (2 ^ 31) v

unfoldable less : ℕ → ℕ → Bool
less a b = ltb ((a + 2 ^ 31) % 2 ^ 32) ((b + 2 ^ 31) % 2 ^ 32)

unfoldable add_i32 : ℕ → ℕ → ℕ
add_i32 a b = u32 (a + b)

unfoldable sub_i32 : ℕ → ℕ → ℕ
sub_i32 a b = u32 (a + (2 ^ 32 - b))

unfoldable mul_i32 : ℕ → ℕ → ℕ
mul_i32 a b = u32 (a * b)

-- `a / 2`, which rounds towards 0
unfoldable half_i32 : ℕ → ℕ
half_i32 a = if negative a then u32 (2 ^ 32 - (2 ^ 32 - a) / 2) else a / 2

unfoldable saturating_add_i32 : ℕ → ℕ → ℕ
saturating_add_i32 a b =
    if negative a && negative b
    then (if negative (add_i32 a b) then add_i32 a b else 2 ^ 31)
    else if not (negative a) && not (negative b)
    then (if negative (add_i32 a b) then 2 ^ 31 - 1 else add_i32 a b)
    else add_i32 a b

-- The feature vector `in_slice`; a write past its end is skipped.
unfoldable features : ModelHeader → Telemetry → List ℕ
features h tel =
    set
      (set
        (set (set (replicate (min h.hidden 256) 0) 0 (min tel.runq 127)) 1 (min tel.irq_rate 127)) 2
        (min (tel.free_kb / 1024) 127))
      3 (min tel.pf_rate 127)

unfoldable needed : Option ℕ → ℕ
needed none = 0
needed (some total) = add64 total payload_offset

unfoldable has_weights : ModelHeader → ℕ → Bool
has_weights h model_len =
    ltb payload_offset (needed (compute h)) && leb (needed (compute h)) model_len

-- `xbuf` and `x_len`
record Buffer : Type 0 where
  xbuf : List ℕ
  x_len : ℕ

-- The accumulator of output `oi`
unfoldable dot : Memory → ℕ → List ℕ → ℕ → ℕ
dot mem w_row xbuf in_dim =
    rounds in_dim 0
      (λ p acc.
        add_i32 acc
          (mul_i32 (sign_extend (byte_at mem (w_row + p))) (sign_extend (get_or xbuf p 0))))
      0

unfoldable with_bias : Memory → ℕ → ℕ → ℕ → ℕ
with_bias mem b_ptr oi acc =
    if b_ptr == 0 then acc else saturating_add_i32 acc (read_le mem 4 (b_ptr + oi * 4))

-- ReLU and requantization
unfoldable requantize : Config → ℕ → ℕ
requantize k v = let kept = if negative v then 0 else v in min (kept >>> k.requant_shift) 127

-- The `n` outputs from `oi` on; all are computed before `xbuf` is written.
unfoldable outputs : Config → Memory → ℕ → ℕ → List ℕ → ℕ → ℕ → ℕ → List ℕ
outputs k mem w_ptr b_ptr xbuf in_dim zero oi = []
outputs k mem w_ptr b_ptr xbuf in_dim (suc n) oi =
    requantize k (with_bias mem b_ptr oi (dot mem (w_ptr + oi * in_dim) xbuf in_dim))
    ∷ outputs k mem w_ptr b_ptr xbuf in_dim n (oi + 1)

unfoldable or_null : Option ℕ → ℕ
or_null none = 0
or_null (some p) = p

-- One layer; `none` is `break`.
unfoldable layer_with :
    Config → Memory → ℕ → ModelHeader → ℕ → Buffer → Option (ℕ × ℕ) → Option Buffer
layer_with k mem model h l b none = none
layer_with k mem model h l b (some (in_dim, out_dim)) =
    let w_ptr = or_null (layer_ptr_int8 model h l) in
    let b_ptr = or_null (bias_ptr_i32 model h l) in
    let out = outputs k mem w_ptr b_ptr b.xbuf in_dim out_dim 0 in
    if ltb b.x_len in_dim || ltb 256 out_dim || (in_dim == 0) || (out_dim == 0) || (w_ptr == 0)
    then none
    else some (record { xbuf = out ++ drop out_dim b.xbuf; x_len = out_dim })

unfoldable run_layers : Config → Memory → ℕ → ModelHeader → ℕ → ℕ → Buffer → Buffer
run_layers k mem model h zero l b = b
run_layers k mem model h (suc n) l b = elim (layer_with k mem model h l b (layer_dims h l)) [
  | none ↦ b
  | some b' ↦ run_layers k mem model h n (l + 1) b'
]

unfoldable inference : Config → Memory → ℕ → ModelHeader → Telemetry → ℕ → Buffer
inference k mem model h tel model_len =
    let x = features h tel in
    let len = min h.hidden 256 in
    let input : Buffer = record { xbuf = x ++ replicate (256 - len) 0; x_len = len } in
    let ran = run_layers k mem model h h.n_layers 0 input in
    if has_weights h model_len && (h.dtype == 0) then ran else input

-- The heuristic without weights
unfoldable fallback : Telemetry → ℕ
fallback tel =
    let free_mb = u32 (tel.free_kb / 1024) in
    let score =
      sub_i32 (sub_i32 (add_i32 tel.runq (half_i32 tel.irq_rate)) tel.pf_rate) (free_mb / 8) in
    let low = if less score (2 ^ 32 - 127) then 2 ^ 32 - 127 else score in
    if less 127 low then 127 else low

unfoldable score_of : ModelHeader → Telemetry → ℕ → Buffer → ℕ
score_of h tel model_len b =
    if not (has_weights h model_len)
    then fallback tel
    else if ltb 0 b.x_len
    then sign_extend (get_or b.xbuf 0 0)
    else 0

-- The two bounds on the quantum
unfoldable clamp_quantum : ℕ → ℕ
clamp_quantum q = let low = if less q 100 then 100 else q in if less 50000 low then 50000 else low

-- The end of infer_and_propose
unfoldable propose : Config → Telemetry → ℕ → Action
propose k tel score =
    if ltb tel.free_kb k.mem_low_kb || ltb k.pf_rate_thresh tel.pf_rate
    then record { kind = 4; flags = requires_snapshot; param1 = trim_bytes; param2 = 0; param3 = 0 }
    else record {
      kind = 1;
      flags = requires_snapshot;
      param1 = clamp_quantum (add_i32 k.quantum_base_us (mul_i32 score k.quantum_scale));
      param2 = 0;
      param3 = 0;
    }

unfoldable infer_and_propose : Config → Memory → ℕ → ModelHeader → Telemetry → ℕ → Action
infer_and_propose k mem model h tel model_len =
    propose k tel (score_of h tel model_len (inference k mem model h tel model_len))

-- The counters of the agent's state; `free_kib` and the run queue's length are read from pmm.rs and task.rs.
record Counts : Type 0 where
  prev_ticks : ℕ
  prev_pf : ℕ

unfoldable gather_telemetry : ℕ → ℕ → ℕ → ℕ → Counts → Telemetry × Counts
gather_telemetry ticks pf free_kib runqueue_len c = (
  record {
    runq = u32 runqueue_len;
    irq_rate = u32 (ticks - c.prev_ticks);
    free_kb = u32 free_kib;
    pf_rate = u32 (pf - c.prev_pf);
  },
  record { prev_ticks = ticks; prev_pf = pf },
)

-- `matmul_int8`: the accumulator of output (i, j), a row of outputs, and the rows, `out` in its order.
unfoldable cell : Memory → ℕ → ℕ → ℕ → ℕ → ℕ → ℕ
cell mem a_row b n k j =
    rounds k 0
      (λ p acc. add_i32 acc (
        mul_i32 (sign_extend (byte_at mem (a_row + p)))
          (sign_extend (byte_at mem (b + (p * n + j))))))
      0

unfoldable row : Memory → ℕ → ℕ → ℕ → ℕ → ℕ → ℕ → List ℕ
row mem a_row b n k zero j = []
row mem a_row b n k (suc left) j = cell mem a_row b n k j ∷ row mem a_row b n k left (j + 1)

unfoldable matmul_int8 : Memory → ℕ → ℕ → ℕ → ℕ → ℕ → ℕ → List ℕ
matmul_int8 mem a b n k zero i = []
matmul_int8 mem a b n k (suc left) i =
    row mem (a + i * k) b n k n 0 ++ matmul_int8 mem a b n k left (i + 1)
