-- ===== src/Agent/Proposal.antt =====
-- What ai_agent.rs proposes, against the gate of apply_action.rs.
use mon_os.Base.{
  ℕ, zero, suc, ◌+◌, ◌-◌, ◌^◌, ◌≤◌, ◌<◌, ◌≡◌, min, refl, ap, arith, ◌&&◌, ◌||◌, ltb, ◌==◌,
  Bool-cases, Option-cases, some-injective, inl, inr, bit_and, Option, none, some, List, ◌++◌,
  length, length-append, length-drop, length-set, length-replicate, drop, subst, ◌∙◌, replicate,
}
use mon_os.Base.Memory.{Memory}
use mon_os.Model.{ModelHeader, layer_dims, layer_ptr_int8, bias_ptr_i32}
use mon_os.Apply.Atomic.{Legal}
use mon_os.Agent.{
  Config, Telemetry, Buffer, less, clamp_quantum, propose, infer_and_propose, add_i32, mul_i32,
  outputs, layer_with, run_layers, inference, has_weights, features, or_null,
}

clamp_quantum_lem : (q : ℕ) → q < 2 ^ 32 → (100 ≤ clamp_quantum q) × (clamp_quantum q ≤ 50000)
unfolding clamp_quantum less
clamp_quantum_lem q h = (ground arith, ground arith)

propose-Legal :
    (k : Config) (tel : Telemetry) (score : ℕ)
    → Legal (propose k tel score) × (bit_and (propose k tel score).flags 4 ≡ 0)
unfolding propose add_i32
propose-Legal k tel score =
    elim (Bool-cases (ltb tel.free_kb k.mem_low_kb || ltb k.pf_rate_thresh tel.pf_rate)) [
      | inl low ↦ rw low (Legal.trim refl (omega arith) (omega arith), refl)
      | inr fine ↦
          let q = add_i32 k.quantum_base_us (mul_i32 score k.quantum_scale) in
          let bounds = clamp_quantum_lem q (omega arith) in
          rw fine
            (Legal.quantum refl (omega (arith, bounds.0, bounds.1)) (omega (arith, bounds.1)), refl)
    ]

-- Whatever the model, the counters and the build's constants, the agent proposes an action that the
-- gate takes for legal, and never one that asks for a manual confirmation.
pub infer_and_propose-Legal :
    (k : Config) (mem : Memory) (model : ℕ) (h : ModelHeader) (tel : Telemetry) (model_len : ℕ)
    → let a = infer_and_propose k mem model h tel model_len in Legal a × (bit_and a.flags 4 ≡ 0)
unfolding infer_and_propose
infer_and_propose-Legal k mem model h tel model_len = propose-Legal k tel _

-- The buffer has its 256 places, and the values in use are among them.
pub record Sized (b : Buffer) : Type 0 where
  pub places : length b.xbuf ≡ 256
  pub in_use : b.x_len ≤ 256

length-outputs :
    (k : Config) (mem : Memory) (w_ptr b_ptr : ℕ) (xbuf : List ℕ) (in_dim n oi : ℕ)
    → length (outputs k mem w_ptr b_ptr xbuf in_dim n oi) ≡ n
unfolding outputs
length-outputs k mem w_ptr b_ptr xbuf in_dim zero oi = refl
length-outputs k mem w_ptr b_ptr xbuf in_dim (suc n) oi =
    ap suc (length-outputs k mem w_ptr b_ptr xbuf in_dim n (oi + 1))

layer_with-Sized :
    (k : Config) (mem : Memory) (model : ℕ) (h : ModelHeader) (l : ℕ) (b b' : Buffer)
    (dims : Option (ℕ × ℕ))
    → Sized b
    → layer_with k mem model h l b dims ≡ some b'
    → Sized b'
unfolding layer_with
layer_with-Sized k mem model h l b b' none sized e = ground arith
layer_with-Sized k mem model h l b b' (some (i, o)) sized e =
    let w_ptr : ℕ = or_null (layer_ptr_int8 model h l) in
    let b_ptr : ℕ = or_null (bias_ptr_i32 model h l) in
    elim (Bool-cases (ltb b.x_len i || ltb 256 o || (i == 0) || (o == 0) || (w_ptr == 0))) [
      | inl stop ↦ let bad = rw (layer_with, stop) at e in ground arith
      | inr fine ↦
          let out = outputs k mem w_ptr b_ptr b.xbuf i o 0 in
          let narrow : o ≤ 256 = ground arith in
          subst Sized (some-injective (rw (layer_with, fine) at e)) (record {
            places = omega (
              arith,
              length-append out (drop o b.xbuf),
              length-drop o b.xbuf,
              length-outputs k mem w_ptr b_ptr b.xbuf i o 0,
              sized.places,
              narrow,
            );
            in_use = narrow;
          })
    ]

run_layers-Sized :
    (k : Config) (mem : Memory) (model : ℕ) (h : ModelHeader) (n l : ℕ) (b : Buffer)
    → Sized b
    → Sized (run_layers k mem model h n l b)
unfolding run_layers
run_layers-Sized k mem model h zero l b sized = sized
run_layers-Sized k mem model h (suc n) l b sized =
    elim (Option-cases (layer_with k mem model h l b (layer_dims h l))) [
      | inl stop ↦ rw (run_layers, stop) sized
      | inr (b', go) ↦
          rw (run_layers, go)
            (run_layers-Sized k mem model h n (l + 1) b'
              (layer_with-Sized k mem model h l b b' (layer_dims h l) sized go))
    ]

length-features : (h : ModelHeader) (tel : Telemetry) → length (features h tel) ≡ min h.hidden 256
unfolding features
length-features h tel =
    length-set _ 3 _
    ∙ length-set _ 2 _
    ∙ length-set _ 1 _
    ∙ length-set _ 0 _
    ∙ length-replicate (min h.hidden 256) 0

-- Whatever the model, the buffer of the inference keeps its 256 places, and the number of values in use
-- never exceeds them, so that no index of it is out of bounds.
inference-Sized :
    (k : Config) (mem : Memory) (model : ℕ) (h : ModelHeader) (tel : Telemetry) (model_len : ℕ)
    → Sized (inference k mem model h tel model_len)
unfolding inference
inference-Sized k mem model h tel model_len =
    let x = features h tel in
    let len : ℕ = min h.hidden 256 in
    let input : Buffer = record { xbuf = x ++ replicate (256 - len) 0; x_len = len } in
    let start : Sized input = record {
      places = omega (
        arith,
        length-append x (replicate (256 - len) 0),
        length-features h tel,
        length-replicate (256 - len) zero,
      );
      in_use = omega arith;
    } in
    elim (Bool-cases (has_weights h model_len && (h.dtype == 0))) [
      | inl ran ↦ simp ran (run_layers-Sized k mem model h h.n_layers 0 input start)
      | inr plain ↦ simp plain start
    ]
