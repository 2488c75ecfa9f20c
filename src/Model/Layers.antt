-- ===== src/Model/Layers.antt =====
-- The layers of a model file (ai_model.rs) lie one after another in the payload.
use mon_os.Base.{
  ℕ, zero, suc, ◌+◌, ◌*◌, ◌^◌, ◌≤◌, ◌<◌, ◌≡◌, refl, ap, ◌∙◌, subst, ◌≢◌, ◌-◌, arith, false, some,
  ◌==◌, leb,
}
use mon_os.Base.Loops.{rounds, rounds_last}
use mon_os.Model.{
  ModelHeader, payload_offset, last_out, out_dim, add_layer, offset, compute, layer_ptr_int8,
  layer_dims, bias_after, bias_ptr_i32,
}

-- The widths of the header's fields
pub record Ranged (h : ModelHeader) : Type 0 where
  pub layers : h.n_layers < 2 ^ 16
  pub hidden : h.hidden < 2 ^ 16
  pub vocab : h.vocab < 2 ^ 32

-- The bytes of a layer
unfoldable pub layer_bytes : ModelHeader → ℕ → ℕ
layer_bytes h l = h.hidden * out_dim h l + out_dim h l * 4

out_dim_bound : (h : ModelHeader) (l : ℕ) → Ranged h → out_dim h l < 2 ^ 32
unfolding out_dim last_out
out_dim_bound h l r = ground (arith, r.hidden, r.vocab)

product_bound : (a b : ℕ) → a < 2 ^ 16 → b < 2 ^ 32 → a * b ≤ 2 ^ 48
product_bound a b ha hb = grind arith

square_bound : (a : ℕ) → a < 2 ^ 16 → a * a ≤ 2 ^ 32
square_bound a ha = grind arith

-- Only the last layer may be as wide as the vocabulary.
layer_bytes_bound :
    (h : ModelHeader) (l : ℕ) → Ranged h → suc l < h.n_layers → layer_bytes h l ≤ 2 ^ 33
unfolding layer_bytes out_dim
layer_bytes_bound h l r low =
    let inner : (l + 1 == h.n_layers) ≡ false = ground arith in
    rw inner (omega (arith, square_bound h.hidden r.hidden, r.hidden))

add_layer_exact :
    (h : ModelHeader) (l total : ℕ)
    → Ranged h
    → total ≤ 2 ^ 63
    → add_layer h l total ≡ total + layer_bytes h l
unfolding add_layer layer_bytes
add_layer_exact h l total r room = ground (
  arith,
  product_bound h.hidden (out_dim h l) r.hidden (out_dim_bound h l r),
  out_dim_bound h l r,
)

offset-suc :
    (h : ModelHeader) (l : ℕ)
    → Ranged h
    → offset h l ≤ 2 ^ 63
    → offset h (suc l) ≡ offset h l + layer_bytes h l
unfolding offset
offset-suc h l r room =
    rounds_last (add_layer h) l 0 0
    ∙ ap (λ k. add_layer h k (offset h l)) (omega arith)
    ∙ add_layer_exact h l (offset h l) r room

-- No sum of layers of a model saturates.
offset-bound : (h : ModelHeader) (l : ℕ) → Ranged h → l < h.n_layers → offset h l ≤ l * 2 ^ 33
unfolding offset rounds
offset-bound h zero r low = omega arith
offset-bound h (suc l) r low =
    let before = offset-bound h l r (omega arith) in
    omega (
      arith,
      before,
      r.layers,
      offset-suc h l r (omega (arith, before, r.layers)),
      layer_bytes_bound h l r low,
    )

-- Where layer `l` stands: its weights, one byte for each input and output, then its biases, four bytes
-- for each output; `end` is the address behind them.
pub record Placed (base : ℕ) (h : ModelHeader) (l start end : ℕ) : Type 0 where
  inputs : ℕ
  outputs : ℕ
  biases : ℕ
  dims : layer_dims h l ≡ some (inputs, outputs)
  weights_at : layer_ptr_int8 base h l ≡ some start
  biases_at : bias_ptr_i32 base h l ≡ some biases
  behind_weights : biases ≡ start + inputs * outputs
  behind_biases : end ≡ biases + outputs * 4

pub address : ℕ → ModelHeader → ℕ → ℕ
address base h l = base + (payload_offset + offset h l)

layer_Placed :
    (base : ℕ) (h : ModelHeader) (l : ℕ)
    → Ranged h
    → h.dtype ≡ 0
    → l < h.n_layers
    → Placed base h l (address base h l) (address base h (suc l))
unfolding layer_dims layer_ptr_int8 bias_ptr_i32 bias_after address layer_bytes
layer_Placed base h l r int8 low =
    let room = offset-bound h l r low in
    let product = product_bound h.hidden (out_dim h l) r.hidden (out_dim_bound h l r) in
    let inside : leb h.n_layers l ≡ false = ground arith in
    record {
      inputs = h.hidden;
      outputs = out_dim h l;
      biases = address base h l + h.hidden * out_dim h l;
      dims = simp inside refl;
      weights_at = simp (int8, inside) (ap some (omega (arith, room, r.layers)));
      biases_at = simp (int8, inside) (ap some (ground (arith, room, product, r.layers)));
      behind_weights = refl;
      behind_biases = omega (arith, offset-suc h l r (omega (arith, room, r.layers)));
    }

total_bound : (h : ModelHeader) → Ranged h → h.n_layers ≢ 0 → offset h h.n_layers < 2 ^ 50
unfolding layer_bytes
total_bound h r some_layer =
    let last = h.n_layers - 1 in
    let room = offset-bound h last r (omega arith) in
    let product = product_bound h.hidden (out_dim h last) r.hidden (out_dim_bound h last r) in
    let end = offset-suc h last r (omega (arith, room, r.layers)) in
    let count : suc last ≡ h.n_layers = omega arith in
    subst (λ n. offset h n < 2 ^ 50) count
      (omega (arith, room, product, end, r.layers, out_dim_bound h last r))

-- For a header of an int8 model whose fields have their widths, each layer's weights lie right behind
-- the layer before it and its biases right behind its weights; the first begins behind the header, and
-- the last ends at the `total_bytes` of the payload, with no sum saturating or wrapping.
pub layers_tile :
    (base : ℕ) (h : ModelHeader)
    → Ranged h
    → h.dtype ≡ 0
    → h.n_layers ≢ 0
    → (address base h 0 ≡ base + payload_offset)
      × ((l : ℕ) → l < h.n_layers → Placed base h l (address base h l) (address base h (suc l)))
      × ((total : ℕ) × (compute h ≡ some total)
          × (address base h h.n_layers ≡ base + payload_offset + total)
          × (total < 2 ^ 50))
unfolding compute address offset rounds
layers_tile base h r int8 some_layer =
    let layers : (h.n_layers == 0) ≡ false = ground arith in
    (
      omega arith,
      λ l low. layer_Placed base h l r int8 low,
      (offset h h.n_layers, simp (int8, layers) refl, omega arith, total_bound h r some_layer),
    )
