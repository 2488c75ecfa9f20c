-- ===== src/Model.antt =====
-- kernel/src/ai_model.rs: the header of a model file and where its layers lie. A pointer is an
-- address; `base.add` must stay inside the object, so it does not wrap.
pub mod Layers
pub mod Tests
use mon_os.Base.{
  ℕ, zero, suc, ◌+◌, ◌*◌, Bool, true, false, ◌&&◌, ◌||◌, Option, none, some, List, [], ◌∷◌, ◌==◌,
  ltb, leb, if◌then◌else◌, add64, saturating_add, saturating_mul,
}
use mon_os.Base.Memory.{Memory, byte_at, read_le}
use mon_os.Base.Loops.{rounds}

-- The magic as the little-endian number of its four bytes; `_res` is never read.
pub record ModelHeader : Type 0 where
  pub magic : ℕ
  pub n_layers : ℕ
  pub hidden : ℕ
  pub vocab : ℕ
  pub dtype : ℕ

-- *b"AIMD"
abbrev model_magic : ℕ
model_magic = b'A' + 256 * (b'I' + 256 * (b'M' + 256 * b'D'))

abbrev pub header_size : ℕ
header_size = 16

abbrev pub payload_offset : ℕ
payload_offset = 0x10

unfoldable pub valid : ModelHeader → Bool
valid h =
    (h.magic == model_magic)
    && leb 1 h.n_layers
    && leb 1 h.hidden
    && ((h.dtype == 0) || (h.dtype == 1))

unfoldable pub header_at : Memory → ℕ → ModelHeader
header_at mem a = record {
  magic = read_le mem 4 a;
  n_layers = read_le mem 2 (a + 4);
  hidden = read_le mem 2 (a + 6);
  vocab = read_le mem 4 (a + 8);
  dtype = byte_at mem (a + 12);
}

unfoldable pub read_unaligned : Memory → ℕ → ℕ → Option ModelHeader
read_unaligned mem ptr len =
    if (ptr == 0) || ltb len header_size then none else some (header_at mem ptr)

-- `last_out`, and `out_dim` of layer `l`
unfoldable pub last_out : ModelHeader → ℕ
last_out h = if h.vocab == 0 then h.hidden else h.vocab

unfoldable pub out_dim : ModelHeader → ℕ → ℕ
out_dim h l = if (l + 1) == h.n_layers then last_out h else h.hidden

-- The body of the loops over the layers
unfoldable pub add_layer : ModelHeader → ℕ → ℕ → ℕ
add_layer h l total =
    saturating_add (saturating_add total (saturating_mul h.hidden (out_dim h l)))
      (saturating_mul (out_dim h l) 4)

-- `for l in 0..layer`
unfoldable pub offset : ModelHeader → ℕ → ℕ
offset h layer = rounds layer 0 (add_layer h) 0

-- WeightsLayout::compute, and its only field `total_bytes`
unfoldable pub compute : ModelHeader → Option ℕ
compute h =
    if h.dtype == 0 then (if h.n_layers == 0 then none else some (offset h h.n_layers)) else none

unfoldable pub layer_ptr_int8 : ℕ → ModelHeader → ℕ → Option ℕ
layer_ptr_int8 base h layer =
    if h.dtype == 0
    then (if leb h.n_layers layer
        then none
        else some (base + add64 payload_offset (offset h layer)))
    else none

unfoldable pub layer_dims : ModelHeader → ℕ → Option (ℕ × ℕ)
layer_dims h layer = if leb h.n_layers layer then none else some (h.hidden, out_dim h layer)

-- The rest of bias_ptr_i32 after `layer_dims`
unfoldable pub bias_after : ℕ → ℕ → Option (ℕ × ℕ) → Option ℕ
bias_after base start none = none
bias_after base start (some (i, o)) =
    some (base + add64 payload_offset (saturating_add start (saturating_mul i o)))

unfoldable pub bias_ptr_i32 : ℕ → ModelHeader → ℕ → Option ℕ
bias_ptr_i32 base h layer =
    if h.dtype == 0
    then (if leb h.n_layers layer
        then none
        else bias_after base (offset h layer) (layer_dims h layer))
    else none
