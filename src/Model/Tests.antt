-- ===== src/Model/Tests.antt =====
-- A model of two layers of four inputs, for ai_model.rs.
use mon_os.Base.{ℕ, suc, ◌+◌, ◌^◌, ◌<◌, ◌≡◌, refl, arith, some, ◌==◌, if◌then◌else◌}
use mon_os.Base.Memory.{Memory}
use mon_os.Base.Loops.{rounds}
use mon_os.Model.{
  ModelHeader, model_magic, payload_offset, last_out, out_dim, add_layer, offset, compute,
  bias_ptr_i32, bias_after, layer_dims, header_at, read_unaligned,
}
use mon_os.Model.Layers.{Ranged, Placed, address, layers_tile}

abbrev small : ModelHeader
small = record { magic = model_magic; n_layers = 2; hidden = 4; vocab = 6; dtype = 0 }

abbrev small_bytes : Memory
small_bytes a = if a == 0x1004 then 2 else if a == 0x1006 then 4 else if a == 0x1008 then 6 else 0

read_unaligned-small : read_unaligned small_bytes 0x1000 16 ≡ some (record small { magic = 0 })
unfolding read_unaligned header_at
read_unaligned-small = refl

bias_ptr_i32-small : bias_ptr_i32 0x1000 small 1 ≡ some (0x1000 + 16 + 32 + 24)
unfolding bias_ptr_i32 bias_after layer_dims offset rounds add_layer out_dim last_out
bias_ptr_i32-small = refl

small-Ranged : Ranged small
small-Ranged = record { layers = omega arith; hidden = omega arith; vocab = omega arith }

layers_tile_example :
    (address 0x1000 small 0 ≡ 0x1000 + payload_offset)
    × ((l : ℕ)
        → l < 2
        → Placed 0x1000 small l (address 0x1000 small l) (address 0x1000 small (suc l)))
    × ((total : ℕ) × (compute small ≡ some total)
        × (address 0x1000 small 2 ≡ 0x1000 + payload_offset + total)
        × (total < 2 ^ 50))
layers_tile_example = layers_tile 0x1000 small small-Ranged refl (omega arith)
