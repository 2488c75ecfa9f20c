-- ===== src/Base/Memory.antt =====
-- Byte-addressed memory as the kernel reads it through raw pointers, little-endian.
use Prim.Native.Nat.{ℕ, zero, suc, ◌+◌, ◌*◌, ◌%◌, ◌^◌}
use mathlib.Core.List.{List, [], ◌∷◌}
use mathlib.Core.Path.{◌≡◌}
use native.Mathlib.Omega.{arith}
use mon_os.Base.Lists.{length}

-- What stands at each address; a byte is the value modulo 256.
abbrev pub Memory : Type 0
Memory = ℕ → ℕ

abbrev pub byte_at : Memory → ℕ → ℕ
byte_at mem a = mem a % 2 ^ 8

-- The unaligned little-endian read of a word of `n` bytes.
abbrev pub read_le : Memory → ℕ → ℕ → ℕ
read_le mem zero a = 0
read_le mem (suc n) a = byte_at mem a + 256 * read_le mem n (a + 1)

-- `core::slice::from_raw_parts(a, n)`
abbrev pub bytes_from : Memory → ℕ → ℕ → List ℕ
bytes_from mem a zero = []
bytes_from mem a (suc n) = byte_at mem a ∷ bytes_from mem (a + 1) n

pub length-bytes_from : (mem : Memory) (a n : ℕ) → length (bytes_from mem a n) ≡ n
length-bytes_from mem a zero = omega arith
length-bytes_from mem a (suc n) = omega (arith, length-bytes_from mem (a + 1) n)
