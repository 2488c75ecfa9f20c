-- ===== src/Pci/Address.antt =====
-- The address word of pci.rs.
use mon_os.Base.{ℕ, ◌+◌, ◌-◌, ◌*◌, ◌/◌, ◌^◌, ◌<◌, ◌≡◌, arith, u32, ◌<<<◌, bit_and, bit_or}
use mon_os.Base.Bits.{bit_or_fields, bit_and_high}
use mon_os.Pci.{PciAddress, config_address}

-- The ranges of the three numbers
pub record InRange (a : PciAddress) : Type 0 where
  pub bus_small : a.bus < 256
  pub device_small : a.device < 32
  pub function_small : a.function < 8

join_fields : (k x q r y : ℕ) → x ≡ q * 2 ^ k → y ≡ r → r < 2 ^ k → bit_or x y ≡ q * 2 ^ k + r
join_fields k x q r y ex ey small = rw (ex, ey) (bit_or_fields k q r small)

-- The word holds the enable bit, the three numbers and the dword's offset, each in its own bits.
config_address_lem :
    (a : PciAddress) (offset : ℕ)
    → InRange a
    → offset < 256
    → config_address a offset
      ≡ 2 ^ 31 + a.bus * 2 ^ 16 + a.device * 2 ^ 11 + a.function * 2 ^ 8 + offset / 4 * 4
unfolding config_address
config_address_lem a offset r small =
    let one =
      join_fields 31 (u32 (1 <<< 31)) 1 (a.bus * 2 ^ 16) (u32 (a.bus <<< 16)) (omega arith)
        (omega (arith, r.bus_small)) (omega (arith, r.bus_small)) in
    let two =
      join_fields 16 (bit_or (u32 (1 <<< 31)) (u32 (a.bus <<< 16))) (2 ^ 15 + a.bus)
        (a.device * 2 ^ 11) (u32 (a.device <<< 11)) (omega (arith, one))
        (omega (arith, r.device_small)) (omega (arith, r.device_small)) in
    let three =
      join_fields 11 (bit_or (bit_or (u32 (1 <<< 31)) (u32 (a.bus <<< 16))) (u32 (a.device <<< 11)))
        ((2 ^ 15 + a.bus) * 2 ^ 5 + a.device) (a.function * 2 ^ 8) (u32 (a.function <<< 8))
        (omega (arith, two)) (omega (arith, r.function_small)) (omega (arith, r.function_small)) in
    let four =
      join_fields 8
        (bit_or (bit_or (bit_or (u32 (1 <<< 31)) (u32 (a.bus <<< 16))) (u32 (a.device <<< 11)))
          (u32 (a.function <<< 8)))
        (((2 ^ 15 + a.bus) * 2 ^ 5 + a.device) * 2 ^ 3 + a.function) (offset / 2 ^ 2 * 2 ^ 2)
        (bit_and offset (2 ^ 8 - 2 ^ 2)) (omega (arith, three))
        (bit_and_high 8 2 offset (omega arith) small) (omega (arith, small)) in
    omega (arith, four)

-- Two reads go to the same dword only if bus, device, function and dword are the same.
config_address-injective :
    (a b : PciAddress) (i j : ℕ)
    → InRange a
    → InRange b
    → i < 256
    → j < 256
    → config_address a i ≡ config_address b j
    → (a.bus ≡ b.bus) × (a.device ≡ b.device) × (a.function ≡ b.function) × (i / 4 ≡ j / 4)
config_address-injective a b i j ra rb hi hj same =
    let left = config_address_lem a i ra hi in
    let right = config_address_lem b j rb hj in
    (
      omega (
        arith, left, right, same, ra.device_small, ra.function_small, rb.device_small,
        rb.function_small,
      ),
      omega (
        arith, left, right, same, ra.device_small, ra.function_small, rb.device_small,
        rb.function_small,
      ),
      omega (
        arith, left, right, same, ra.device_small, ra.function_small, rb.device_small,
        rb.function_small,
      ),
      omega (
        arith, left, right, same, ra.device_small, ra.function_small, rb.device_small,
        rb.function_small,
      ),
    )
