-- ===== src/Pci.antt =====
-- kernel/src/pci.rs: the configuration space behind the ports 0xCF8 and 0xCFC. What the hardware
-- answers to an address is a parameter, `cfg`, and does not change while it is read.
pub mod Address
pub mod Enumerate
pub mod Tests
use mon_os.Base.{
  ℕ, zero, suc, ◌+◌, ◌-◌, ◌*◌, ◌%◌, ◌^◌, Bool, true, false, not, ◌&&◌, ◌||◌, Option, none, some,
  List, [], ◌∷◌, ◌++◌, ◌==◌, leb, if◌then◌else◌, u32, ◌<<<◌, ◌>>>◌, bit_and, bit_or,
}

pub record PciAddress : Type 0 where
  pub bus : ℕ
  pub device : ℕ
  pub function : ℕ

pub record Bar : Type 0 where
  pub base : ℕ
  pub is_memory : Bool
  pub is_64bit : Bool
  pub prefetchable : Bool

-- The word for CONFIG_ADDRESS; `offset & !0x03` on 8 bits
unfoldable pub config_address : PciAddress → ℕ → ℕ
config_address a offset =
    bit_or
      (bit_or (bit_or (bit_or (u32 (1 <<< 31)) (u32 (a.bus <<< 16))) (u32 (a.device <<< 11)))
        (u32 (a.function <<< 8)))
      (bit_and offset (2 ^ 8 - 2 ^ 2))

unfoldable pub read_u32 : (ℕ → ℕ) → PciAddress → ℕ → ℕ
read_u32 cfg a offset = u32 (cfg (config_address a offset))

unfoldable pub read_u16 : (ℕ → ℕ) → PciAddress → ℕ → ℕ
read_u16 cfg a offset = bit_and (read_u32 cfg a offset >>> (bit_and offset 0x02 * 8)) 0xffff

unfoldable pub read_u8 : (ℕ → ℕ) → PciAddress → ℕ → ℕ
read_u8 cfg a offset = bit_and (read_u32 cfg a offset >>> (bit_and offset 0x03 * 8)) 0xff

unfoldable pub vendor_id : (ℕ → ℕ) → PciAddress → ℕ
vendor_id cfg a = read_u16 cfg a 0x00

unfoldable pub device_id : (ℕ → ℕ) → PciAddress → ℕ
device_id cfg a = read_u16 cfg a 0x02

unfoldable pub class_code : (ℕ → ℕ) → PciAddress → ℕ
class_code cfg a = read_u8 cfg a 0x0b

unfoldable pub subclass : (ℕ → ℕ) → PciAddress → ℕ
subclass cfg a = read_u8 cfg a 0x0a

unfoldable pub prog_if : (ℕ → ℕ) → PciAddress → ℕ
prog_if cfg a = read_u8 cfg a 0x09

unfoldable pub header_type : (ℕ → ℕ) → PciAddress → ℕ
header_type cfg a = read_u8 cfg a 0x0e

unfoldable pub has_function : (ℕ → ℕ) → PciAddress → Bool
has_function cfg a = not (vendor_id cfg a == 0xffff)

-- The calls of the callback, in order: the functions from `f` on, `n` of them
unfoldable pub functions : (ℕ → ℕ) → ℕ → ℕ → ℕ → ℕ → List PciAddress
functions cfg bus device zero f = []
functions cfg bus device (suc n) f =
    let a : PciAddress = record { bus = bus; device = device; function = f } in
    let rest = functions cfg bus device n (f + 1) in if has_function cfg a then a ∷ rest else rest

-- The body of the loop over the devices
unfoldable pub visit_device : (ℕ → ℕ) → ℕ → ℕ → List PciAddress
visit_device cfg bus device =
    let a : PciAddress = record { bus = bus; device = device; function = 0 } in
    if not (has_function cfg a)
    then []
    else a
      ∷ (if not (bit_and (header_type cfg a) 0x80 == 0) then functions cfg bus device 7 1 else [])

unfoldable pub devices : (ℕ → ℕ) → ℕ → ℕ → ℕ → List PciAddress
devices cfg bus zero device = []
devices cfg bus (suc n) device = visit_device cfg bus device ++ devices cfg bus n (device + 1)

unfoldable pub buses : (ℕ → ℕ) → ℕ → ℕ → List PciAddress
buses cfg zero bus = []
buses cfg (suc n) bus = devices cfg bus 32 0 ++ buses cfg n (bus + 1)

unfoldable pub enumerate : (ℕ → ℕ) → List PciAddress
enumerate cfg = buses cfg 256 0

-- The calls of the callback of `find_usb_controllers`
unfoldable pub usb_only : (ℕ → ℕ) → List PciAddress → List PciAddress
usb_only cfg [] = []
usb_only cfg (a ∷ rest) =
    let later = usb_only cfg rest in
    if (class_code cfg a == 0x0c) && (subclass cfg a == 0x03) then a ∷ later else later

unfoldable pub find_usb_controllers : (ℕ → ℕ) → List PciAddress
find_usb_controllers cfg = usb_only cfg (enumerate cfg)

-- The memory BAR, from its low word
unfoldable pub memory_bar : (ℕ → ℕ) → PciAddress → ℕ → ℕ → Bar
memory_bar cfg a offset value =
    let is_64 = bit_and (value >>> 1) 0x3 == 0x2 in
    let low = bit_and value 0xfffffff0 in
    record {
      base = if is_64 then bit_or low (read_u32 cfg a (offset + 4) <<< 32) else low;
      is_memory = true;
      is_64bit = is_64;
      prefetchable = not (bit_and value (1 <<< 3) == 0);
    }

unfoldable pub bar_of : (ℕ → ℕ) → PciAddress → ℕ → ℕ → Option Bar
bar_of cfg a offset value =
    if value == 0
    then none
    else if not (bit_and value 0x01 == 0)
    then some (record {
      base = bit_and value (2 ^ 32 - 2 ^ 2);
      is_memory = false;
      is_64bit = false;
      prefetchable = false;
    })
    else some (memory_bar cfg a offset value)

unfoldable pub bar : (ℕ → ℕ) → PciAddress → ℕ → Option Bar
bar cfg a index =
    if leb 6 index
    then none
    else bar_of cfg a (0x10 + index * 4) (read_u32 cfg a (0x10 + index * 4))
