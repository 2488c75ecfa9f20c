-- ===== src/Pci/Tests.antt =====
-- A bus with one device of two functions, for pci.rs.
use mon_os.Base.{
  ℕ, ◌*◌, ◌≡◌, refl, arith, true, false, some, [], ◌∷◌, ◌&&◌, ◌==◌, ltb, if◌then◌else◌,
}
use mon_os.Pci.{
  PciAddress, config_address, read_u32, read_u16, read_u8, vendor_id, header_type, has_function,
  functions, visit_device, enumerate, bar, bar_of, memory_bar,
}
use mon_os.Pci.Address.{InRange}
use mon_os.Pci.Enumerate.{Ascends, listed, present, enumerate_lem}

-- Device 3 of bus 0 has the functions 0 and 2 and says that it has several; the first BAR of function 0
-- is a 64-bit one.
abbrev config : ℕ → ℕ
config word =
    if word == 0x80001800
    then 0x12348086
    else if word == 0x8000180c
    then 0x00800000
    else if word == 0x80001810
    then 0xfebf0004
    else if word == 0x80001814
    then 0x1
    else if word == 0x80001a00
    then 0x56788086
    else 0xffffffff

abbrev first : PciAddress
first = record { bus = 0; device = 3; function = 0 }

abbrev third : PciAddress
third = record { bus = 0; device = 3; function = 2 }

visit_device-config : visit_device config 0 3 ≡ first ∷ third ∷ []
unfolding visit_device functions has_function vendor_id header_type read_u16 read_u8 read_u32
    config_address
visit_device-config = refl

bar-config :
    bar config first 0
    ≡ some (record { base = 0x1febf0000; is_memory = true; is_64bit = true; prefetchable = false })
unfolding bar bar_of memory_bar read_u32 config_address
bar-config = refl

enumerate_lem_example :
    Ascends 0 (256 * 256) (enumerate config)
    × ((a : PciAddress)
        → listed a (enumerate config)
          ≡ (ltb a.bus 256 && ltb a.device 32 && ltb a.function 8 && present config a))
enumerate_lem_example = enumerate_lem config

third-InRange : InRange third
third-InRange = record {
  bus_small = omega arith;
  device_small = omega arith;
  function_small = omega arith;
}
