-- ===== src/Xhci/Regs.antt =====
-- The registers of xhci.rs: capabilities, operational, runtime and port registers, doorbells.
use mon_os.Base.{
  ℕ, ◌+◌, ◌-◌, ◌*◌, ◌^◌, not, Option, none, some, ◌==◌, if◌then◌else◌, u8, u16, ◌<<<◌, ◌>>>◌,
  bit_and, bit_or,
}
use mon_os.Xhci.Machine.{XhciInfo, M, pure, ◌>>=◌, ◌>>◌, load, write32}

unfoldable pub max_slots : XhciInfo → ℕ
max_slots i = u8 (bit_and i.hcsparams1 0xff)

unfoldable pub max_ports : XhciInfo → ℕ
max_ports i = u8 (bit_and (i.hcsparams1 >>> 24) 0xff)

unfoldable pub context_size : XhciInfo → ℕ
context_size i = if not (bit_and i.hccparams1 (1 <<< 2) == 0) then 64 else 32

-- Where the register sets begin
abbrev pub operational : XhciInfo → ℕ
operational i = i.base + i.cap_length

abbrev pub interrupter_0 : XhciInfo → ℕ
interrupter_0 i = i.base + i.rtsoff + 0x20

abbrev pub port_at : XhciInfo → ℕ → ℕ
port_at i index = operational i + (0x400 + index * 0x10)

-- The defined bits of UsbCmd and of UsbSts; `from_bits_truncate` drops the others.
abbrev pub usbcmd_bits : ℕ
usbcmd_bits = 0x8f

abbrev pub usbsts_bits : ℕ
usbsts_bits = 0x1d

unfoldable pub usbcmd : XhciInfo → M ℕ
usbcmd i = do v ← load 4 (operational i + 0x00); pure (bit_and v usbcmd_bits)

unfoldable pub set_usbcmd : XhciInfo → ℕ → M (Unit {0})
set_usbcmd i v = write32 (operational i + 0x00) v

unfoldable pub usbsts : XhciInfo → M ℕ
usbsts i = do v ← load 4 (operational i + 0x04); pure (bit_and v usbsts_bits)

unfoldable pub clear_usbsts : XhciInfo → ℕ → M (Unit {0})
clear_usbsts i v = write32 (operational i + 0x04) v

-- A 64-bit register is written in two halves, the low one first.
unfoldable pub set_wide : ℕ → ℕ → M (Unit {0})
set_wide addr v = do write32 addr v; write32 (addr + 4) (v >>> 32)

-- `(high << 32) | (low & !mask)`
unfoldable pub wide : ℕ → ℕ → M ℕ
wide addr mask = do
  low ← load 4 addr
  high ← load 4 (addr + 4)
  pure (bit_or (high <<< 32) (bit_and low (2 ^ 32 - 1 - mask)))

unfoldable pub crcr : XhciInfo → M ℕ
crcr i = wide (operational i + 0x18) 0xf

unfoldable pub set_crcr : XhciInfo → ℕ → M (Unit {0})
set_crcr i v = set_wide (operational i + 0x18) v

unfoldable pub dcbaap : XhciInfo → M ℕ
dcbaap i = wide (operational i + 0x30) 0x3f

unfoldable pub set_dcbaap : XhciInfo → ℕ → M (Unit {0})
set_dcbaap i v = set_wide (operational i + 0x30) v

unfoldable pub config : XhciInfo → M ℕ
config i = load 4 (operational i + 0x38)

unfoldable pub set_config : XhciInfo → ℕ → M (Unit {0})
set_config i v = write32 (operational i + 0x38) v

unfoldable pub iman : XhciInfo → M ℕ
iman i = load 4 (interrupter_0 i + 0x00)

unfoldable pub set_iman : XhciInfo → ℕ → M (Unit {0})
set_iman i v = write32 (interrupter_0 i + 0x00) v

unfoldable pub imod : XhciInfo → M ℕ
imod i = load 4 (interrupter_0 i + 0x04)

unfoldable pub set_imod : XhciInfo → ℕ → M (Unit {0})
set_imod i v = write32 (interrupter_0 i + 0x04) v

unfoldable pub erstsz : XhciInfo → M ℕ
erstsz i = do v ← load 4 (interrupter_0 i + 0x08); pure (u16 v)

unfoldable pub set_erstsz : XhciInfo → ℕ → M (Unit {0})
set_erstsz i v = do
  current ← load 4 (interrupter_0 i + 0x08)
  write32 (interrupter_0 i + 0x08) (bit_or (bit_and current (2 ^ 32 - 2 ^ 16)) v)

unfoldable pub erstba : XhciInfo → M ℕ
erstba i = wide (interrupter_0 i + 0x10) 0x3

unfoldable pub set_erstba : XhciInfo → ℕ → M (Unit {0})
set_erstba i v = set_wide (interrupter_0 i + 0x10) v

unfoldable pub erdp : XhciInfo → M ℕ
erdp i = wide (interrupter_0 i + 0x18) 0

unfoldable pub set_erdp : XhciInfo → ℕ → M (Unit {0})
set_erdp i v = set_wide (interrupter_0 i + 0x18) v

-- DoorbellRegs::ring
unfoldable pub ring : XhciInfo → ℕ → ℕ → M (Unit {0})
ring i index target = write32 (i.base + i.dboff + index * 4) target

unfoldable pub portsc : XhciInfo → ℕ → M ℕ
portsc i index = load 4 (port_at i index)

unfoldable pub write_portsc : XhciInfo → ℕ → ℕ → M (Unit {0})
write_portsc i index v = write32 (port_at i index) v

-- `Xhci::new(info)`: a controller at the null address is not used.
abbrev pub with_controller : {A : Type 0} → XhciInfo → A → M A → M A
with_controller i absent body = if i.base == 0 then pure absent else body

unfoldable pub inspect : ℕ → M (Option XhciInfo)
inspect base = if base == 0 then pure none else do
  cap ← load 4 base
  p1 ← load 4 (base + 4)
  p2 ← load 4 (base + 8)
  p3 ← load 4 (base + 12)
  c1 ← load 4 (base + 16)
  db ← load 4 (base + 20)
  rt ← load 4 (base + 24)
  pure (
      some (record {
        base = base;
        cap_length = u8 (bit_and cap 0xff);
        hci_version = u16 (bit_and (cap >>> 16) 0xffff);
        hcsparams1 = p1;
        hcsparams2 = p2;
        hcsparams3 = p3;
        hccparams1 = c1;
        dboff = db;
        rtsoff = rt;
      }))
