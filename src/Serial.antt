-- ===== src/Serial.antt =====
-- kernel/src/serial.rs: the serial port COM1, with the debug port 0xE9 behind it. A write to a port is
-- kept with its port, in order; what the line status register answers may differ on each read.
pub mod Lines
mod Tests
use mon_os.Base.Text.{ascii}
use mon_os.Base.{
  ℕ, zero, suc, ◌+◌, ◌-◌, ◌/◌, ◌%◌, Bool, true, false, not, ◌||◌, List, [], ◌∷◌, ◌++◌, ◌==◌,
  if◌then◌else◌, ltb, bit_and, ◌>>>◌,
}

abbrev pub com1_base : ℕ
com1_base = 0x3f8

abbrev pub debug_port : ℕ
debug_port = 0xe9

pub record Serial : Type 0 where
  pub initialized : Bool
  pub outs : List (ℕ × ℕ)
  pub reads : ℕ

unfoldable pub out : ℕ → ℕ → Serial → Serial
out port value s = record s { outs = s.outs ++ ((port, value) ∷ []) }

-- Bytes to one port, one after another
unfoldable pub out_all : ℕ → List ℕ → Serial → Serial
out_all port [] s = s
out_all port (b ∷ bs) s = out_all port bs (out port b s)

unfoldable pub dbg_str : List ℕ → Serial → Serial
dbg_str msg s = out_all debug_port msg s

-- `HEX[i]`
unfoldable pub hex_digit : ℕ → ℕ
hex_digit d = if ltb d 10 then b'0' + d else b'a' + (d - 10)

unfoldable pub dbg_hex : List ℕ → ℕ → Serial → Serial
dbg_hex prefix value s = out debug_port b'\n' (
    out debug_port (hex_digit (bit_and value 0x0f))
      (out debug_port (hex_digit (value >>> 4)) (dbg_str prefix s)))

-- write_byte without the `\r` that goes before a line feed: the wait for the line status, at most
-- 1,000,001 reads, the byte itself, and the debug lines around them.
unfoldable pub wait_lsr : (ℕ → ℕ) → ℕ → ℕ → Serial → Serial
wait_lsr status zero spins s = s
wait_lsr status (suc n) spins s =
    let lsr = status s.reads % 256 in
    let seen = record s { reads = s.reads + 1 } in
    let told = if ltb spins 8 then dbg_hex (ascii "serial: wait lsr=") lsr seen else seen in
    elim (not (bit_and lsr 0x20 == 0) || not (bit_and lsr 0x40 == 0)) [
      | true ↦ seen
      | false ↦ elim (ltb 1000000 (spins + 1)) [
        | true ↦ dbg_hex (ascii "serial: wait timeout lsr=") lsr told
        | false ↦ wait_lsr status n (spins + 1) told
      ]
    ]

unfoldable pub send : (ℕ → ℕ) → ℕ → Serial → Serial
send status byte s =
    dbg_str (10 ∷ [])
      (dbg_str (ascii "serial: byte sent") (out com1_base byte (wait_lsr status 1000001 0 s)))

unfoldable pub write_byte : (ℕ → ℕ) → ℕ → Serial → Serial
write_byte status byte s =
    let named = dbg_hex (ascii "serial: write_byte ") byte s in
    send status byte (
      if byte == b'\n'
      then send status b'\r' (dbg_hex (ascii "serial: write_byte ") b'\r' named)
      else named)

-- `Write::write_str` of the port
unfoldable pub write_port : (ℕ → ℕ) → List ℕ → Serial → Serial
write_port status [] s = s
write_port status (b ∷ bs) s = write_port status bs (write_byte status b s)

unfoldable pub write_str : (ℕ → ℕ) → List ℕ → Serial → Serial
write_str status message s =
    let s' = dbg_str (10 ∷ []) (dbg_str (ascii "serial: write_str") s) in
    if not s.initialized then dbg_str message s' else write_port status message s'

-- write_fmt on the text that its arguments format to
unfoldable pub write_fmt : (ℕ → ℕ) → List ℕ → Serial → Serial
write_fmt status text s = if not s.initialized then dbg_str text s else write_port status text s

-- `panic` on the text of the panic
unfoldable pub panic : (ℕ → ℕ) → List ℕ → Serial → Serial
panic status info s =
    let text = ascii "panic: " ++ (info ++ (10 ∷ [])) in
    if not s.initialized then dbg_str text s else write_port status text s

-- SerialPort::init
unfoldable pub set_up : Serial → Serial
set_up s = out (com1_base + 4) 0x0b (
    out (com1_base + 2) 0xc7 (
      out (com1_base + 3) 0x03 (
        out (com1_base + 1) 0x00
          (out com1_base 0x03 (out (com1_base + 3) 0x80 (out (com1_base + 1) 0x00 s))))))

unfoldable pub init : Serial → Serial
init s =
    let begun = dbg_str (10 ∷ []) (dbg_str (ascii "serial: init start") s) in
    let ready = record (set_up begun) { initialized = true } in
    dbg_str (10 ∷ []) (dbg_str (ascii "serial: init done") ready)
