-- ===== src/Serial/Tests.antt =====
-- One line on COM1 for serial.rs, with a transmitter that is busy on the first read.
use mon_os.Base.{ℕ, ◌≡◌, refl, true, false, [], ◌∷◌, ◌++◌, ◌==◌, if◌then◌else◌}
use mon_os.Serial.{
  Serial, write_str, init, set_up, dbg_str, out_all, out, write_port, write_byte, send, wait_lsr,
  dbg_hex, hex_digit,
}
use mon_os.Serial.Lines.{sent, crlf, write_str_lem}

abbrev before : Serial
before = record { initialized = false; outs = []; reads = 0 }

abbrev ready : Serial
ready = record before { initialized = true }

abbrev status : ℕ → ℕ
status i = if i == 0 then 0 else 0x60

sent-init : sent (init before).outs ≡ 0x03 ∷ []
unfolding sent init set_up dbg_str out_all out
sent-init = refl

sent-line :
    sent (write_str status (b'o' ∷ b'k' ∷ b'\n' ∷ []) ready).outs ≡ b'o' ∷ b'k' ∷ b'\r' ∷ b'\n' ∷ []
unfolding sent write_str write_port write_byte send wait_lsr dbg_hex hex_digit dbg_str out_all out
sent-line = refl

write_str_lem_example :
    sent (write_str status (b'o' ∷ b'k' ∷ b'\n' ∷ []) ready).outs
    ≡ sent ready.outs ++ (if ready.initialized then crlf (b'o' ∷ b'k' ∷ b'\n' ∷ []) else [])
write_str_lem_example = write_str_lem status (b'o' ∷ b'k' ∷ b'\n' ∷ []) ready
