-- ===== src/Serial/Lines.antt =====
-- What serial.rs sends on COM1.
use mon_os.Base.{
  ℕ, zero, suc, ◌+◌, ◌≡◌, refl, ap, ◌∙◌, sym, arith, false, not, ◌||◌, List, [], ◌∷◌, ◌++◌,
  append-nil, append_assoc, ◌==◌, if◌then◌else◌, ltb, Bool-cases, inl, inr, bit_and, ◌>>>◌, subst,
  ◌%◌,
}
use mon_os.Base.Text.{ascii}
use mon_os.Serial.{
  Serial, com1_base, debug_port, out, out_all, dbg_str, dbg_hex, hex_digit, wait_lsr, send,
  write_byte, write_port, write_str,
}

-- The bytes written to the data port of COM1
unfoldable pub sent : List (ℕ × ℕ) → List ℕ
sent [] = []
sent ((port, b) ∷ rest) = if port == com1_base then b ∷ sent rest else sent rest

sent-append : (xs ys : List (ℕ × ℕ)) → sent (xs ++ ys) ≡ sent xs ++ sent ys
unfolding sent
sent-append [] ys = refl
sent-append ((port, b) ∷ xs) ys = ground (arith, sent-append xs ys)

-- A step adds `bs` to what is sent on COM1; other ports may be written.
record Sends (bs : List ℕ) (s s' : Serial) : Type 0 where
  text : sent s'.outs ≡ sent s.outs ++ bs
  same : s'.initialized ≡ s.initialized

Sends-step : (bs cs : List ℕ) (s t u : Serial) → Sends bs s t → Sends cs t u → Sends (bs ++ cs) s u
Sends-step bs cs s t u p q = record {
  text = q.text ∙ ap (λ l. l ++ cs) p.text ∙ append_assoc (sent s.outs) bs cs;
  same = q.same ∙ p.same;
}

out-Sends_other :
    (port b : ℕ) (s : Serial) → (port == com1_base) ≡ false → Sends [] s (out port b s)
unfolding out sent
out-Sends_other port b s other = record {
  text = sent-append s.outs ((port, b) ∷ []) ∙ rw other refl;
  same = refl;
}

out-Sends : (b : ℕ) (s : Serial) → Sends (b ∷ []) s (out com1_base b s)
unfolding out sent
out-Sends b s = record { text = sent-append s.outs ((com1_base, b) ∷ []); same = refl }

dbg_str-Sends : (msg : List ℕ) (s : Serial) → Sends [] s (dbg_str msg s)
unfolding dbg_str out_all
dbg_str-Sends [] s = record { text = sym (append-nil (sent s.outs)); same = refl }
dbg_str-Sends (b ∷ bs) s =
    let next = out debug_port b s in
    Sends-step [] [] s next (dbg_str bs next) (out-Sends_other debug_port b s refl)
      (dbg_str-Sends bs next)

dbg_hex-Sends : (prefix : List ℕ) (v : ℕ) (s : Serial) → Sends [] s (dbg_hex prefix v s)
unfolding dbg_hex
dbg_hex-Sends prefix v s =
    let one = dbg_str prefix s in
    let two = out debug_port (hex_digit (v >>> 4)) one in
    let three = out debug_port (hex_digit (bit_and v 0x0f)) two in
    Sends-step [] [] s one (dbg_hex prefix v s) (dbg_str-Sends prefix s) (
      Sends-step [] [] one two (dbg_hex prefix v s) (out-Sends_other debug_port _ one refl) (
        Sends-step [] [] two three (dbg_hex prefix v s) (out-Sends_other debug_port _ two refl)
          (out-Sends_other debug_port b'\n' three refl)))

Sends-nothing : (s : Serial) (n : ℕ) → Sends [] s (record s { reads = n })
Sends-nothing s n = record { text = sym (append-nil (sent s.outs)); same = refl }

wait_told-Sends :
    (spins lsr : ℕ) (s : Serial)
    → Sends [] s (if ltb spins 8 then dbg_hex (ascii "serial: wait lsr=") lsr s else s)
wait_told-Sends spins lsr s = elim (Bool-cases (ltb spins 8)) [
  | inl few ↦ rw few (dbg_hex-Sends (ascii "serial: wait lsr=") lsr s)
  | inr many ↦ rw many (record { text = sym (append-nil (sent s.outs)); same = refl })
]

-- Whatever the line status answers, the wait sends nothing.
wait_lsr-Sends :
    (status : ℕ → ℕ) (n spins : ℕ) (s : Serial) → Sends [] s (wait_lsr status n spins s)
unfolding wait_lsr
wait_lsr-Sends status zero spins s = record { text = sym (append-nil (sent s.outs)); same = refl }
wait_lsr-Sends status (suc n) spins s =
    let lsr = status s.reads % 256 in
    let seen = record s { reads = s.reads + 1 } in
    let told = if ltb spins 8 then dbg_hex (ascii "serial: wait lsr=") lsr seen else seen in
    let so_far =
      Sends-step [] [] s seen told (Sends-nothing s (s.reads + 1))
        (wait_told-Sends spins lsr seen) in
    elim (Bool-cases (not (bit_and lsr 0x20 == 0) || not (bit_and lsr 0x40 == 0))) [
      | inl ready ↦ rw (wait_lsr, ready) (Sends-nothing s (s.reads + 1))
      | inr busy ↦ elim (Bool-cases (ltb 1000000 (spins + 1))) [
        | inl over ↦
            rw (wait_lsr, busy, over)
              (Sends-step [] [] s told _ so_far
                (dbg_hex-Sends (ascii "serial: wait timeout lsr=") lsr told))
        | inr again ↦
            rw (wait_lsr, busy, again)
              (Sends-step [] [] s told _ so_far (wait_lsr-Sends status n (spins + 1) told))
      ]
    ]

send-Sends : (status : ℕ → ℕ) (b : ℕ) (s : Serial) → Sends (b ∷ []) s (send status b s)
unfolding send
send-Sends status b s =
    let one = wait_lsr status 1000001 0 s in
    let two = out com1_base b one in
    let three = dbg_str (ascii "serial: byte sent") two in
    Sends-step [] (b ∷ []) s one (send status b s) (wait_lsr-Sends status 1000001 0 s) (
      Sends-step (b ∷ []) [] one two (send status b s) (out-Sends b one) (
        Sends-step [] [] two three (send status b s) (dbg_str-Sends (ascii "serial: byte sent") two)
          (dbg_str-Sends (10 ∷ []) three)))

-- A carriage return before each line feed
unfoldable pub crlf : List ℕ → List ℕ
crlf [] = []
crlf (b ∷ bs) = if b == b'\n' then b'\r' ∷ b ∷ crlf bs else b ∷ crlf bs

write_byte-Sends :
    (status : ℕ → ℕ) (b : ℕ) (s : Serial) → Sends (crlf (b ∷ [])) s (write_byte status b s)
unfolding write_byte crlf
write_byte-Sends status b s =
    let label = ascii "serial: write_byte " in
    let named = dbg_hex label b s in
    elim (Bool-cases (b == b'\n')) [
      | inl line ↦
          let cr = dbg_hex label b'\r' named in
          rw line (
            Sends-step [] (b'\r' ∷ b ∷ []) s named _ (dbg_hex-Sends label b s) (
              Sends-step [] (b'\r' ∷ b ∷ []) named cr _ (dbg_hex-Sends label b'\r' named) (
                Sends-step (b'\r' ∷ []) (b ∷ []) cr (send status b'\r' cr) _
                  (send-Sends status b'\r' cr) (send-Sends status b (send status b'\r' cr)))))
      | inr other ↦
          rw other
            (Sends-step [] (b ∷ []) s named _ (dbg_hex-Sends label b s) (send-Sends status b named))
    ]

crlf-cons : (b : ℕ) (bs : List ℕ) → crlf (b ∷ []) ++ crlf bs ≡ crlf (b ∷ bs)
unfolding crlf
crlf-cons b bs = elim (Bool-cases (b == b'\n')) [
  | inl line ↦ rw line refl
  | inr other ↦ rw other refl
]

write_port-Sends :
    (status : ℕ → ℕ) (msg : List ℕ) (s : Serial) → Sends (crlf msg) s (write_port status msg s)
unfolding write_port crlf
write_port-Sends status [] s = record { text = sym (append-nil (sent s.outs)); same = refl }
write_port-Sends status (b ∷ bs) s =
    let next = write_byte status b s in
    subst (λ l. Sends l s (write_port status (b ∷ bs) s)) (crlf-cons b bs)
      (Sends-step (crlf (b ∷ [])) (crlf bs) s next _ (write_byte-Sends status b s)
        (write_port-Sends status bs next))

-- Once the port is set up, a text goes out on COM1 whole and in order, with a carriage return before
-- each line feed, whatever the line status answers and also where the wait for it times out; before,
-- nothing goes out on COM1.
pub write_str_lem :
    (status : ℕ → ℕ) (msg : List ℕ) (s : Serial)
    → sent (write_str status msg s).outs ≡ sent s.outs ++ (if s.initialized then crlf msg else [])
unfolding write_str
write_str_lem status msg s =
    let label = ascii "serial: write_str" in
    let one = dbg_str label s in
    let two = dbg_str (10 ∷ []) one in
    let begun = Sends-step [] [] s one two (dbg_str-Sends label s) (dbg_str-Sends (10 ∷ []) one) in
    elim (Bool-cases s.initialized) [
      | inl ready ↦
          simp ready (Sends-step [] (crlf msg) s two _ begun (write_port-Sends status msg two)).text
      | inr early ↦ simp early (Sends-step [] [] s two _ begun (dbg_str-Sends msg two)).text
    ]
