-- ===== src/Xhci/Laps.antt =====
-- The command ring of xhci.rs over many commands: where each goes, and with which cycle bit.
use mon_os.Base.{
  ℕ, suc, ◌+◌, ◌*◌, ◌/◌, ◌%◌, ◌≡◌, refl, sym, ap, arith, Bool, false, some, List, [], ◌∷◌, length,
  ◌==◌, if◌then◌else◌,
}
use mon_os.Xhci.Machine.{Access, ControllerState, Host, Run, M, pure, ◌>>◌, locked}
use mon_os.Xhci.Rings.{
  cycle_bit, next_index, next_cycle, control_word, post_command, enqueue_command_trb,
}

-- The cycle state while the `n`-th command is queued: true in the even laps of 255 commands
unfoldable pub lap : ℕ → Bool
lap n = n / 255 % 2 == 0

-- The state behind `n` commands
unfoldable pub behind : ℕ → ControllerState → ControllerState
behind n s = record s {
  command_ring_len = 256;
  command_ring_enqueue = n % 255;
  command_ring_cycle = lap n;
}

unfoldable pub host_behind : ℕ → ControllerState → Host → Host
host_behind n s h = record h { state = some (behind n s); held = false }

-- A command: its type, parameter and status
abbrev pub Command : Type 0
Command = ℕ × ℕ × ℕ

unfoldable pub enqueue_all : List Command → M (Unit {0})
enqueue_all [] = pure tt
enqueue_all ((t, p, s) ∷ rest) = do enqueue_command_trb t p s; enqueue_all rest

-- The writes of the commands from the `n`-th on
unfoldable pub queued : ℕ → ℕ → List Command → List Access → List Access
queued phys n [] trace = trace
queued phys n ((t, p, s) ∷ rest) trace = queued phys (n + 1) rest (
    Access.write_trb (phys + 16 * (n % 255))
      (record { parameter = p; status = s; control = control_word t (if lap n then 1 else 0) })
    ∷ trace)

next_index-lap : (n : ℕ) → next_index 255 (n % 255) ≡ (n + 1) % 255
unfolding next_index
next_index-lap n = omega arith

next_cycle-lap : (n : ℕ) → next_cycle 255 (n % 255) (lap n) ≡ lap (n + 1)
unfolding next_cycle next_index lap
next_cycle-lap n = ground arith

enqueue_command_trb-behind :
    (t p v n : ℕ) (s : ControllerState) (h : Host)
    → enqueue_command_trb t p v (host_behind n s h)
      ≡ Run.ok tt (
          host_behind (n + 1) s (record h {
            trace =
                Access.write_trb (s.command_ring_phys + 16 * (n % 255)) (record {
                  parameter = p;
                  status = v;
                  control = control_word t (if lap n then 1 else 0);
                })
                ∷ h.trace;
          }))
unfolding enqueue_command_trb post_command locked host_behind behind cycle_bit
enqueue_command_trb-behind t p v n s h =
    let same : n % 255 % 255 ≡ n % 255 = omega arith in
    rw (same, next_index-lap n, next_cycle-lap n) refl

-- From a state behind `n` commands, in the ring of 256 entries that init_controller makes, the commands of
-- a list are written one by one: the `k`-th since the start at entry `k % 255`, so the link TRB is never
-- overwritten, and with the cycle bit of its lap of 255. The state is then the one behind all of them.
pub enqueue_all_lem :
    (commands : List Command) (n : ℕ) (s : ControllerState) (h : Host)
    → enqueue_all commands (host_behind n s h)
      ≡ Run.ok tt (
          host_behind
            (n + length commands)
            s
            (record h { trace = queued s.command_ring_phys n commands h.trace }))
unfolding enqueue_all queued
enqueue_all_lem [] n s h =
    let e : n ≡ n + 0 = omega arith in ap (λ k. Run.ok tt (host_behind k s h)) e
enqueue_all_lem ((t, p, v) ∷ rest) n s h =
    let e : n + 1 + length rest ≡ n + suc (length rest) = omega arith in
    rw (enqueue_command_trb-behind t p v n s h, sym e) (enqueue_all_lem rest (n + 1) s _)
