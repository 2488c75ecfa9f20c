-- ===== src/Xhci/Machine.antt =====
-- The machine that xhci.rs runs on. The controller reads and writes the same memory as the driver, so
-- the value of each read is an answer that may depend on every access so far. A call ends with a value,
-- or hangs on its own lock, or panics on an index out of bounds. Lines for the serial log are left out.
use mon_os.Base.{
  ℕ, zero, suc, ◌+◌, ◌%◌, ◌*◌, ◌^◌, Bool, true, false, Option, none, some, List, ◌∷◌, if◌then◌else◌,
}
use mon_os.Pmm.{Pmm, alloc_aligned}

pub record Trb : Type 0 where
  pub parameter : ℕ
  pub status : ℕ
  pub control : ℕ

-- What the driver does to memory and registers, with the width in bytes, and to the screen.
pub data Access : Type 0 where
  read : ℕ → ℕ → Access
  write : ℕ → ℕ → ℕ → Access
  write_trb : ℕ → Trb → Access
  zeroed : ℕ → ℕ → Access
  put : ℕ → Access
  erase : Access

pub record XhciInfo : Type 0 where
  pub base : ℕ
  pub cap_length : ℕ
  pub hci_version : ℕ
  pub hcsparams1 : ℕ
  pub hcsparams2 : ℕ
  pub hcsparams3 : ℕ
  pub hccparams1 : ℕ
  pub dboff : ℕ
  pub rtsoff : ℕ

pub record ControllerState : Type 0 where
  pub info : XhciInfo
  pub command_ring_phys : ℕ
  pub command_ring_len : ℕ
  pub command_ring_enqueue : ℕ
  pub command_ring_cycle : Bool
  pub event_ring_phys : ℕ
  pub event_ring_len : ℕ
  pub event_ring_dequeue : ℕ
  pub event_ring_cycle : Bool
  pub dcbaa_phys : ℕ
  pub erst_phys : ℕ
  pub last_completion_code : Option ℕ
  pub last_completed_slot : Option ℕ
  pub last_transfer_code : Option ℕ
  pub last_transfer_len : Option ℕ
  pub last_transfer_ep : Option ℕ
  pub last_transfer_slot : Option ℕ
  pub active_slot : Option ℕ
  pub ep0_ring_phys : ℕ
  pub ep0_ring_len : ℕ
  pub ep0_enqueue : ℕ
  pub ep0_cycle : Bool
  pub intr_ep_addr : ℕ
  pub intr_ep_id : ℕ
  pub intr_ring_phys : ℕ
  pub intr_ring_len : ℕ
  pub intr_enqueue : ℕ
  pub intr_cycle : Bool
  pub hid_buf_phys : ℕ
  pub hid_buf_len : ℕ

-- `answer` gives the value that a read sees, from the accesses before it (the last one first), the
-- address and the width; it never changes. `held` is the lock of CONTROLLER_STATE.
-- `patience` bounds the events that one call of poll_events may find waiting.
pub record Host : Type 0 where
  pub answer : List Access → ℕ → ℕ → ℕ
  pub trace : List Access
  pub state : Option ControllerState
  pub held : Bool
  pub pmm : Pmm
  pub patience : ℕ

pub data Run (A : Type 0) : Type 0 where
  ok : A → Host → Run A
  deadlock : Run A
  panic : Run A
  out_of_fuel : Run A

abbrev pub M : Type 0 → Type 0
M A = Host → Run A

abbrev pub pure : {A : Type 0} → A → M A
pure a h = Run.ok a h

module _ {A B : Type 0} where
  abbrev pub and_then : Run A → (A → M B) → Run B
  and_then (Run.ok a h) k = k a h
  and_then Run.deadlock k = Run.deadlock
  and_then Run.panic k = Run.panic
  and_then Run.out_of_fuel k = Run.out_of_fuel

  infixl 5 ◌>>=◌ ◌>>◌
  abbrev pub ◌>>=◌ : M A → (A → M B) → M B
  m >>= k = λ h. and_then (m h) k

  abbrev pub ◌>>◌ : M A → M B → M B
  m >> n = m >>= λ _. n

abbrev pub touch : Access → M (Unit {0})
touch x h = Run.ok tt (record h { trace = x ∷ h.trace })

-- `read_volatile` of `width` bytes
unfoldable pub load : ℕ → ℕ → M ℕ
load width addr h =
    Run.ok (h.answer h.trace addr width % 2 ^ (8 * width))
      (record h { trace = Access.read addr width ∷ h.trace })

unfoldable pub load_trb : ℕ → M Trb
load_trb addr h =
    let seen : Trb = record {
      parameter = h.answer h.trace addr 8 % 2 ^ 64;
      status = h.answer h.trace (addr + 8) 4 % 2 ^ 32;
      control = h.answer h.trace (addr + 12) 4 % 2 ^ 32;
    } in
    Run.ok seen (record h { trace = Access.read addr 16 ∷ h.trace })

abbrev pub write32 : ℕ → ℕ → M (Unit {0})
write32 addr v = touch (Access.write addr 4 (v % 2 ^ 32))

abbrev pub write64 : ℕ → ℕ → M (Unit {0})
write64 addr v = touch (Access.write addr 8 (v % 2 ^ 64))

-- zero_phys
abbrev pub zero_phys : ℕ → ℕ → M (Unit {0})
zero_phys phys size = touch (Access.zeroed phys size)

-- pmm::alloc_aligned
unfoldable pub alloc : ℕ → ℕ → M (Option ℕ)
alloc size align h =
    let got = alloc_aligned h.pmm size align in Run.ok got.1 (record h { pmm = got.0 })

-- `if let Some(lock) = CONTROLLER_STATE.get() { let state = lock.lock(); … }`: the body runs with the
-- lock held, on a second `lock` it spins for ever, and the guard is dropped at its end.
unfoldable pub locked : {A : Type 0} → A → (ControllerState → M A) → M A
locked {A} absent body h = elim h.state [
  | none ↦ Run.ok absent h
  | some s ↦
      if h.held
      then Run.deadlock
      else and_then (body s (record h { held = true }))
          (λ (a : A) h'. Run.ok a (record h' { held = false }))
]

-- A change of the state under the lock
abbrev pub put_state : ControllerState → M (Unit {0})
put_state s h = Run.ok tt (record h { state = some s })

-- The counted loops that end at the first success; `none` where none comes.
unfoldable pub attempts : {A : Type 0} → ℕ → M (Option A) → M (Option A)
attempts zero try = pure none
attempts {A} (suc n) try =
    try >>= λ (r : Option A). elim r [ none ↦ attempts n try | some a ↦ pure (some a) ]

-- wait_for
unfoldable pub wait_rounds : ℕ → M Bool → M Bool
wait_rounds zero predicate = pure false
wait_rounds (suc n) predicate =
    predicate >>= λ (b : Bool). elim b [ true ↦ pure true | false ↦ wait_rounds n predicate ]

abbrev pub a_million : ℕ
a_million = 1000000

unfoldable pub wait_for : M Bool → M Bool
wait_for predicate = wait_rounds a_million predicate

-- `match o { Some(a) => …, None => { …; return d } }`
abbrev pub some_or : {A B : Type 0} → Option A → B → (A → M B) → M B
some_or none d k = pure d
some_or (some a) d k = k a

-- `if test { … }`
abbrev pub when : Bool → M (Unit {0}) → M (Unit {0})
when true m = m
when false m = pure tt
