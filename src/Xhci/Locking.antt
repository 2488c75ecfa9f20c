-- ===== src/Xhci/Locking.antt =====
-- What xhci.rs does on its lock: the doorbell takes CONTROLLER_STATE again, also where the caller holds it.
pub mod Polling
pub mod Refused
use mon_os.Base.{ℕ, ◌≡◌, refl, true, some}
use mon_os.Xhci.Machine.{ControllerState, Host, Run, M, ◌>>=◌, locked}
use mon_os.Xhci.Rings.{ring_doorbell}

pub deadlock_then :
    {A B : Type 0} (m : M A) (k : A → M B) (h : Host)
    → m h ≡ Run.deadlock
    → (m >>= k) h ≡ Run.deadlock
deadlock_then m k h e = rw e refl

pub ring_doorbell-held :
    (slot target : ℕ) (h : Host) (s : ControllerState)
    → h.state ≡ some s
    → h.held ≡ true
    → ring_doorbell slot target h ≡ Run.deadlock
unfolding ring_doorbell locked
ring_doorbell-held slot target h s known held = rw (known, held) refl
