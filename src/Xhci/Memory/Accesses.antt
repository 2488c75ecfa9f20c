-- ===== src/Xhci/Memory/Accesses.antt =====
-- The rules for the accesses of xhci.rs, the lock and the waits, and the set of all rules.
use mon_os.Base.{
  ℕ, zero, suc, ◌≤◌, inl, inr, arith, Bool, true, false, Option, none, some, if◌then◌else◌,
}
use mon_os.Xhci.Machine.{
  Trb, Access, ControllerState, Host, Run, M, pure, and_then, touch, load, load_trb, locked,
  put_state, attempts, wait_rounds, wait_for, a_million,
}
use mon_os.Xhci.Invariant.{Ends, and_then-Ends}
use mon_os.Xhci.Memory.{
  Domain, IsMemory, IsRegister, Allowed, Fits, StateFits, IsSound, IsMemory-later, Fits-later,
}
use mon_os.Xhci.Memory.Rules.{
  Always, Gives, Leaves, Writes, bind-Gives, cases-Gives, forget-Gives, given-Gives, if-Gives,
  option-Gives, pure-Gives, pure-Writes, some_or-Gives, test-Gives, then-Gives,
}

module _ {d : Domain} where
  touch-Writes : (n : ℕ) (x : Access) → ((n' : ℕ) → n ≤ n' → Allowed d n' x) → Writes d n (touch x)
  unfolding Leaves Ends Always
  touch-Writes n x allowed = record {
    at = λ h le sound. (
      record {
        started = sound.started;
        room = sound.room;
        trace = (allowed h.pmm.next_free le, sound.trace);
        state = sound.state;
      },
      omega arith,
      tt,
    );
  }

  pub write_memory : (n a w v : ℕ) → IsMemory d n a w → Writes d n (touch (Access.write a w v))
  unfolding Allowed
  write_memory n a w v m = touch-Writes n _ (λ n' le. inl (IsMemory-later n n' a w le m))

  pub write_register : (n a w v : ℕ) → IsRegister d a w → Writes d n (touch (Access.write a w v))
  unfolding Allowed
  write_register n a w v r = touch-Writes n _ (λ n' le. inr r)

  pub write_trb_memory :
      (n a : ℕ) (t : Trb) → IsMemory d n a 16 → Writes d n (touch (Access.write_trb a t))
  unfolding Allowed
  write_trb_memory n a t m = touch-Writes n _ (λ n' le. IsMemory-later n n' a 16 le m)

  pub zeroed_memory :
      (n a size : ℕ) → IsMemory d n a size → Writes d n (touch (Access.zeroed a size))
  unfolding Allowed
  zeroed_memory n a size m = touch-Writes n _ (λ n' le. IsMemory-later n n' a size le m)

  pub put-Writes : (n c : ℕ) → Writes d n (touch (Access.put c))
  unfolding Allowed
  put-Writes n c = touch-Writes n _ (λ n' le. tt)

  pub erase-Writes : (n : ℕ) → Writes d n (touch Access.erase)
  unfolding Allowed
  erase-Writes n = touch-Writes n _ (λ n' le. tt)

  pub load-Writes : (n width addr : ℕ) → Writes d n (load width addr)
  unfolding Leaves Ends Always load Allowed
  load-Writes n width addr = record {
    at = λ h le sound. (
      record {
        started = sound.started;
        room = sound.room;
        trace = (tt, sound.trace);
        state = sound.state;
      },
      omega arith,
      tt,
    );
  }

  pub load_trb-Writes : (n addr : ℕ) → Writes d n (load_trb addr)
  unfolding Leaves Ends Always load_trb Allowed
  load_trb-Writes n addr = record {
    at = λ h le sound. (
      record {
        started = sound.started;
        room = sound.room;
        trace = (tt, sound.trace);
        state = sound.state;
      },
      omega arith,
      tt,
    );
  }

  pub put_state-Writes : (n : ℕ) (s : ControllerState) → Fits d n s → Writes d n (put_state s)
  unfolding Leaves Ends Always StateFits
  put_state-Writes n s f = record {
    at = λ h le sound. (
      record {
        started = sound.started;
        room = sound.room;
        trace = sound.trace;
        state = Fits-later d n h.pmm.next_free s le f;
      },
      omega arith,
      tt,
    );
  }

module _ {d : Domain} {A : Type 0} where
  -- Under the lock the state fits what is handed out now.
  pub locked-Gives :
      (n : ℕ) (Q : ℕ → A → Type 0) (absent : A) (body : ControllerState → M A)
      → ((n' : ℕ) → n ≤ n' → Q n' absent)
      → ((s : ControllerState) (n' : ℕ) → n ≤ n' → Fits d n' s → Gives d n' Q (body s))
      → Gives d n Q (locked absent body)
  unfolding locked Leaves Ends StateFits
  locked-Gives n Q absent body none_there inside = record {
    at = λ h le sound. opened h le sound h.state sound.state;
  }
    where
      held_sound : (h : Host) → IsSound d h → IsSound d (record h { held = true })
      held_sound h sound = record {
        started = sound.started;
        room = sound.room;
        trace = sound.trace;
        state = sound.state;
      }

      free_sound : (h : Host) → IsSound d h → IsSound d (record h { held = false })
      free_sound h sound = record {
        started = sound.started;
        room = sound.room;
        trace = sound.trace;
        state = sound.state;
      }

      opened :
          (h : Host)
          → n ≤ h.pmm.next_free
          → IsSound d h
          → (o : Option ControllerState) → StateFits d h.pmm.next_free o
          → Leaves d h Q (elim o [
            | none ↦ Run.ok absent h
            | some s ↦
                if h.held
                then Run.deadlock
                else and_then
                    (body s (record h { held = true }))
                    (λ (a : A) h'. Run.ok a (record h' { held = false }))
          ])
      opened h le sound none f = (sound, omega arith, none_there h.pmm.next_free le)
      opened h le sound (some s) f =
          elim h.held
            as (λ held. Leaves d h Q (
              if held
              then Run.deadlock
              else and_then (body s (record h { held = true }))
                  (λ (a : A) h'. Run.ok a (record h' { held = false })))) [
                    | true ↦ tt
                    | false ↦
                        and_then-Ends _ _ (body s (record h { held = true })) _
                          ((inside s h.pmm.next_free le f).at (record h { held = true })
                            (omega arith) (held_sound h sound))
                          (λ a h' p. (free_sound h' p.0, p.1, p.2))
                  ]

  pub locked-Writes :
      (n : ℕ) (absent : A) (body : ControllerState → M A)
      → ((s : ControllerState) (n' : ℕ) → n ≤ n' → Fits d n' s → Writes d n' (body s))
      → Writes d n (locked absent body)
  unfolding Always
  locked-Writes n absent body inside = locked-Gives n Always absent body (λ n' le. tt) inside

  pub attempts-Writes :
      (n k : ℕ) (try : M (Option A)) → Writes d n try → Writes d n (attempts k try)
  unfolding attempts
  attempts-Writes n zero try safe = pure-Writes n none
  attempts-Writes n (suc k) try safe = bind-Gives n Always try _ safe (λ r.
      option-Gives n Always r (attempts k try) _ (attempts-Writes n k try safe)
        (λ a. pure-Writes n (some a)))

module _ {d : Domain} where
  pub wait_rounds-Writes :
      (n k : ℕ) (predicate : M Bool) → Writes d n predicate → Writes d n (wait_rounds k predicate)
  unfolding wait_rounds
  wait_rounds-Writes n zero predicate safe = pure-Writes n false
  wait_rounds-Writes n (suc k) predicate safe = bind-Gives n Always predicate _ safe (λ b.
      cases-Gives n Always b (pure true) _ (pure-Writes n true)
        (wait_rounds-Writes n k predicate safe))

  pub wait_for-Writes :
      (n : ℕ) (predicate : M Bool) → Writes d n predicate → Writes d n (wait_for predicate)
  unfolding wait_for
  wait_for-Writes n predicate safe = wait_rounds-Writes n a_million predicate safe

pub ruleset write_rules = (
  bind-Gives, then-Gives, some_or-Gives, option-Gives, cases-Gives, pure-Writes, if-Gives,
  write_memory, write_register, write_trb_memory, zeroed_memory, put-Writes, erase-Writes,
  load-Writes, load_trb-Writes, put_state-Writes, locked-Writes, attempts-Writes, wait_for-Writes,
)
