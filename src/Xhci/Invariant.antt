-- ===== src/Xhci/Invariant.antt =====
-- What holds of ControllerState between the calls of xhci.rs, and how a run keeps it.
pub mod Rings
pub mod Events
pub mod Devices
pub mod Transfers
pub mod Operations
use mon_os.Base.{
  ℕ, zero, suc, ◌+◌, ◌-◌, ◌*◌, ◌%◌, ◌≤◌, ◌<◌, ◌≡◌, refl, ◌⊎◌, arith, Bool, true, false, Option,
  none, some, List, ◌∷◌, if◌then◌else◌,
}
use mon_os.Xhci.Machine.{
  Trb, Access, ControllerState, Host, Run, M, pure, ◌>>=◌, ◌>>◌, and_then, touch, load, load_trb,
  alloc, locked, put_state, attempts, wait_rounds, wait_for, a_million, some_or, when,
}

-- A transfer ring is absent, or has its size and its next entry below the link TRB.
unfoldable pub RingFits : ℕ → ℕ → ℕ → Type 0
RingFits size len enqueue = (len ≡ 0) ⊎ ((len ≡ size) × (enqueue < size - 1))

pub record IsValid (s : ControllerState) : Type 0 where
  pub command_len : s.command_ring_len ≡ 256
  pub command_index : s.command_ring_enqueue < 255
  pub event_len : s.event_ring_len ≡ 256
  pub event_index : s.event_ring_dequeue < 256
  pub ep0 : RingFits 64 s.ep0_ring_len s.ep0_enqueue
  pub intr : RingFits 128 s.intr_ring_len s.intr_enqueue

unfoldable pub Known : Option ControllerState → Type 0
Known none = Unit {0}
Known (some s) = IsValid s

-- What holds of a run that ends with a value
unfoldable pub Ends : {A : Type 0} → (A → Host → Type 0) → Run A → Type 0
Ends holds (Run.ok a h) = holds a h
Ends holds Run.deadlock = Unit {0}
Ends holds Run.panic = Unit {0}
Ends holds Run.out_of_fuel = Unit {0}

-- The invariant is kept, and `holds` is true of the value.
pub record Keeps {A : Type 0} (holds : A → Type 0) (m : M A) : Type 0 where
  pub at : (h : Host) → Known h.state → Ends (λ (a : A) (h' : Host). Known h'.state × holds a) (m h)

pub record IsSafe {A : Type 0} (m : M A) : Type 0 where
  pub at : (h : Host) → Known h.state → Ends (λ (a : A) (h' : Host). Known h'.state) (m h)

module _ {A B : Type 0} where
  pub and_then-Ends :
      (P : A → Host → Type 0) (Q : B → Host → Type 0) (r : Run A) (k : A → M B)
      → Ends P r
      → ((a : A) (h : Host) → P a h → Ends Q (k a h))
      → Ends Q (and_then r k)
  unfolding Ends
  and_then-Ends P Q (Run.ok a h) k holds next = next a h holds
  and_then-Ends P Q Run.deadlock k holds next = tt
  and_then-Ends P Q Run.panic k holds next = tt
  and_then-Ends P Q Run.out_of_fuel k holds next = tt

  -- A state that is valid is handed on.
  pub valid_then-IsSafe :
      (P : A → Type 0) (m : M A) (k : A → M B)
      → Keeps P m
      → ((a : A) → P a → IsSafe (k a))
      → IsSafe (m >>= k)
  valid_then-IsSafe P m k first next = record {
    at = λ h known. and_then-Ends _ _ (m h) k (first.at h known) (λ a h' p. (next a p.1).at h' p.0);
  }

  pub valid_then-Keeps :
      (P : A → Type 0) (Q : B → Type 0) (m : M A) (k : A → M B)
      → Keeps P m
      → ((a : A) → P a → Keeps Q (k a))
      → Keeps Q (m >>= k)
  valid_then-Keeps P Q m k first next = record {
    at = λ h known. and_then-Ends _ _ (m h) k (first.at h known) (λ a h' p. (next a p.1).at h' p.0);
  }

  pub bind-Keeps :
      (Q : B → Type 0) (m : M A) (k : A → M B)
      → IsSafe m
      → ((a : A) → Keeps Q (k a))
      → Keeps Q (m >>= k)
  bind-Keeps Q m k first next = record {
    at = λ h known. and_then-Ends _ _ (m h) k (first.at h known) (λ a h' p. (next a).at h' p);
  }

  pub bind-IsSafe : (m : M A) (k : A → M B) → IsSafe m → ((a : A) → IsSafe (k a)) → IsSafe (m >>= k)
  bind-IsSafe m k first next = record {
    at = λ h known. and_then-Ends _ _ (m h) k (first.at h known) (λ a h' p. (next a).at h' p);
  }

  pub then-IsSafe : (m : M A) (n : M B) → IsSafe m → IsSafe n → IsSafe (m >> n)
  then-IsSafe m n first next = bind-IsSafe m _ first (λ _. next)

  pub some_or-IsSafe :
      (o : Option A) (d : B) (k : A → M B) → ((a : A) → IsSafe (k a)) → IsSafe (some_or o d k)
  unfolding Ends
  some_or-IsSafe none d k next = record { at = λ h known. known }
  some_or-IsSafe (some a) d k next = next a

  pub option-IsSafe :
      (o : Option A) (m : M B) (k : A → M B)
      → IsSafe m
      → ((a : A) → IsSafe (k a))
      → IsSafe (elim o [ none ↦ m | some a ↦ k a ])
  option-IsSafe none m k absent next = absent
  option-IsSafe (some a) m k absent next = next a

module _ {A : Type 0} where
  -- What two rules say of a run that ends
  pub both-Ends :
      (P Q : A → Host → Type 0) (r : Run A) → Ends P r → Ends Q r → Ends (λ a h. P a h × Q a h) r
  unfolding Ends
  both-Ends P Q (Run.ok a h) p q = (p, q)
  both-Ends P Q Run.deadlock p q = tt
  both-Ends P Q Run.panic p q = tt
  both-Ends P Q Run.out_of_fuel p q = tt

  pub with-Keeps :
      (Q : A → Type 0) (m : M A) → IsSafe m → ((h : Host) → Ends (λ a h'. Q a) (m h)) → Keeps Q m
  with-Keeps Q m safe gives = record {
    at = λ h known. both-Ends _ _ (m h) (safe.at h known) (gives h);
  }

  pub cases-IsSafe :
      (b : Bool) (m n : M A) → IsSafe m → IsSafe n → IsSafe (elim b [ true ↦ m | false ↦ n ])
  cases-IsSafe true m n first second = first
  cases-IsSafe false m n first second = second

  pub pure-IsSafe : (a : A) → IsSafe (pure a)
  unfolding Ends
  pure-IsSafe a = record { at = λ h known. known }

  pub if-IsSafe : (b : Bool) (m n : M A) → IsSafe m → IsSafe n → IsSafe (if b then m else n)
  if-IsSafe true m n first second = first
  if-IsSafe false m n first second = second

  pub pure-Keeps : (Q : A → Type 0) (a : A) → Q a → Keeps Q (pure a)
  unfolding Ends
  pure-Keeps Q a holds = record { at = λ h known. (known, holds) }

  pub if-Keeps :
      (Q : A → Type 0) (b : Bool) (m n : M A) → Keeps Q m → Keeps Q n → Keeps Q (if b then m else n)
  if-Keeps Q true m n first second = first
  if-Keeps Q false m n first second = second

  -- Under the lock the state is the valid one.
  pub locked-IsSafe :
      (absent : A) (body : ControllerState → M A)
      → ((s : ControllerState) → IsValid s → IsSafe (body s))
      → IsSafe (locked absent body)
  unfolding locked Ends Known
  locked-IsSafe absent body inside = record { at = λ h known. opened h h.state known known }
    where
      opened :
          (h : Host) (o : Option ControllerState)
          → Known o
          → Known h.state
          → Ends
              (λ (a : A) (h' : Host). Known h'.state)
              (elim o [
                | none ↦ Run.ok absent h
                | some s ↦
                    if h.held
                    then Run.deadlock
                    else and_then
                        (body s (record h { held = true }))
                        (λ (a : A) h'. Run.ok a (record h' { held = false }))
              ])
      opened h none valid known = known
      opened h (some s) valid known =
          elim h.held
            as (λ held.
              Ends (λ (a : A) (h' : Host). Known h'.state)
                (if held
                  then Run.deadlock
                  else and_then (body s (record h { held = true }))
                      (λ (a : A) h'. Run.ok a (record h' { held = false })))) [
                        | true ↦ tt
                        | false ↦
                            and_then-Ends _ _ (body s (record h { held = true })) _
                              ((inside s valid).at _ known) (λ a h' p. p)
                      ]

pub touch-IsSafe : (x : Access) → IsSafe (touch x)
unfolding Ends
touch-IsSafe x = record { at = λ h known. known }

pub load-IsSafe : (width addr : ℕ) → IsSafe (load width addr)
unfolding Ends load
load-IsSafe width addr = record { at = λ h known. known }

pub load_trb-IsSafe : (addr : ℕ) → IsSafe (load_trb addr)
unfolding Ends load_trb
load_trb-IsSafe addr = record { at = λ h known. known }

pub alloc-IsSafe : (size align : ℕ) → IsSafe (alloc size align)
unfolding Ends alloc
alloc-IsSafe size align = record { at = λ h known. known }

pub put_state-IsSafe : (s : ControllerState) → IsValid s → IsSafe (put_state s)
unfolding Ends Known
put_state-IsSafe s valid = record { at = λ h known. valid }

pub ruleset run_rules = (
  bind-IsSafe, then-IsSafe, some_or-IsSafe, option-IsSafe, cases-IsSafe, pure-IsSafe, if-IsSafe,
  touch-IsSafe, load-IsSafe, load_trb-IsSafe, alloc-IsSafe, put_state-IsSafe, locked-IsSafe,
)

pub attempts-IsSafe :
    {A : Type 0} (n : ℕ) (try : M (Option A)) → IsSafe try → IsSafe (attempts n try)
unfolding attempts
attempts-IsSafe zero try safe = pure-IsSafe none
attempts-IsSafe (suc n) try safe = bind-IsSafe try _ safe (λ r.
    option-IsSafe r (attempts n try) _ (attempts-IsSafe n try safe) (λ a. pure-IsSafe (some a)))

pub wait_rounds-IsSafe :
    (n : ℕ) (predicate : M Bool) → IsSafe predicate → IsSafe (wait_rounds n predicate)
unfolding wait_rounds
wait_rounds-IsSafe zero predicate safe = pure-IsSafe false
wait_rounds-IsSafe (suc n) predicate safe =
    bind-IsSafe predicate _ safe
      (λ b. cases-IsSafe b (pure true) _ (pure-IsSafe true) (wait_rounds-IsSafe n predicate safe))

pub wait_for-IsSafe : (predicate : M Bool) → IsSafe predicate → IsSafe (wait_for predicate)
unfolding wait_for
wait_for-IsSafe predicate safe = wait_rounds-IsSafe a_million predicate safe
