-- ===== src/Xhci/Memory/Rules.antt =====
-- The rules by which a run is followed: what it may write, and what it gives.
use mon_os.Base.{ℕ, ◌≡◌, refl, ◌≤◌, arith, Bool, true, false, Option, none, some, if◌then◌else◌}
use mon_os.Xhci.Machine.{Host, Run, M, pure, ◌>>=◌, ◌>>◌, some_or}
use mon_os.Xhci.Invariant.{Ends, and_then-Ends}
use mon_os.Xhci.Memory.{Domain, IsSound}

-- Nothing is said of the value.
unfoldable pub Always : {A : Type 0} → ℕ → A → Type 0
Always n a = Unit {0}

-- What is true of a run from a host that is sound: where it ends, the host is sound, and `Q` holds of its
-- NEXT_FREE and of the value.
unfoldable pub Leaves : {A : Type 0} → Domain → Host → (ℕ → A → Type 0) → Run A → Type 0
Leaves {A} d h Q r =
    Ends
      (λ (a : A) (h' : Host).
        IsSound d h' × (h.pmm.next_free ≤ h'.pmm.next_free) × Q h'.pmm.next_free a)
      r

-- So from every sound host whose NEXT_FREE is `n` or more
pub record Gives {A : Type 0} (d : Domain) (n : ℕ) (Q : ℕ → A → Type 0) (m : M A) : Type 0 where
  pub at : (h : Host) → n ≤ h.pmm.next_free → IsSound d h → Leaves d h Q (m h)

abbrev pub Writes : {A : Type 0} → Domain → ℕ → M A → Type 0
Writes d n m = Gives d n Always m

Leaves-later :
    {B : Type 0} (d : Domain) (h h' : Host) (Q : ℕ → B → Type 0) (r : Run B)
    → h.pmm.next_free ≤ h'.pmm.next_free
    → Leaves d h' Q r
    → Leaves d h Q r
unfolding Ends Leaves
Leaves-later d h h' Q (Run.ok b h2) le q = (q.0, omega (arith, le, q.1), q.2)
Leaves-later d h h' Q Run.deadlock le q = tt
Leaves-later d h h' Q Run.panic le q = tt
Leaves-later d h h' Q Run.out_of_fuel le q = tt

-- What is not needed of the value is left out.
forget-Leaves :
    {A : Type 0} (d : Domain) (h : Host) (Q : ℕ → A → Type 0) (r : Run A)
    → Leaves d h Q r
    → Leaves d h Always r
unfolding Ends Leaves Always
forget-Leaves d h Q (Run.ok a h') q = (q.0, q.1, tt)
forget-Leaves d h Q Run.deadlock q = tt
forget-Leaves d h Q Run.panic q = tt
forget-Leaves d h Q Run.out_of_fuel q = tt

pub forget-Gives :
    {d : Domain} {A : Type 0} (n : ℕ) (Q : ℕ → A → Type 0) (m : M A) → Gives d n Q m → Writes d n m
forget-Gives {d} n Q m gives = record {
  at = λ h le sound. forget-Leaves d h Q (m h) (gives.at h le sound);
}

module _ {d : Domain} {A B : Type 0} where
  pub given-Gives :
      (n : ℕ) (P : ℕ → A → Type 0) (Q : ℕ → B → Type 0) (m : M A) (k : A → M B)
      → Gives d n P m
      → ((a : A) (n' : ℕ) → n ≤ n' → P n' a → Gives d n' Q (k a))
      → Gives d n Q (m >>= k)
  unfolding Leaves
  given-Gives n P Q m k first next = record {
    at = λ h le sound. and_then-Ends _ _ (m h) k (first.at h le sound) (λ a h' p.
        Leaves-later d h h' Q (k a h') p.1
          ((next a h'.pmm.next_free (omega (arith, le, p.1)) p.2).at h' (omega arith) p.0));
  }

  pub bind-Gives :
      (n : ℕ) (Q : ℕ → B → Type 0) (m : M A) (k : A → M B)
      → Writes d n m
      → ((a : A) → Gives d n Q (k a))
      → Gives d n Q (m >>= k)
  unfolding Leaves
  bind-Gives n Q m k first next = record {
    at = λ h le sound. and_then-Ends _ _ (m h) k (first.at h le sound) (λ a h' p.
        Leaves-later d h h' Q (k a h') p.1 ((next a).at h' (omega (arith, le, p.1)) p.0));
  }

  pub then-Gives :
      (n : ℕ) (Q : ℕ → B → Type 0) (m : M A) (k : M B)
      → Writes d n m
      → Gives d n Q k
      → Gives d n Q (m >> k)
  then-Gives n Q m k first next = bind-Gives n Q m _ first (λ _. next)

  pub some_or-Gives :
      (n : ℕ) (Q : ℕ → B → Type 0) (o : Option A) (b : B) (k : A → M B)
      → Gives d n Q (pure b)
      → ((a : A) → Gives d n Q (k a))
      → Gives d n Q (some_or o b k)
  some_or-Gives n Q none b k absent next = absent
  some_or-Gives n Q (some a) b k absent next = next a

  pub option-Gives :
      (n : ℕ) (Q : ℕ → B → Type 0) (o : Option A) (m : M B) (k : A → M B)
      → Gives d n Q m
      → ((a : A) → Gives d n Q (k a))
      → Gives d n Q (elim o [ none ↦ m | some a ↦ k a ])
  option-Gives n Q none m k absent next = absent
  option-Gives n Q (some a) m k absent next = next a

module _ {d : Domain} {A : Type 0} where
  pub pure-Gives :
      (n : ℕ) (Q : ℕ → A → Type 0) (a : A) → ((n' : ℕ) → n ≤ n' → Q n' a) → Gives d n Q (pure a)
  unfolding Leaves Ends
  pure-Gives n Q a holds = record {
    at = λ h le sound. (sound, omega arith, holds h.pmm.next_free le);
  }

  pub pure-Writes : (n : ℕ) (a : A) → Writes d n (pure a)
  unfolding Always
  pure-Writes n a = pure-Gives n Always a (λ n' le. tt)

  pub if-Gives :
      (n : ℕ) (Q : ℕ → A → Type 0) (b : Bool) (m k : M A)
      → Gives d n Q m
      → Gives d n Q k
      → Gives d n Q (if b then m else k)
  if-Gives n Q true m k first second = first
  if-Gives n Q false m k first second = second

  -- Where a branch needs what its test says
  pub test-Gives :
      (n : ℕ) (Q : ℕ → A → Type 0) (b : Bool) (m k : M A)
      → Gives d n Q m
      → (b ≡ false → Gives d n Q k)
      → Gives d n Q (if b then m else k)
  test-Gives n Q true m k first second = first
  test-Gives n Q false m k first second = second refl

  pub cases-Gives :
      (n : ℕ) (Q : ℕ → A → Type 0) (b : Bool) (m k : M A)
      → Gives d n Q m
      → Gives d n Q k
      → Gives d n Q (elim b [ true ↦ m | false ↦ k ])
  cases-Gives n Q true m k first second = first
  cases-Gives n Q false m k first second = second
